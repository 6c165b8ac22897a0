-- ===== src/Py/Text/Match.antt =====
-- What the code uses of `re`: a class with +, and a word boundary. Each class is followed by a
-- character outside it, so that the longest run is the only one that can match.
use riscv_vibecoded.Py.Text.{Text, run_of, is_word, starts_with}
use riscv_vibecoded.Py.Text.Strip.{Each, run_of-append, run_of_all}
use riscv_vibecoded.Prelude.{
  ℕ, suc, zero, Bool, true, false, not, ◌&&◌, ◌==◌, [], ◌∷◌, ◌++◌, Option, none, some,
  if◌then◌else◌, ◌≡◌, ◌≢◌, refl,
}

infixl 5 ◌>>=◌
abbrev pub ◌>>=◌ {ℓ κ} : {A : Type ℓ} {B : Type κ} → Option A → (A → Option B) → Option B
none >>= f = none
some a >>= f = f a

abbrev pub non_empty : Text × Text → Option (Text × Text)
non_empty ([], rest) = none
non_empty (c ∷ run, rest) = some (c ∷ run, rest)

-- A class and +: a run that is not empty, and the rest.
unfoldable pub some_of : (ℕ → Bool) → Text → Option (Text × Text)
some_of p s = non_empty (run_of p s)

-- A run that is not empty and ends at a character outside its class.
pub some_of-append :
    (p : ℕ → Bool) (s : Text) (c : ℕ) (rest : Text)
    → s ≢ []
    → Each p true s
    → p c ≡ false
    → some_of p (s ++ c ∷ rest) ≡ some (s, c ∷ rest)
unfolding some_of
some_of-append p [] c rest ne h e = absurd (ne refl)
some_of-append p (d ∷ s) c rest ne h e = rw (run_of-append p (d ∷ s) c rest h e) refl

pub some_of_all : (p : ℕ → Bool) (s : Text) → s ≢ [] → Each p true s → some_of p s ≡ some (s, [])
unfolding some_of
some_of_all p [] ne h = absurd (ne refl)
some_of_all p (d ∷ s) ne h = rw (run_of_all p (d ∷ s) h) refl

-- p\b at the start of a text, for a p that ends in a word character.
abbrev pub ends_word : Text → Bool
ends_word [] = true
ends_word (c ∷ s) = not (is_word c)

unfoldable pub starts_with_word : Text → Text → Bool
starts_with_word s [] = ends_word s
starts_with_word [] (d ∷ p) = false
starts_with_word (c ∷ s) (d ∷ p) = c == d && starts_with_word s p

-- Whether a test holds at some place of a text.
unfoldable pub somewhere : (Text → Bool) → Text → Bool
somewhere hit [] = hit []
somewhere hit (c ∷ s) = if hit (c ∷ s) then true else somewhere hit s

abbrev pub drop : ℕ → Text → Text
drop zero s = s
drop (suc n) [] = []
drop (suc n) (c ∷ s) = drop n s

-- re.sub: every match goes on after its last character. The first argument is the number of
-- characters left of a match; all matches have one length, that of a match less one is `size`.
unfoldable pub sub_all : (Text → Bool) → ℕ → Text → ℕ → Text → Text
sub_all hit size new left [] = []
sub_all hit size new (suc left) (c ∷ s) = sub_all hit size new left s
sub_all hit size new zero (c ∷ s) =
    let after = sub_all hit size new size s in
    let next = sub_all hit size new zero s in if hit (c ∷ s) then new ++ after else c ∷ next

-- s.replace(old, new, 1)
unfoldable pub replace_first : ℕ → Text → Text → Text → Text
replace_first size old new [] = []
replace_first size old new (c ∷ s) =
    let next = replace_first size old new s in
    if starts_with (c ∷ s) old then new ++ drop size (c ∷ s) else c ∷ next
