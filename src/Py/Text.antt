-- ===== src/Py/Text.antt =====
-- Python's `str`, as a list of code points, and what the code uses of its methods. Letters and
-- digits are those of ASCII.
pub mod Match
pub mod Lines
pub mod Number
pub mod Strip
use Prim.Native.Char.{code}
use Prim.Native.String.{String}
use riscv_vibecoded.Py.Equality.{Eq}
use riscv_vibecoded.Prelude.{
  ℕ, Bool, true, false, not, ◌&&◌, ◌||◌, List, [], ◌∷◌, ◌++◌, ◌==◌, ==_iff, leb, if◌then◌else◌, ◌≡◌,
  ◌↔◌, Option, none, some, ap, arith,
}

abbrev pub Text : Type 0
Text = List ℕ

-- A literal.
abbrev pub text : String → Text
text String.[] = []
text (String.◌∷◌ c s) = code c ∷ text s

-- s == t
unfoldable pub eq_text : Text → Text → Bool
eq_text [] [] = true
eq_text (a ∷ s) (b ∷ t) = a == b && eq_text s t
eq_text _ _ = false

pub eq_text_iff : (s t : Text) → (eq_text s t ≡ true) ↔ (s ≡ t)
unfolding eq_text
eq_text_iff [] [] = ground arith
eq_text_iff [] (b ∷ t) = ground arith
eq_text_iff (a ∷ s) [] = ground arith
eq_text_iff (a ∷ s) (b ∷ t) = ground (arith, eq_text_iff s t)

instance abbrev pub text_eq : Eq Text
text_eq = record { same = eq_text; same_iff = eq_text_iff }

-- s in xs, for a list or a set
unfoldable pub elem {ℓ} : {A : Type ℓ} ⦃e : Eq A⦄ → A → List A → Bool
elem a [] = false
elem ⦃e⦄ a (x ∷ xs) = e.same x a || elem a xs

-- s.startswith(p)
unfoldable pub starts_with : Text → Text → Bool
starts_with s [] = true
starts_with [] (b ∷ p) = false
starts_with (a ∷ s) (b ∷ p) = a == b && starts_with s p

-- s.endswith(p)
unfoldable pub ends_with : Text → Text → Bool
ends_with [] p = eq_text [] p
ends_with (c ∷ s) p = eq_text (c ∷ s) p || ends_with s p

-- What follows a prefix.
unfoldable pub after_prefix : Text → Text → Option Text
after_prefix s [] = some s
after_prefix [] (b ∷ p) = none
after_prefix (a ∷ s) (b ∷ p) = if a == b then after_prefix s p else none

abbrev pub within : ℕ → ℕ → ℕ → Bool
within lo hi c = leb lo c && leb c hi

-- \d, \w and \s of `re`, the last of which is also what str.strip removes
unfoldable pub is_digit : ℕ → Bool
is_digit c = within b'0' b'9' c

unfoldable pub is_word : ℕ → Bool
is_word c = within b'0' b'9' c || within b'A' b'Z' c || within b'a' b'z' c || c == b'_'

unfoldable pub is_space : ℕ → Bool
is_space c =
    within 0x09 0x0D c
    || within 0x1C 0x20 c
    || c == 0x85
    || c == 0xA0
    || c == 0x1680
    || within 0x2000 0x200A c
    || within 0x2028 0x2029 c
    || c == 0x202F
    || c == 0x205F
    || c == 0x3000

abbrev pub not_space : ℕ → Bool
not_space c = not (is_space c)

-- The longest run of characters of a class, and the rest.
unfoldable pub run_of : (ℕ → Bool) → Text → Text × Text
run_of p [] = ([], [])
run_of p (c ∷ s) = let (run, rest) = run_of p s in if p c then (c ∷ run, rest) else ([], c ∷ s)

-- s.rstrip(…) and s.lstrip(…), for a class of characters
abbrev pub keep_before : (ℕ → Bool) → ℕ → Text → Text
keep_before p c [] = if p c then [] else c ∷ []
keep_before p c (d ∷ s) = c ∷ d ∷ s

unfoldable pub rstrip : (ℕ → Bool) → Text → Text
rstrip p [] = []
rstrip p (c ∷ s) = keep_before p c (rstrip p s)

unfoldable pub lstrip : (ℕ → Bool) → Text → Text
lstrip p [] = []
lstrip p (c ∷ s) = if p c then lstrip p s else c ∷ s

-- s.split(c)
abbrev pub push_head : ℕ → List Text → List Text
push_head c [] = (c ∷ []) ∷ []
push_head c (s ∷ ss) = (c ∷ s) ∷ ss

unfoldable pub split : ℕ → Text → List Text
split sep [] = [] ∷ []
split sep (c ∷ s) = if c == sep then [] ∷ split sep s else push_head c (split sep s)

-- sep.join(ss)
unfoldable pub join : Text → List Text → Text
join sep [] = []
join sep (s ∷ []) = s
join sep (s ∷ t ∷ ss) = s ++ sep ++ join sep (t ∷ ss)
