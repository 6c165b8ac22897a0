-- ===== src/Formal/Reset.antt =====
-- scripts/formal_m1_gen.py and formal_m2_gen.py: the reset depth of the rewritten files.
use riscv_vibecoded.Formal.{Config}
use riscv_vibecoded.Formal.Rewrite.{
  reset_match, new_reset, set_reset, split_read, sv_read_of, post_process, drop_end,
}
use riscv_vibecoded.Py.Text.{Text, text, text_eq, elem, is_word}
use riscv_vibecoded.Py.Text.Match.{starts_with_word, somewhere, sub_all}
use riscv_vibecoded.Prelude.{
  ℕ, zero, suc, false, ◌==◌, [], ◌∷◌, ◌++◌, Bool-cases, inl, inr, ◌≡◌, refl, ◌∙◌, arith,
}

-- No part of a pattern, up to its end, stands at the start of the new text.
abbrev Clean : Text → Type 0
Clean [] = Unit
Clean (d ∷ p) = ((x : Text) → starts_with_word (new_reset ++ x) (d ∷ p) ≡ false) × Clean p

abbrev rest_of_pattern : Text
rest_of_pattern = text "ISCV_FORMAL_RESET_CYCLES 1"

rest_of_pattern-Clean : Clean rest_of_pattern
unfolding starts_with_word is_word
rest_of_pattern-Clean = (
  λ x. refl,
  (
    λ x. refl,
    (
      λ x. refl,
      (
        λ x. refl,
        (
          λ x. refl,
          (
            λ x. refl,
            (
              λ x. refl,
              (
                λ x. refl,
                (
                  λ x. refl,
                  (
                    λ x. refl,
                    (
                      λ x. refl,
                      (
                        λ x. refl,
                        (
                          λ x. refl,
                          (
                            λ x. refl,
                            (
                              λ x. refl,
                              (
                                λ x. refl,
                                (
                                  λ x. refl,
                                  (
                                    λ x. refl,
                                    (
                                      λ x. refl,
                                      (
                                        λ x. refl,
                                        (
                                          λ x. refl,
                                          (
                                            λ x. refl,
                                            (λ x. refl, (λ x. refl, (λ x. refl, (λ x. refl, tt)))),
                                          ),
                                        ),
                                      ),
                                    ),
                                  ),
                                ),
                              ),
                            ),
                          ),
                        ),
                      ),
                    ),
                  ),
                ),
              ),
            ),
          ),
        ),
      ),
    ),
  ),
)

-- What does not stand at the start of a text does not after the substitution either.
starts_with_word-sub_all :
    (p s : Text)
    → Clean p
    → starts_with_word s p ≡ false
    → starts_with_word (sub_all reset_match 26 new_reset 0 s) p ≡ false
unfolding starts_with_word sub_all
starts_with_word-sub_all [] [] h e = e
starts_with_word-sub_all [] (c ∷ s) h e = elim (Bool-cases (reset_match (c ∷ s))) [
  | inl hit ↦ rw hit (unfold is_word in refl)
  | inr miss ↦ rw miss e
]
starts_with_word-sub_all (d ∷ p) [] h e = refl
starts_with_word-sub_all (d ∷ p) (c ∷ s) h e = elim (Bool-cases (reset_match (c ∷ s))) [
  | inl hit ↦ rw hit (h.0 (sub_all reset_match 26 new_reset 26 s))
  | inr miss ↦ rw miss (elim (Bool-cases (c == d)) [
    | inl same ↦ rw same (starts_with_word-sub_all p s h.1 (ground (arith, e, same)))
    | inr other ↦ rw other refl
  ])
]

-- The new text has no match that begins in it.
somewhere-new_reset : (x : Text) → somewhere reset_match (new_reset ++ x) ≡ somewhere reset_match x
unfolding somewhere reset_match starts_with_word is_word
somewhere-new_reset x = refl

reset_match_next :
    (c : ℕ) (s : Text)
    → reset_match (c ∷ s) ≡ false
    → reset_match (c ∷ sub_all reset_match 26 new_reset 0 s) ≡ false
unfolding reset_match starts_with_word
reset_match_next c s e = elim (Bool-cases (c == b'R')) [
  | inl same ↦
      rw same
        (starts_with_word-sub_all rest_of_pattern s rest_of_pattern-Clean (ground (arith, e, same)))
  | inr other ↦ rw other refl
]

somewhere_cons :
    (c : ℕ) (s : Text)
    → reset_match (c ∷ s) ≡ false
    → somewhere reset_match (c ∷ s) ≡ somewhere reset_match s
unfolding somewhere
somewhere_cons c s e = rw e refl

somewhere-sub_all :
    (left : ℕ) (s : Text) → somewhere reset_match (sub_all reset_match 26 new_reset left s) ≡ false
unfolding sub_all
somewhere-sub_all left [] = unfold somewhere reset_match starts_with_word in refl
somewhere-sub_all (suc left) (c ∷ s) = somewhere-sub_all left s
somewhere-sub_all zero (c ∷ s) = elim (Bool-cases (reset_match (c ∷ s))) [
  | inl hit ↦
      rw hit (somewhere-new_reset (sub_all reset_match 26 new_reset 26 s) ∙ somewhere-sub_all 26 s)
  | inr miss ↦ rw miss (
      somewhere_cons c (sub_all reset_match 26 new_reset 0 s) (reset_match_next c s miss)
      ∙ somewhere-sub_all zero s)
]

-- For every script, repository, file name and content, where the check of that name is not one of
-- those that run in bmc mode: the rewritten content has no reset depth of 1 anywhere, that is, no
-- `RISCV_FORMAL_RESET_CYCLES 1` with a word boundary after it.
pub somewhere-post_process :
    (cfg : Config) (repo fname content : Text)
    → elem (drop_end 4 fname) cfg.bmc_checks ≡ false
    → somewhere reset_match (post_process cfg repo fname content) ≡ false
unfolding post_process set_reset
somewhere-post_process cfg repo fname content h =
    rw h (somewhere-sub_all 0 (split_read (sv_read_of cfg repo) content))
