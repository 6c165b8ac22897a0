-- ===== src/Formal/Rewrite.antt =====
-- scripts/formal_m1_gen.py and formal_m2_gen.py: what becomes of the text of one generated file.
use riscv_vibecoded.Formal.{Config}
use riscv_vibecoded.Formal.Path.{join_path}
use riscv_vibecoded.Py.Text.{
  Text, text, text_eq, elem, ends_with, after_prefix, not_space, split, join,
}
use riscv_vibecoded.Py.Text.Match.{some_of, ◌>>=◌, starts_with_word, sub_all, replace_first}
use riscv_vibecoded.Prelude.{
  ℕ, Bool, ◌&&◌, [], ◌∷◌, ◌++◌, map, length, ltb, leb, Option, none, some, if◌then◌else◌,
}

-- A class and + before a suffix of its characters: at least one more.
abbrev pub longer_than : Text → Text → Bool
longer_than suffix s = ends_with s suffix && ltb (length suffix) (length s)

abbrev when_ok {ℓ} : {A : Type ℓ} → Bool → A → Option A
when_ok b a = if b then some a else none

-- ^read -sv (\S+\.sv) (.+?wrapper\.sv)$ on one line: group 1
unfoldable pub match_read : Text → Option Text
match_read line = do
  s1 ← after_prefix line (text "read -sv ")
  (check, s2) ← some_of not_space s1
  s3 ← after_prefix s2 (text " ")
  when_ok (longer_than (text ".sv") check && longer_than (text "wrapper.sv") s3) check

abbrev pub replace_read : Text → Text → Option Text → Text
replace_read sv_read line none = line
replace_read sv_read line (some check) = sv_read ++ (text "\nread_verilog -sv " ++ check)

unfoldable pub rewrite_line : Text → Text → Text
rewrite_line sv_read line = replace_read sv_read line (match_read line)

-- read_line_re.sub(…, content): a match begins and ends with its line.
unfoldable pub split_read : Text → Text → Text
split_read sv_read content = join (text "\n") (map (rewrite_line sv_read) (split b'\n' content))

unfoldable pub reset_match : Text → Bool
reset_match s = starts_with_word s (text "RISCV_FORMAL_RESET_CYCLES 1")

abbrev pub new_reset : Text
new_reset = text "RISCV_FORMAL_RESET_CYCLES 8"

-- reset_re.sub("RISCV_FORMAL_RESET_CYCLES 8", content)
unfoldable pub set_reset : Text → Text
set_reset = sub_all reset_match 26 new_reset 0

unfoldable pub to_bmc : Text → Text
to_bmc content =
    replace_first 31 (text "`define RISCV_FORMAL_UNBOUNDED\n") []
      (replace_first 10 (text "mode prove") (text "mode bmc") content)

-- s[:-k]
abbrev pub drop_end : ℕ → Text → Text
drop_end k [] = []
drop_end k (c ∷ s) = if leb (length (c ∷ s)) k then [] else c ∷ drop_end k s

abbrev pub sv_read_of : Config → Text → Text
sv_read_of cfg repo =
    text "read_slang " ++ join (text " ") (map (λ (p : Text). join_path repo (p ∷ [])) cfg.core_sv)

-- The body of the loop, from the content that it reads to the content that it writes.
unfoldable pub post_process : Config → Text → Text → Text → Text
post_process cfg repo fname content =
    let rewritten = set_reset (split_read (sv_read_of cfg repo) content) in
    if elem (drop_end 4 fname) cfg.bmc_checks then to_bmc rewritten else rewritten
