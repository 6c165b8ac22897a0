-- ===== src/Emulator/Print.antt =====
-- tools/gen_expected.py, `emit_sv` and `main`: what is printed.
pub mod Ends
pub mod Layout
pub mod Words
use riscv_vibecoded.Emulator.{Entry, Retire}
use riscv_vibecoded.Emulator.Preload.{preload}
use riscv_vibecoded.Emulator.Program
use riscv_vibecoded.Py.Int.{ℤ, pos, leb_ℤ, ◌+ℤ◌, ◌-ℤ◌, ◌<<ℤ◌}
use riscv_vibecoded.Py.Dict.{at}
use riscv_vibecoded.Py.Equality.{int_eq}
use riscv_vibecoded.Py.Output.{Output, exit, prints, print_all, or_raise}
use riscv_vibecoded.Py.Text.{Text, text, join}
use riscv_vibecoded.Py.Text.Number.{str_of, hex_field}
use riscv_vibecoded.Prelude.{List, [], ◌∷◌, ◌++◌, length, if◌then◌else◌}

-- sorted(d), the keys of a dictionary in order
abbrev insert : ℤ → List ℤ → List ℤ
insert k [] = k ∷ []
insert k (j ∷ ks) = if leb_ℤ k j then k ∷ j ∷ ks else j ∷ insert k ks

unfoldable pub sorted_keys : List (ℤ × ℤ) → List ℤ
sorted_keys [] = []
sorted_keys ((k, v) ∷ d) = insert k (sorted_keys d)

-- 32'h%08x, 5'd%d and 4'h%x
abbrev pub word : ℤ → Text
word n = text "32'h" ++ hex_field 8 n

abbrev number : ℤ → Text
number n = text "5'd" ++ str_of n

abbrev mask : ℤ → Text
mask n = text "4'h" ++ hex_field 0 n

unfoldable pub row_lines : ℤ → Retire → List Text
row_lines o r =
    (text "    set_exp("
      ++ (join (text ", ") (
            str_of o
            ∷ word r.w
            ∷ word r.pc
            ∷ word r.pcw
            ∷ number r.r1a
            ∷ word r.r1d
            ∷ number r.r2a
            ∷ word r.r2d
            ∷ [])
          ++ text ","))
    ∷ (text "             "
        ++ (join (text ", ") (
              number r.rda
              ∷ word r.rdw
              ∷ word r.ma
              ∷ mask r.rm
              ∷ mask r.wm
              ∷ word r.mrd
              ∷ word r.mwd
              ∷ [])
            ++ text ");"))
    ∷ []

-- The loop over the rows, from the number of the first.
unfoldable pub table_lines : ℤ → List Retire → List Text
table_lines o [] = []
table_lines o (r ∷ ret) = row_lines o r ++ table_lines (o +ℤ pos 1) ret

unfoldable pub title_line : ℤ → List Retire → Text
title_line order0 ret =
    text "// generated by tools/gen_expected.py (order "
    ++ (str_of order0 ++ (text ".." ++ (str_of (order0 +ℤ pos (length ret) -ℤ pos 1) ++ text ")")))

unfoldable pub preload_line : ℤ → ℤ → Text
preload_line idx v =
    text "    mem[0x"
    ++ (hex_field 4 (idx <<ℤ 2)
        ++ (text " >> 2] = " ++ (word v ++ (text ";  // word @0x" ++ hex_field 4 (idx <<ℤ 2)))))

unfoldable pub print_words : List ℤ → List (ℤ × ℤ) → Output → Output
unfolding preload_line
print_words [] d next = next
print_words (idx ∷ ks) d next =
    let rest = print_words ks d next in or_raise (at idx d) (λ v. prints (preload_line idx v) rest)

unfoldable pub emit_sv : List Entry → List Retire → ℤ → Output → Output
emit_sv prog ret order0 next = prints (title_line order0 ret) (
    print_all (table_lines order0 ret) (
      prints (text "// preload words:")
        (or_raise (preload prog []) (λ d. print_words (sorted_keys d) d next))))

-- `main`, with what it prints
unfoldable pub run_main : Output
run_main = or_raise Program.main (λ made. emit_sv made.0 made.1 (pos 19) (exit 0))
