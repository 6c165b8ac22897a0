-- ===== src/Encoder/SelfCheck.antt =====
-- tools/riscv_enc.py: the assertions that it makes when it is run.
use riscv_vibecoded.Encoder.Base.{rtype, itype, lui, auipc, jal, jalr, branch, load, store}
use riscv_vibecoded.Py.Int.{ℤ, pos, negsuc, eqb_ℤ}
use riscv_vibecoded.Py.Error.{assertion_error}
use riscv_vibecoded.Py.Output.{Output, raised, prints, exit}
use riscv_vibecoded.Py.Text.{text}
use riscv_vibecoded.Prelude.{List, [], ◌∷◌, if◌then◌else◌}

-- The two sides of each assertion, in order.
abbrev pub assertions : List (ℤ × ℤ)
assertions =
    (itype (pos 0) (pos 0) (pos 1) (pos 5), pos 0x00500093)
    ∷ (itype (pos 0) (pos 1) (pos 2) (pos 7), pos 0x00708113)
    ∷ (rtype (pos 0) (pos 0x00) (pos 1) (pos 2) (pos 3), pos 0x002081B3)
    ∷ (rtype (pos 0) (pos 0x20) (pos 3) (pos 1) (pos 4), pos 0x40118233)
    ∷ (itype (pos 1) (pos 4) (pos 5) (pos 2), pos 0x00221293)
    ∷ (auipc (pos 6) (pos 0), pos 0x00000317)
    ∷ (jal (pos 8) (pos 7), pos 0x008003EF)
    ∷ (branch (pos 1) (pos 8) (pos 1) (pos 8), pos 0x00141463)
    ∷ (branch (pos 0) (pos 8) (pos 8) (pos 4), pos 0x00840263)
    ∷ (store (pos 2) (pos 0) (pos 1) (pos 0x100), pos 0x10102023)
    ∷ (load (pos 2) (pos 0) (pos 10) (pos 0x100), pos 0x10002503)
    ∷ (store (pos 0) (pos 0) (pos 1) (pos 0x102), pos 0x10100123)
    ∷ (load (pos 4) (pos 0) (pos 11) (pos 0x102), pos 0x10204583)
    ∷ (load (pos 0) (pos 0) (pos 12) (pos 0x102), pos 0x10200603)
    ∷ (jalr (pos 7) (pos 0) (pos 0x28), pos 0x02838067)
    ∷ (itype (pos 0) (pos 0) (pos 13) (pos 0xAA), pos 0x0AA00693)
    ∷ (lui (pos 6) (pos 0x12345), pos 0x12345337)
    ∷ (jal (negsuc 3) (pos 1), pos 0xFFDFF0EF)
    ∷ []

unfoldable pub assert_each : List (ℤ × ℤ) → Output → Output
assert_each [] next = next
assert_each ((a, b) ∷ ps) next =
    let rest = assert_each ps next in if eqb_ℤ a b then rest else raised assertion_error

unfoldable pub self_check : Output
unfolding assert_each
self_check = assert_each assertions (prints (text "riscv_enc self-check: PASS") (exit 0))
