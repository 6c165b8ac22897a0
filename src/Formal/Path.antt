-- ===== src/Formal/Path.antt =====
-- Python's os.path.join.
use riscv_vibecoded.Py.Text.{Text, text, starts_with, ends_with, eq_text}
use riscv_vibecoded.Prelude.{◌||◌, List, [], ◌∷◌, ◌++◌, if◌then◌else◌}

unfoldable pub join_one : Text → Text → Text
join_one path part =
    if starts_with part (text "/")
    then part
    else if eq_text path [] || ends_with path (text "/")
    then path ++ part
    else path ++ b'/' ∷ part

unfoldable pub join_path : Text → List Text → Text
join_path path [] = path
join_path path (part ∷ parts) = join_path (join_one path part) parts
