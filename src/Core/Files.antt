-- ===== src/Core/Files.antt =====
-- The files that the collectors read, and crates/heimwatch-core/src/process.rs: the name of a process.
use heimwatch.Prelude.{
  ℕ, Bool, ◌||◌, List, [], ◌∷◌, ◌++◌, Option, none, some, Bytes, codes, eq_bytes, ◌==◌,
  if◌then◌else◌, ◌≡◌, refl,
}
use heimwatch.Keys.Std.{split}
use heimwatch.Keys.Decimal.{to_decimal}
use heimwatch.Core.Text.{trim, is_empty}

-- The file system as it is when a collector reads it. A path is its bytes; `read_dir` gives the names
-- of the entries that can be read.
pub record FileSystem : Type 0 where
  pub read_to_string : Bytes → Option Bytes
  pub read_dir : Bytes → Option (List Bytes)
  pub exists : Bytes → Bool
  pub is_dir : Bytes → Bool

-- `Path::join`: an absolute path replaces what it is joined to.
abbrev pub join_path : Bytes → Bytes → Bytes
join_path dir [] = dir ++ b'/' ∷ []
join_path dir (c ∷ s) = if c == b'/' then c ∷ s else dir ++ (b'/' ∷ c ∷ s)

-- The last component of a path that is not `.`.
abbrev pub last_part : Option Bytes → List Bytes → Option Bytes
last_part found [] = found
last_part found (p ∷ ps) =
    last_part (if is_empty p || eq_bytes p (codes ".") then found else some p) ps

unfoldable pub extract_process_name : Bytes → Option Bytes
extract_process_name path = elim (last_part none (split b'/' path)) [
  | none ↦ none
  | some p ↦ if eq_bytes p (codes "..") then none else some p
]

abbrev pub first_argument : Bytes → Bytes
first_argument s = elim (split 0 s) [ [] ↦ [] | p ∷ ps ↦ p ]

-- The name from the command line, if there is one.
abbrev pub from_cmdline : Option Bytes → Option Bytes
from_cmdline none = none
from_cmdline (some cmdline) =
    if is_empty (first_argument cmdline)
    then none
    else extract_process_name (first_argument cmdline)

abbrev pub proc_file : ℕ → Bytes → Bytes
proc_file pid file = join_path (join_path (codes "/proc") (to_decimal pid)) file

unfoldable pub get_process_name : FileSystem → ℕ → Option Bytes
unfolding extract_process_name
get_process_name fs pid =
    elim (from_cmdline (fs.read_to_string (proc_file pid (codes "cmdline")))) [
      | some name ↦ some name
      | none ↦ elim (fs.read_to_string (proc_file pid (codes "comm"))) [
        | none ↦ none
        | some comm ↦ some (trim comm)
      ]
    ]

zen : extract_process_name (codes "/app/zen/zen") ≡ some (codes "zen")
unfolding extract_process_name split
zen = refl
