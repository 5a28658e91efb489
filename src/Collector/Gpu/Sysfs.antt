-- ===== src/Collector/Gpu/Sysfs.antt =====
-- The functions that the backends of crates/heimwatch-collector/src/gpu/linux share: generic.rs.
use heimwatch.Prelude.{
  ℕ, Bool, true, false, List, [], ◌∷◌, Option, none, some, Bytes, codes, ◌==◌, if◌then◌else◌,
}
use heimwatch.Core.Floats.{Floats}
use heimwatch.Core.Text.{lines, trim, strip_prefix, parse_nat}
use heimwatch.Core.Files.{FileSystem, join_path}
use heimwatch.Collector.{from_utf8_lossy}

abbrev pub is_some : {A : Type 0} → Option A → Bool
is_some none = false
is_some (some a) = true

abbrev pub starts_with : Bytes → Bytes → Bool
starts_with prefix s = is_some (strip_prefix prefix s)

unfoldable pub read_sysfs_u64 : FileSystem → Bytes → Option ℕ
read_sysfs_u64 fs path = elim (fs.read_to_string path) [
  | none ↦ none
  | some content ↦ parse_nat (trim content)
]

unfoldable pub read_sysfs_string : FileSystem → Bytes → Option Bytes
read_sysfs_string fs path = elim (fs.read_to_string path) [
  | none ↦ none
  | some content ↦ some (trim content)
]

-- The first entry whose name starts with `hwmon`.
abbrev pub first_hwmon : Bytes → List Bytes → Option Bytes
first_hwmon dir [] = none
first_hwmon dir (name ∷ names) =
    let rest = first_hwmon dir names in
    if starts_with (codes "hwmon") (from_utf8_lossy name) then some (join_path dir name) else rest

unfoldable pub find_hwmon_path : FileSystem → Bytes → Option Bytes
find_hwmon_path fs device_path =
    let hwmon_dir = join_path device_path (codes "hwmon") in
    if fs.exists hwmon_dir
    then (elim (fs.read_dir hwmon_dir) [ none ↦ none | some names ↦ first_hwmon hwmon_dir names ])
    else none

-- The file `product_name`, or else `name`.
unfoldable pub read_device_name : FileSystem → Bytes → Option Bytes
unfolding read_sysfs_string
read_device_name fs device_path =
    elim (read_sysfs_string fs (join_path device_path (codes "product_name"))) [
      | some name ↦ some name
      | none ↦ read_sysfs_string fs (join_path device_path (codes "name"))
    ]

-- The first line that starts with the prefix.
abbrev pub first_with : Bytes → List Bytes → Option Bytes
first_with prefix [] = none
first_with prefix (l ∷ ls) =
    let rest = first_with prefix ls in if starts_with prefix l then some l else rest

-- What follows the first such byte: the second part of `split_once`.
abbrev pub after_first : ℕ → Bytes → Option Bytes
after_first c [] = none
after_first c (b ∷ s) = let rest = after_first c s in if b == c then some s else rest

abbrev pub slot_of_line : Option Bytes → Option Bytes
slot_of_line none = none
slot_of_line (some l) = elim (after_first b'=' l) [ none ↦ none | some v ↦ some (trim v) ]

unfoldable pub read_pci_slot_name : FileSystem → Bytes → Option Bytes
read_pci_slot_name fs device_path =
    elim (fs.read_to_string (join_path device_path (codes "uevent"))) [
      | none ↦ none
      | some uevent ↦ slot_of_line (first_with (codes "PCI_SLOT_NAME=") (lines uevent))
    ]

module _ (fl : Floats) where
  open fl use {F32}

  -- `n as f32 / divisor`
  abbrev pub scaled : F32 → Option ℕ → Option F32
  scaled divisor none = none
  scaled divisor (some n) = some (fl.div_f32 (fl.f32_of_u64 n) divisor)

  unfoldable pub read_hwmon_temp_celsius : FileSystem → Bytes → Option F32
  unfolding read_sysfs_u64
  read_hwmon_temp_celsius fs hwmon =
      scaled (fl.literal_f32 10000 1) (read_sysfs_u64 fs (join_path hwmon (codes "temp1_input")))

  unfoldable pub read_hwmon_power_watts : FileSystem → Bytes → Option F32
  unfolding read_sysfs_u64
  read_hwmon_power_watts fs hwmon =
      scaled (fl.literal_f32 10000000 1)
        (read_sysfs_u64 fs (join_path hwmon (codes "power1_average")))
