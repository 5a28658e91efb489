-- ===== src/Collector/Gpu/Detect.antt =====
-- crates/heimwatch-collector/src/gpu/linux/detect.rs: the cards of /sys/class/drm and their backends.
use mathlib.Core.List
use heimwatch.Prelude.{
  ℕ, Bool, false, ◌&&◌, ◌||◌, List, Option, none, some, Bytes, codes, eq_bytes, ltb, ◌==◌,
  if◌then◌else◌,
}
use heimwatch.Error.{Result, ok, err}
use heimwatch.Core.Text.{trim, strip_prefix, contains_char, parse_u32, from_hex}
use heimwatch.Core.Files.{FileSystem, join_path, extract_process_name}
use heimwatch.Apps.{sort_by}
use heimwatch.Collector.{from_utf8_lossy}
use heimwatch.Collector.Gpu.Backends.{GpuBackend, new_amd, new_intel, new_generic}

-- The index and the path of an entry named `card` and a number.
unfoldable pub card_of : Bytes → Bytes → Option (ℕ × Bytes)
card_of drm_path name =
    let name_str = from_utf8_lossy name in
    elim (strip_prefix (codes "card") name_str) [
      | none ↦ none
      | some number ↦ if contains_char b'-' name_str then none else (elim (parse_u32 number) [
        | none ↦ none
        | some idx ↦ some (idx, join_path drm_path name)
      ])
    ]

unfoldable pub cards_of : Bytes → List Bytes → List (ℕ × Bytes)
unfolding card_of
cards_of drm_path names = List.filter_map (card_of drm_path) names

abbrev pub lower_index : ℕ × Bytes → ℕ × Bytes → Bool
lower_index (a, p) (b, q) = ltb a b

-- The hexadecimal number after `0x`; 0xFFFF for any other.
abbrev pub vendor_id : Option Bytes → ℕ
vendor_id none = 0xFFFF
vendor_id (some content) = elim (strip_prefix (codes "0x") (trim content)) [
  | none ↦ 0xFFFF
  | some v ↦ elim (from_hex v) [ none ↦ 0xFFFF | some n ↦ n ]
]

abbrev pub is_driver : Bytes → Option Bytes → Bool
is_driver name none = false
is_driver name (some driver) = eq_bytes driver name

-- The backend of a vendor and a driver.
unfoldable pub backend_for : FileSystem → ℕ → Bytes → ℕ → Option Bytes → GpuBackend
unfolding new_amd new_intel new_generic
backend_for fs idx device_path vendor driver =
    if vendor == 0x1002 && is_driver (codes "amdgpu") driver
    then GpuBackend.amd (new_amd fs idx device_path)
    else if vendor == 0x8086 && (is_driver (codes "i915") driver || is_driver (codes "xe") driver)
    then GpuBackend.intel (new_intel fs idx device_path)
    else GpuBackend.generic (new_generic fs idx device_path)

-- `read_link` of the file system is a parameter.
module _ (read_link : Bytes → Option Bytes) where
  -- `file_name` of the link's target
  unfoldable pub resolve_driver : Bytes → Option Bytes
  unfolding extract_process_name
  resolve_driver device_path =
      elim (read_link (join_path (join_path device_path (codes "driver")) (codes "module"))) [
        | none ↦ none
        | some target ↦ elim (extract_process_name target) [
          | none ↦ none
          | some name ↦ some (from_utf8_lossy name)
        ]
      ]

  unfoldable pub detect_and_create_backend : FileSystem → ℕ → Bytes → Option GpuBackend
  unfolding backend_for resolve_driver
  detect_and_create_backend fs idx card_path =
      let device_path = join_path card_path (codes "device") in
      if fs.exists device_path
      then some (
          backend_for fs idx device_path
            (vendor_id (fs.read_to_string (join_path device_path (codes "vendor"))))
            (resolve_driver device_path))
      else none

  unfoldable pub create_backends : FileSystem → List (ℕ × Bytes) → List GpuBackend
  unfolding detect_and_create_backend
  create_backends fs cards =
      List.filter_map (λ card. detect_and_create_backend fs card.0 card.1) cards

  -- Fails where /sys/class/drm is not there or cannot be read.
  unfoldable pub enumerate_gpus : FileSystem → Result (Unit {0}) (List GpuBackend)
  unfolding cards_of create_backends
  enumerate_gpus fs =
      let drm_path = codes "/sys/class/drm" in
      if fs.exists drm_path
      then (elim (fs.read_dir drm_path) [
        | none ↦ err tt
        | some names ↦ ok (create_backends fs (sort_by lower_index (cards_of drm_path names)))
      ])
      else err tt
