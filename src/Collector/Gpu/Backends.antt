-- ===== src/Collector/Gpu/Backends.antt =====
-- The backends of crates/heimwatch-collector/src/gpu/linux: amd.rs, intel.rs and generic.rs, and the
-- trait `GpuBackend` of mod.rs over them. It is the build without the feature `nvidia`.
use heimwatch.Prelude.{
  ℕ, ◌%◌, ◌^◌, List, [], ◌∷◌, ◌++◌, Option, none, some, Bytes, codes, if◌then◌else◌,
}
use heimwatch.Keys.Decimal.{to_decimal}
use heimwatch.Core.Floats.{Floats}
use heimwatch.Core.Metrics.{GpuData, GpuVendor}
use heimwatch.Core.Text.{lines, split_whitespace, trim_end_matches, contains_char, parse_u32}
use heimwatch.Core.Files.{FileSystem, join_path}
use heimwatch.Collector.Gpu.Sysfs.{
  read_sysfs_u64, find_hwmon_path, read_device_name, read_pci_slot_name, read_hwmon_temp_celsius,
  read_hwmon_power_watts,
}

-- What each backend holds of its device.
pub record AmdBackend : Type 0 where
  pub gpu_index : ℕ
  pub device_path : Bytes
  pub pci_address : Bytes
  pub hwmon_path : Option Bytes
  pub name : Bytes

pub record IntelBackend : Type 0 where
  pub gpu_index : ℕ
  pub device_path : Bytes
  pub pci_address : Bytes
  pub hwmon_path : Option Bytes
  pub name : Bytes

pub record GenericBackend : Type 0 where
  pub gpu_index : ℕ
  pub device_path : Bytes
  pub pci_address : Bytes
  pub hwmon_path : Option Bytes
  pub name : Bytes

abbrev pub bytes_or : Bytes → Option Bytes → Bytes
bytes_or default none = default
bytes_or default (some s) = s

unfoldable pub new_amd : FileSystem → ℕ → Bytes → AmdBackend
unfolding find_hwmon_path read_device_name read_pci_slot_name
new_amd fs gpu_index device_path = record {
  gpu_index = gpu_index;
  device_path = device_path;
  pci_address = bytes_or [] (read_pci_slot_name fs device_path);
  hwmon_path = find_hwmon_path fs device_path;
  name = bytes_or (codes "AMD GPU " ++ to_decimal gpu_index) (read_device_name fs device_path);
}

unfoldable pub new_intel : FileSystem → ℕ → Bytes → IntelBackend
unfolding find_hwmon_path read_device_name read_pci_slot_name
new_intel fs gpu_index device_path = record {
  gpu_index = gpu_index;
  device_path = device_path;
  pci_address = bytes_or [] (read_pci_slot_name fs device_path);
  hwmon_path = find_hwmon_path fs device_path;
  name = bytes_or (codes "Intel GPU " ++ to_decimal gpu_index) (read_device_name fs device_path);
}

unfoldable pub new_generic : FileSystem → ℕ → Bytes → GenericBackend
unfolding find_hwmon_path read_device_name read_pci_slot_name
new_generic fs gpu_index device_path = record {
  gpu_index = gpu_index;
  device_path = device_path;
  pci_address = bytes_or [] (read_pci_slot_name fs device_path);
  hwmon_path = find_hwmon_path fs device_path;
  name = bytes_or (codes "GPU " ++ to_decimal gpu_index) (read_device_name fs device_path);
}

-- The number of a line such as `1: 500Mhz *`.
abbrev pub frequency_of : List Bytes → Option ℕ
frequency_of (state ∷ freq_str ∷ rest) = parse_u32 (trim_end_matches (codes "Mhz") freq_str)
frequency_of _ = none

-- The frequency of the first line with a `*` that has one.
unfoldable pub marked_clock : List Bytes → Option ℕ
marked_clock [] = none
marked_clock (line ∷ ls) =
    let rest = marked_clock ls in
    if contains_char b'*' line
    then (elim (frequency_of (split_whitespace line)) [ none ↦ rest | some mhz ↦ some mhz ])
    else rest

unfoldable pub parse_pp_dpm_clock : FileSystem → Bytes → Bytes → Option ℕ
unfolding marked_clock
parse_pp_dpm_clock fs device_path clock_file =
    elim (fs.read_to_string (join_path device_path clock_file)) [
      | none ↦ none
      | some content ↦ marked_clock (lines content)
    ]

-- `freq as u32`
abbrev pub as_u32 : Option ℕ → Option ℕ
as_u32 none = none
as_u32 (some freq) = some (freq % 2 ^ 32)

-- The implementations of the trait.
pub data GpuBackend : Type 0 where
  amd : AmdBackend → GpuBackend
  intel : IntelBackend → GpuBackend
  generic : GenericBackend → GpuBackend

abbrev pub gpu_index : GpuBackend → ℕ
gpu_index (GpuBackend.amd b) = b.gpu_index
gpu_index (GpuBackend.intel b) = b.gpu_index
gpu_index (GpuBackend.generic b) = b.gpu_index

abbrev pub pci_address : GpuBackend → Bytes
pci_address (GpuBackend.amd b) = b.pci_address
pci_address (GpuBackend.intel b) = b.pci_address
pci_address (GpuBackend.generic b) = b.pci_address

module _ (fl : Floats) where
  open fl use {F32}

  abbrev pub as_f32 : Option ℕ → Option F32
  as_f32 none = none
  as_f32 (some n) = some (fl.f32_of_u64 n)

  abbrev pub at_hwmon : (Bytes → Option F32) → Option Bytes → Option F32
  at_hwmon read none = none
  at_hwmon read (some hwmon) = read hwmon

  unfoldable pub collect_amd : FileSystem → AmdBackend → GpuData F32
  unfolding read_sysfs_u64 parse_pp_dpm_clock
  collect_amd fs b = record {
    gpu_index = b.gpu_index;
    vendor = GpuVendor.amd;
    name = b.name;
    usage_percent = as_f32 (read_sysfs_u64 fs (join_path b.device_path (codes "gpu_busy_percent")));
    vram_used_bytes = read_sysfs_u64 fs (join_path b.device_path (codes "mem_info_vram_used"));
    vram_total_bytes = read_sysfs_u64 fs (join_path b.device_path (codes "mem_info_vram_total"));
    temperature_celsius = at_hwmon (read_hwmon_temp_celsius fl fs) b.hwmon_path;
    power_draw_watts = at_hwmon (read_hwmon_power_watts fl fs) b.hwmon_path;
    core_clock_mhz = parse_pp_dpm_clock fs b.device_path (codes "pp_dpm_sclk");
    memory_clock_mhz = parse_pp_dpm_clock fs b.device_path (codes "pp_dpm_mclk");
  }

  unfoldable pub collect_intel : FileSystem → IntelBackend → GpuData F32
  unfolding read_sysfs_u64
  collect_intel fs b = record {
    gpu_index = b.gpu_index;
    vendor = GpuVendor.intel;
    name = b.name;
    usage_percent = none;
    vram_used_bytes = none;
    vram_total_bytes = none;
    temperature_celsius = at_hwmon (read_hwmon_temp_celsius fl fs) b.hwmon_path;
    power_draw_watts = at_hwmon (read_hwmon_power_watts fl fs) b.hwmon_path;
    core_clock_mhz = as_u32 (
        read_sysfs_u64 fs
          (join_path (join_path b.device_path (codes "gt/gt0")) (codes "rps_cur_freq_mhz")));
    memory_clock_mhz = none;
  }

  unfoldable pub collect_generic : FileSystem → GenericBackend → GpuData F32
  collect_generic fs b = record {
    gpu_index = b.gpu_index;
    vendor = GpuVendor.unknown;
    name = b.name;
    usage_percent = none;
    vram_used_bytes = none;
    vram_total_bytes = none;
    temperature_celsius = at_hwmon (read_hwmon_temp_celsius fl fs) b.hwmon_path;
    power_draw_watts = at_hwmon (read_hwmon_power_watts fl fs) b.hwmon_path;
    core_clock_mhz = none;
    memory_clock_mhz = none;
  }

  -- `GpuBackend::collect`, which none of the three lets fail.
  unfoldable pub backend_collect : FileSystem → GpuBackend → GpuData F32
  unfolding collect_amd collect_intel collect_generic
  backend_collect fs (GpuBackend.amd b) = collect_amd fs b
  backend_collect fs (GpuBackend.intel b) = collect_intel fs b
  backend_collect fs (GpuBackend.generic b) = collect_generic fs b
