-- ===== src/Tests/Gpu.antt =====
-- The readings of the GPUs on the texts of the unit tests, and on a machine with two cards.
use mathlib.Core.List.{Perm}
use mathlib.Core.List
use heimwatch.Prelude.{
  ℕ, ◌≡◌, ◌⊎◌, refl, true, false, List, [], ◌∷◌, map, Option, none, some, Bytes, codes, eq_bytes,
  if◌then◌else◌, ◌||◌,
}
use heimwatch.Error.{Result, ok, err}
use heimwatch.Core.Files.{FileSystem}
use heimwatch.Core.Text.{
  lines, contains_char, split_whitespace, parse_u32, parse_nat, trim, trim_end_matches,
  strip_suffix, strip_prefix, from_hex,
}
use heimwatch.Keys.Std.{split}
use heimwatch.Apps.{sort_by}
use heimwatch.Collector.{from_utf8_lossy}
use heimwatch.Apps.Tables.{IsTable}
use heimwatch.Collector.Gpu.Backends.{GpuBackend, gpu_index, pci_address, parse_pp_dpm_clock}
use heimwatch.Collector.Gpu.Detect.{enumerate_gpus, create_backends, cards_of}
use heimwatch.Collector.Gpu.Fdinfo.{
  parse_drm_fdinfo, parse_memory_size, has_name, proc_path, listed, with_process, app_name_of,
  scan_entry,
}
use heimwatch.Collector.Gpu.Order.{AscendingBy, enumerate_gpus_lem}
use heimwatch.Collector.Gpu.Totals.{summed_fds, fds_of, scan_entry-IsTable}
use heimwatch.Tests.Tops.{as_filled}

abbrev content_of : Bytes → Option Bytes
content_of path =
    if eq_bytes path (codes "/sys/class/drm/card0/device/vendor")
    then some (codes "0x8086\n")
    else if eq_bytes path (codes "/sys/class/drm/card1/device/vendor")
    then some (codes "0x1002\n")
    else if eq_bytes path (codes "/sys/class/drm/card1/device/uevent")
    then some (codes "DRIVER=amdgpu\nPCI_SLOT_NAME=0000:03:00.0\n")
    else if eq_bytes path (codes "/sys/class/drm/card1/device/pp_dpm_sclk")
    then some (codes "  0: 300Mhz  \n  1: 500Mhz  *  \n")
    else if eq_bytes path (codes "/proc/7/fdinfo/3") || eq_bytes path (codes "/proc/7/fdinfo/4")
    then some (
        codes
          "pos:\t0\ndrm-pdev:\t0000:03:00.0\ndrm-engine-gfx:\t5000000000 ns\ndrm-memory-vram:\t512 MiB\n")
    else none

abbrev desktop : FileSystem
desktop = record {
  read_to_string = content_of;
  read_dir = λ path.
      if eq_bytes path (codes "/sys/class/drm")
      then some (codes "card1" ∷ codes "card1-DP-1" ∷ codes "renderD128" ∷ codes "card0" ∷ [])
      else if eq_bytes path (codes "/proc/7/fdinfo")
      then some (codes "3" ∷ codes "4" ∷ codes "5" ∷ [])
      else none;
  exists = λ path.
      eq_bytes path (codes "/sys/class/drm")
      || eq_bytes path (codes "/sys/class/drm/card0/device")
      || eq_bytes path (codes "/sys/class/drm/card1/device");
  is_dir = λ path. false;
}

abbrev links : Bytes → Option Bytes
links path =
    if eq_bytes path (codes "/sys/class/drm/card1/device/driver/module")
    then some (codes "../../../module/amdgpu")
    else none

clock :
    parse_pp_dpm_clock desktop (codes "/sys/class/drm/card1/device") (codes "pp_dpm_sclk")
    ≡ some 500
unfolding parse_pp_dpm_clock lines split contains_char split_whitespace parse_u32 trim_end_matches
clock = refl

sizes :
    map parse_memory_size (codes "512 KiB" ∷ codes " 1 GiB" ∷ codes "1048576" ∷ codes "2 TiB" ∷ [])
    ≡ some 524288 ∷ some 1073741824 ∷ some 1048576 ∷ none ∷ []
unfolding parse_memory_size strip_suffix trim parse_nat
sizes = refl

intel_file :
    parse_drm_fdinfo (
      codes
        "pos:    0\ndrm-pdev:\t0000:00:02.0\ndrm-cycles-gfx:\t1000000\ndrm-total-cycles-gfx:\t2000000\n")
    ≡ some (record {
      pdev = codes "0000:00:02.0";
      engine_gfx_ns = none;
      cycles_gfx = some 1000000;
      total_cycles_gfx = some 2000000;
      memory_vram_bytes = none;
    })
unfolding parse_drm_fdinfo lines split strip_prefix trim parse_nat
intel_file = refl

no_pdev : parse_drm_fdinfo (codes "pos:    0\nflags:  02000002\n") ≡ none
unfolding parse_drm_fdinfo lines split strip_prefix
no_pdev = refl

abbrev indices : Result (Unit {0}) (List GpuBackend) → List (ℕ × Bytes)
indices (err e) = []
indices (ok bs) = map (λ b. (gpu_index b, pci_address b)) bs

two_cards : indices (enumerate_gpus links desktop) ≡ (0, []) ∷ (1, codes "0000:03:00.0") ∷ []
unfolding enumerate_gpus List.filter_map sort_by strip_prefix from_utf8_lossy contains_char
    parse_u32 trim from_hex split lines
two_cards = refl

enumerate_gpus_lem_example :
    ((names : List Bytes) × (desktop.exists (codes "/sys/class/drm") ≡ true)
      × (desktop.read_dir (codes "/sys/class/drm") ≡ some names)
      × (backends : List GpuBackend) × (enumerate_gpus links desktop ≡ ok backends)
      × Perm backends (create_backends links desktop (cards_of (codes "/sys/class/drm") names))
      × AscendingBy gpu_index backends)
    ⊎ (((desktop.exists (codes "/sys/class/drm") ≡ false)
          ⊎ (desktop.read_dir (codes "/sys/class/drm") ≡ none))
        × (enumerate_gpus links desktop ≡ err tt))
enumerate_gpus_lem_example = enumerate_gpus_lem links desktop

abbrev known : List Bytes
known = codes "0000:03:00.0" ∷ []

scan_entry-IsTable_example :
    IsTable
      (with_process 7 (app_name_of desktop 7))
      (λ pdev.
        if has_name pdev known
        then summed_fds pdev (
            fds_of desktop
              (proc_path 7 (codes "fdinfo"))
              pdev
              (listed (desktop.read_dir (proc_path 7 (codes "fdinfo")))))
        else none)
      (scan_entry as_filled desktop known (codes "7"))
unfolding from_utf8_lossy parse_u32
scan_entry-IsTable_example = scan_entry-IsTable as_filled desktop known (codes "7") 7 refl refl
