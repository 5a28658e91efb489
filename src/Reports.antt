-- ===== src/Reports.antt =====
-- crates/heimwatch-daemon/src/snapshot.rs: the reports of a snapshot, as the text that is printed. It
-- is `none` where the printing panics.
pub mod Format
pub mod Tables
pub mod Gpus
pub mod Cut
pub mod Commands
use heimwatch.Prelude.{
  ℕ, ◌+◌, ◌*◌, Bool, true, false, ◌&&◌, List, [], ◌∷◌, ◌++◌, Option, none, some, Bytes, codes, leb,
  if◌then◌else◌,
}
use heimwatch.Keys.Decimal.{to_decimal}
use heimwatch.Core.Floats.{Floats}
use heimwatch.Core.Metrics.{MetricPayload, MetricRecord, AppPowerStats, PowerData}
use heimwatch.Apps.{HashOrder}
use heimwatch.Reports.Format.{
  FloatFormat, line, printed, then_printed, named_line, joined, format_app_name, left, right,
}
use heimwatch.Reports.Tables.{
  print_network_table, print_cpu_table, print_disk_table, print_memory_table, print_focus_table,
}
use heimwatch.Reports.Gpus.{print_gpu_table, print_gpu_proc_table}

-- `to_lowercase` of a text in ASCII
abbrev pub lowercase : Bytes → Bytes
lowercase [] = []
lowercase (c ∷ s) = (if leb b'A' c && leb c b'Z' then c + 32 else c) ∷ lowercase s

abbrev pub is_empty_list : {R : Type 0} → List R → Bool
is_empty_list [] = true
is_empty_list (r ∷ rs) = false

module _ (fl : Floats) (ff : FloatFormat fl) where
  open fl use {F32}

  -- A contribution as a percentage.
  abbrev pub share : F32 → Bytes
  share c = right 2 (ff.fixed_f32 0 (fl.mul_f32 c (fl.literal_f32 1000 1)))

  unfoldable pub power_row : ℕ → AppPowerStats F32 → Option Bytes
  unfolding format_app_name left right
  power_row i stat = named_line (format_app_name stat.app_name 20) (λ name. joined (
      codes "  "
      ∷ right 2 (to_decimal (i + 1))
      ∷ codes ". "
      ∷ left 20 name
      ∷ codes " "
      ∷ right 5 (ff.fixed_f32 1 stat.power_pct)
      ∷ codes "%  (CPU: "
      ∷ share stat.cpu_contribution
      ∷ codes "%, GPU: "
      ∷ share stat.gpu_contribution
      ∷ codes "%, Disp: "
      ∷ share stat.display_contribution
      ∷ codes "%, Disk: "
      ∷ share stat.disk_contribution
      ∷ codes "%, Net: "
      ∷ share stat.net_contribution
      ∷ codes "%, Mem: "
      ∷ share stat.mem_contribution
      ∷ codes "%)"
      ∷ []))

  -- The rows from the one with this index.
  unfoldable pub power_rows : ℕ → List (AppPowerStats F32) → Option Bytes
  unfolding power_row
  power_rows i [] = some []
  power_rows i (stat ∷ stats) = then_printed (power_row i stat) (power_rows (i + 1) stats)

  unfoldable pub print_power_section : Bytes → List (AppPowerStats F32) → Option Bytes
  unfolding power_rows printed
  print_power_section label stats =
      then_printed (line (codes "Top Apps by Power Percentage (" ++ (label ++ codes "):"))) (
        if is_empty_list stats
        then line (
            codes "  (no data: not in "
            ++ (lowercase label ++ (codes " state during this window)" ++ 10 ∷ [])))
        else printed (power_rows 0 stats ∷ line [] ∷ []))

  abbrev pub battery_line : Option F32 → Bytes
  battery_line (some pct) = codes "  Battery: " ++ (ff.fixed_f32 0 pct ++ codes "%")
  battery_line none = codes "  Battery: N/A"

  abbrev pub rapl_line : Option F32 → Bytes
  rapl_line (some w) = codes "  RAPL Package: " ++ (ff.fixed_f32 1 w ++ codes "W")
  rapl_line none = codes "  RAPL Package: N/A"

  abbrev pub print_system_power_summary : PowerData F32 → Option Bytes
  print_system_power_summary pwr = printed (
      line (codes "System Power (latest):")
      ∷ line (battery_line pwr.battery_percent)
      ∷ line (codes "  Charging: " ++ (if pwr.charging then codes "true" else codes "false"))
      ∷ line (rapl_line pwr.rapl_package_watts)
      ∷ line []
      ∷ [])

  -- The summary of the last record, if it is one of power.
  unfoldable pub latest_summary : List (MetricRecord F32) → Option Bytes
  unfolding printed
  latest_summary [] = some []
  latest_summary (r ∷ []) = elim r.payload [
    | MetricPayload.pwr d ↦ print_system_power_summary d
    | _ ↦ some []
  ]
  latest_summary (r ∷ q ∷ rs) = latest_summary (q ∷ rs)

  unfoldable pub print_power_table :
      List (AppPowerStats F32)
      → List (AppPowerStats F32)
      → List (MetricRecord F32)
      → ℕ
      → Option Bytes
  unfolding print_power_section latest_summary printed
  print_power_table plugged_in on_battery system_power window_secs = printed (
      line
        (10 ∷ (codes "Power Usage (last " ++ (to_decimal window_secs ++ (codes "s)" ++ 10 ∷ []))))
      ∷ print_power_section (codes "Plugged In") plugged_in
      ∷ print_power_section (codes "On Battery") on_battery
      ∷ latest_summary system_power
      ∷ [])

  abbrev pub gpus_of : List (MetricRecord F32) → List (MetricRecord F32)
  gpus_of [] = []
  gpus_of (r ∷ rs) = elim r.payload [ MetricPayload.gpu d ↦ r ∷ gpus_of rs | _ ↦ gpus_of rs ]

  abbrev pub gpu_procs_of : List (MetricRecord F32) → List (MetricRecord F32)
  gpu_procs_of [] = []
  gpu_procs_of (r ∷ rs) = elim r.payload [
    | MetricPayload.gpu_proc d ↦ r ∷ gpu_procs_of rs
    | _ ↦ gpu_procs_of rs
  ]

  abbrev pub unless_empty :
      (List (MetricRecord F32) → Option Bytes) → List (MetricRecord F32) → Option Bytes
  unless_empty print [] = some []
  unless_empty print (r ∷ rs) = print (r ∷ rs)

  -- The kind of table that a record's payload asks for.
  unfoldable pub print_snapshot_table : HashOrder → List (MetricRecord F32) → ℕ → Option Bytes
  unfolding print_network_table print_cpu_table print_disk_table print_memory_table
      print_focus_table print_gpu_table print_gpu_proc_table printed
  print_snapshot_table o [] window_secs = printed (line (10 ∷ codes "  (no data)") ∷ line [] ∷ [])
  print_snapshot_table o (r ∷ rs) window_secs = elim r.payload [
    | MetricPayload.net d ↦ print_network_table fl ff (r ∷ rs) window_secs
    | MetricPayload.cpu d ↦ print_cpu_table fl ff (r ∷ rs) window_secs
    | MetricPayload.dsk d ↦ print_disk_table fl ff (r ∷ rs) window_secs
    | MetricPayload.mem d ↦ print_memory_table fl ff (r ∷ rs) window_secs
    | MetricPayload.foc d ↦ print_focus_table fl ff o (r ∷ rs) window_secs
    | MetricPayload.gpu d ↦ printed (
        unless_empty (λ gpus. print_gpu_table fl ff gpus window_secs) (gpus_of (r ∷ rs))
        ∷ unless_empty (λ procs. print_gpu_proc_table fl ff procs window_secs)
            (gpu_procs_of (r ∷ rs))
        ∷ [])
    | MetricPayload.gpu_proc d ↦ print_gpu_proc_table fl ff (r ∷ rs) window_secs
    | MetricPayload.pwr d ↦ line (codes "  (unsupported metric type)")
  ]
