-- ===== src/Reports/Gpus.antt =====
-- The two tables of the GPUs that crates/heimwatch-daemon/src/snapshot.rs prints.
use heimwatch.Prelude.{ℕ, Bool, List, [], ◌∷◌, ◌++◌, Option, none, some, Bytes, codes}
use heimwatch.Keys.Decimal.{to_decimal}
use heimwatch.Core.Floats.{Floats}
use heimwatch.Core.Metrics.{MetricPayload, MetricRecord, GpuVendor}
use heimwatch.Apps.{sort_by}
use heimwatch.Reports.Format.{
  FloatFormat, line, rule, printed, each, named_line, format_app_name, left, right, fmt_bytes,
  format_optional_percentage,
}
use heimwatch.Reports.Tables.{heading}

abbrev pub vendor_str : GpuVendor → Bytes
vendor_str GpuVendor.nvidia = codes "NVIDIA"
vendor_str GpuVendor.amd = codes "AMD"
vendor_str GpuVendor.intel = codes "Intel"
vendor_str GpuVendor.unknown = codes "Unknown"

abbrev pub clock_str : Option ℕ → Bytes
clock_str none = codes "  N/A"
clock_str (some c) = right 6 (to_decimal c) ++ codes " MHz"

-- The columns of a GPU; the third is aligned to the right in the rows alone.
abbrev pub gpu_columns : (Bytes → Bytes) → Bytes → Bytes → Bytes → Bytes → Bytes → Bytes → Bytes
gpu_columns third a b c d e f =
    codes "  "
    ++ (left 28 a
        ++ (codes " "
            ++ (left 8 b
                ++ (codes " "
                    ++ (third c
                        ++ (codes " "
                            ++ (left 10 d
                                ++ (codes " " ++ (left 10 e ++ (codes " " ++ left 14 f))))))))))

abbrev pub proc_columns : (Bytes → Bytes) → Bytes → Bytes → Bytes → Bytes → Bytes
proc_columns third a b c d =
    left 28 a ++ (codes " " ++ (left 6 b ++ (codes " " ++ (third c ++ (codes " " ++ right 12 d)))))

module _ (fl : Floats) (ff : FloatFormat fl) where
  open fl use {F32}

  abbrev pub vram_str : Option ℕ → Option ℕ → Bytes
  vram_str (some used) (some total) = fmt_bytes fl ff used ++ (codes "/" ++ fmt_bytes fl ff total)
  vram_str (some used) none = codes "N/A"
  vram_str none total = codes "N/A"

  abbrev pub temp_str : Option F32 → Bytes
  temp_str none = codes "  N/A"
  temp_str (some t) = right 7 (ff.fixed_f32 1 t) ++ (0xc2 ∷ 0xb0 ∷ b'C' ∷ [])

  abbrev pub gpu_row : MetricRecord F32 → Option Bytes
  gpu_row r = elim r.payload [
    | MetricPayload.gpu d ↦ named_line (format_app_name d.name 28) (λ name.
        gpu_columns (right 12) name (vendor_str d.vendor)
          (format_optional_percentage fl ff d.usage_percent)
          (vram_str d.vram_used_bytes d.vram_total_bytes) (temp_str d.temperature_celsius)
          (clock_str d.core_clock_mhz))
    | _ ↦ some []
  ]

  unfoldable pub print_gpu_table : List (MetricRecord F32) → ℕ → Option Bytes
  unfolding printed each format_app_name left right fmt_bytes format_optional_percentage
  print_gpu_table records window_secs = printed (
      line (10 ∷ (codes "Heiwatch GPU Snapshot (" ++ (to_decimal window_secs ++ codes "s window)")))
      ∷ line (rule 100)
      ∷ line (
          gpu_columns (left 12) (codes "GPU") (codes "Vendor") (codes "Usage") (codes "VRAM")
            (codes "Temp") (codes "Clock"))
      ∷ line (codes "  " ++ rule 96)
      ∷ each gpu_row records
      ∷ line (rule 100)
      ∷ line []
      ∷ [])

  abbrev pub zero_unless : Option F32 → F32
  zero_unless none = fl.literal_f32 0 1
  zero_unless (some u) = u

  abbrev pub proc_usage : MetricRecord F32 → F32
  proc_usage r = elim r.payload [
    | MetricPayload.gpu_proc d ↦ zero_unless d.usage_percent
    | _ ↦ fl.literal_f32 0 1
  ]

  -- `partial_cmp`; NaN is equal to all.
  abbrev pub more_proc_usage : MetricRecord F32 → MetricRecord F32 → Bool
  more_proc_usage a b = fl.lt_f32 (proc_usage b) (proc_usage a)

  abbrev pub usage_str : Option F32 → Bytes
  usage_str none = codes "       N/A"
  usage_str (some u) = right 10 (ff.fixed_f32 1 u) ++ codes "%"

  abbrev pub proc_vram_str : Option ℕ → Bytes
  proc_vram_str none = codes "N/A"
  proc_vram_str (some b) = fmt_bytes fl ff b

  abbrev pub proc_row : MetricRecord F32 → Option Bytes
  proc_row r = elim r.payload [
    | MetricPayload.gpu_proc d ↦ named_line (format_app_name r.app_name 28) (λ name.
        codes "  "
        ++ proc_columns (left 12) name (to_decimal d.gpu_index) (usage_str d.usage_percent)
            (proc_vram_str d.vram_used_bytes))
    | _ ↦ some []
  ]

  unfoldable pub print_gpu_proc_table : List (MetricRecord F32) → ℕ → Option Bytes
  unfolding printed each format_app_name left right fmt_bytes sort_by
  print_gpu_proc_table records window_secs =
      let sorted = sort_by more_proc_usage records in
      printed (
        heading (codes "GPU Per-Process Snapshot") window_secs 68
          (proc_columns (right 12) (codes "App") (codes "GPU") (codes "Usage") (codes "VRAM"))
        ++ (each proc_row sorted ∷ line (rule 68) ∷ line [] ∷ []))
