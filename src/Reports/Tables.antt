-- ===== src/Reports/Tables.antt =====
-- The tables of traffic, of the processor, of disks, of memory and of focus that
-- crates/heimwatch-daemon/src/snapshot.rs prints.
use heimwatch.Prelude.{
  ℕ, ◌+◌, ◌-◌, Bool, List, [], ◌∷◌, ◌++◌, Option, none, some, Bytes, codes, ltb, wrap64,
}
use mathlib.Core.List.{foldl}
use heimwatch.Keys.Decimal.{to_decimal}
use heimwatch.Core.Floats.{Floats}
use heimwatch.Core.Metrics.{MetricPayload, MetricRecord}
use heimwatch.Apps.{HashOrder, tally, sort_by}
use heimwatch.Reports.Format.{
  FloatFormat, line, rule, printed, each, named_line, format_app_name, left, right, fmt_bytes,
  fmt_cpu_time_ns, fmt_duration_ms,
}

-- The lines above the rows: a blank one, the title, a rule, the names of the columns and a rule.
abbrev pub heading : Bytes → ℕ → ℕ → Bytes → List (Option Bytes)
heading title window_secs width columns =
    line (
      10
      ∷ (codes "Heiwatch "
          ++ (title ++ (codes " (" ++ (to_decimal window_secs ++ codes "s window)")))))
    ∷ line (rule width)
    ∷ line (codes "  " ++ columns)
    ∷ line (codes "  " ++ rule (width - 4))
    ∷ []

-- A table with its rows and its last line.
unfoldable pub table : Bytes → ℕ → ℕ → Bytes → Option Bytes → Bytes → Option Bytes
unfolding printed
table title window_secs width columns rows total = printed (
    heading title window_secs width columns
    ++ (rows ∷ line (rule width) ∷ line total ∷ line [] ∷ []))

abbrev pub two_columns : ℕ → Bytes → Bytes → Bytes → Bytes
two_columns width a b c =
    left 28 a ++ (codes " " ++ (right width b ++ (codes " " ++ right width c)))

abbrev pub three_columns : Bytes → Bytes → Bytes → Bytes → Bytes
three_columns a b c d = two_columns 10 a b c ++ (codes " " ++ right 10 d)

abbrev pub four_columns : Bytes → Bytes → Bytes → Bytes → Bytes → Bytes
four_columns a b c d e = three_columns a b c d ++ (codes " " ++ right 10 e)

module _ (fl : Floats) (ff : FloatFormat fl) where
  open fl use {F32}

  abbrev Rec : Type 0
  Rec = MetricRecord F32

  abbrev pub net_row : MetricRecord F32 → Option Bytes
  net_row r = elim r.payload [
    | MetricPayload.net d ↦ named_line (format_app_name r.app_name 28) (λ name.
        codes "  " ++ two_columns 10 name (fmt_bytes fl ff d.tx_bytes) (fmt_bytes fl ff d.rx_bytes))
    | _ ↦ some []
  ]

  abbrev pub add_net_totals : ℕ × ℕ → MetricRecord F32 → ℕ × ℕ
  add_net_totals (tx, rx) r = elim r.payload [
    | MetricPayload.net d ↦ (wrap64 (tx + d.tx_bytes), wrap64 (rx + d.rx_bytes))
    | _ ↦ (tx, rx)
  ]

  abbrev pub net_total : ℕ × ℕ → Bytes
  net_total (tx, rx) =
      codes "  " ++ two_columns 10 (codes "Total") (fmt_bytes fl ff tx) (fmt_bytes fl ff rx)

  unfoldable pub print_network_table : List (MetricRecord F32) → ℕ → Option Bytes
  unfolding table each format_app_name left right fmt_bytes
  print_network_table records window_secs =
      table (codes "Network Snapshot") window_secs 52
        (two_columns 10 (codes "App") (codes "TX") (codes "RX")) (each net_row records)
        (net_total (foldl add_net_totals (0, 0) records))

  abbrev pub cpu_time_of : MetricRecord F32 → ℕ
  cpu_time_of r = elim r.payload [ MetricPayload.cpu d ↦ d.cpu_time_ns | _ ↦ 0 ]

  abbrev pub more_cpu_time : MetricRecord F32 → MetricRecord F32 → Bool
  more_cpu_time a b = ltb (cpu_time_of b) (cpu_time_of a)

  -- Columns for a time and a percentage.
  abbrev pub cpu_columns : Bytes → ℕ → F32 → Bytes
  cpu_columns name ns percent =
      codes "  "
      ++ (left 28 name
          ++ (codes " "
              ++ (right 18 (fmt_cpu_time_ns fl ff ns)
                  ++ (codes " " ++ (right 17 (ff.fixed_f32 1 percent) ++ codes "%")))))

  abbrev pub cpu_line : MetricRecord F32 → Option Bytes
  cpu_line r = elim r.payload [
    | MetricPayload.cpu d ↦
        named_line (format_app_name r.app_name 28)
          (λ name. cpu_columns name d.cpu_time_ns d.cpu_usage_percent)
    | _ ↦ some []
  ]

  abbrev pub add_cpu_totals : ℕ × F32 → MetricRecord F32 → ℕ × F32
  add_cpu_totals (ns, percent) r = elim r.payload [
    | MetricPayload.cpu d ↦ (wrap64 (ns + d.cpu_time_ns), fl.add_f32 percent d.cpu_usage_percent)
    | _ ↦ (ns, percent)
  ]

  abbrev pub cpu_total : ℕ × F32 → Bytes
  cpu_total (ns, percent) = cpu_columns (codes "Total") ns percent

  unfoldable pub print_cpu_table : List (MetricRecord F32) → ℕ → Option Bytes
  unfolding table each format_app_name left right fmt_cpu_time_ns sort_by
  print_cpu_table records window_secs =
      let sorted = sort_by more_cpu_time records in
      table (codes "CPU Snapshot") window_secs 70
        (two_columns 18 (codes "App") (codes "CPU Time") (codes "Usage %")) (each cpu_line sorted)
        (cpu_total (foldl add_cpu_totals (0, fl.literal_f32 0 1) sorted))

  abbrev pub traffic_of : MetricRecord F32 → ℕ
  traffic_of r = elim r.payload [
    | MetricPayload.dsk d ↦ wrap64 (d.read_bytes + d.write_bytes)
    | _ ↦ 0
  ]

  abbrev pub more_disk_traffic : MetricRecord F32 → MetricRecord F32 → Bool
  more_disk_traffic a b = ltb (traffic_of b) (traffic_of a)

  abbrev pub disk_row : MetricRecord F32 → Option Bytes
  disk_row r = elim r.payload [
    | MetricPayload.dsk d ↦ named_line (format_app_name r.app_name 28) (λ name.
        codes "  "
        ++ two_columns 10 name (fmt_bytes fl ff d.read_bytes) (fmt_bytes fl ff d.write_bytes))
    | _ ↦ some []
  ]

  abbrev pub add_disk_totals : ℕ × ℕ → MetricRecord F32 → ℕ × ℕ
  add_disk_totals (reads, writes) r = elim r.payload [
    | MetricPayload.dsk d ↦ (wrap64 (reads + d.read_bytes), wrap64 (writes + d.write_bytes))
    | _ ↦ (reads, writes)
  ]

  unfoldable pub print_disk_table : List (MetricRecord F32) → ℕ → Option Bytes
  unfolding table each format_app_name left right fmt_bytes sort_by
  print_disk_table records window_secs =
      let sorted = sort_by more_disk_traffic records in
      table (codes "Disk I/O Snapshot") window_secs 64
        (two_columns 10 (codes "App") (codes "Read") (codes "Write")) (each disk_row sorted)
        (net_total (foldl add_disk_totals (0, 0) sorted))

  abbrev pub rss_of : MetricRecord F32 → ℕ
  rss_of r = elim r.payload [ MetricPayload.mem d ↦ d.rss_bytes | _ ↦ 0 ]

  abbrev pub more_rss : MetricRecord F32 → MetricRecord F32 → Bool
  more_rss a b = ltb (rss_of b) (rss_of a)

  abbrev pub memory_row : MetricRecord F32 → Option Bytes
  memory_row r = elim r.payload [
    | MetricPayload.mem d ↦ named_line (format_app_name r.app_name 28) (λ name.
        codes "  "
        ++ four_columns name (fmt_bytes fl ff d.rss_bytes) (fmt_bytes fl ff d.vms_bytes)
            (fmt_bytes fl ff d.swap_bytes) (to_decimal d.process_count))
    | _ ↦ some []
  ]

  abbrev pub add_memory_totals : ℕ × ℕ × ℕ → MetricRecord F32 → ℕ × ℕ × ℕ
  add_memory_totals (rss, vms, swap) r = elim r.payload [
    | MetricPayload.mem d ↦
        (wrap64 (rss + d.rss_bytes), wrap64 (vms + d.vms_bytes), wrap64 (swap + d.swap_bytes))
    | _ ↦ (rss, vms, swap)
  ]

  abbrev pub memory_total : ℕ × ℕ × ℕ → Bytes
  memory_total (rss, vms, swap) =
      codes "  "
      ++ three_columns (codes "Total") (fmt_bytes fl ff rss) (fmt_bytes fl ff vms)
          (fmt_bytes fl ff swap)

  unfoldable pub print_memory_table : List (MetricRecord F32) → ℕ → Option Bytes
  unfolding table each format_app_name left right fmt_bytes sort_by
  print_memory_table records window_secs =
      let sorted = sort_by more_rss records in
      table (codes "Memory Usage Snapshot") window_secs 80
        (four_columns (codes "App") (codes "RSS") (codes "VMS") (codes "Swap") (codes "Procs"))
        (each memory_row sorted) (memory_total (foldl add_memory_totals (0, 0, 0) sorted))

  abbrev pub focus_columns : Bytes → Bytes → Bytes
  focus_columns a b = codes "  " ++ (left 28 a ++ (codes " " ++ right 20 b))

  abbrev pub focus_ms_of : MetricRecord F32 → Option ℕ
  focus_ms_of r = elim r.payload [ MetricPayload.foc d ↦ some d.duration_ms | _ ↦ none ]

  abbrev pub app_of_record : MetricRecord F32 → Bytes
  app_of_record r = r.app_name

  abbrev pub add_time : ℕ → ℕ → ℕ
  add_time a n = wrap64 (a + n)

  abbrev pub longer : Bytes × ℕ → Bytes × ℕ → Bool
  longer (app, m) (app', n) = ltb n m

  abbrev pub focus_line : Bytes × ℕ → Option Bytes
  focus_line (app, duration_ms) =
      named_line (format_app_name app 28)
        (λ name. focus_columns name (fmt_duration_ms fl ff duration_ms))

  abbrev pub add_focus_total : ℕ → Bytes × ℕ → ℕ
  add_focus_total total_ms (app, duration_ms) = wrap64 (total_ms + duration_ms)

  unfoldable pub print_focus_table : HashOrder → List (MetricRecord F32) → ℕ → Option Bytes
  unfolding table each format_app_name left right fmt_duration_ms sort_by tally
  print_focus_table o records window_secs =
      let app_totals = tally app_of_record focus_ms_of 0 add_time [] records in
      let sorted = sort_by longer (o.order app_totals) in
      table (codes "Focus Time Snapshot") window_secs 52
        (left 28 (codes "App") ++ (codes " " ++ right 20 (codes "Focus Time")))
        (each focus_line sorted)
        (focus_columns (codes "Total") (fmt_duration_ms fl ff (foldl add_focus_total 0 sorted)))
