-- ===== src/Tests/Reports.antt =====
-- The reports of a snapshot on a few records.
use heimwatch.Prelude.{
  Option, some, length, ℕ, zero, suc, ◌≡◌, refl, List, [], ◌∷◌, ◌++◌, none, Bytes, codes, map,
}
use heimwatch.Keys.Decimal.{to_decimal, digits}
use heimwatch.Core.Metrics.{MetricPayload, MetricRecord}
use heimwatch.Reports.Format.{FloatFormat, fmt_bytes, fmt_duration_ms, format_app_name, repeated}
use heimwatch.Reports.Tables.{
  print_network_table, print_cpu_table, print_disk_table, print_memory_table,
}
use heimwatch.Reports.Cut.{
  is_text, every, safe_net, safe_cpu, safe_disk, safe_memory, print_tables_lem,
}
use heimwatch.Keys.Std.{split}
use heimwatch.Core.Text.{parse_u32}
use heimwatch.Core.Files.{get_process_name}
use heimwatch.Apps.{tally, entry}
use heimwatch.Collector.{collect_disk}
use heimwatch.Collector.Memory.{collect_memory}
use heimwatch.Collector.Gpu.{new_gpu_collector}
use heimwatch.Error.{Result, ok, err}
use heimwatch.Reports.Commands.{SnapshotError, Machine, Json, run_snapshot}
use heimwatch.Tests.World.{whole, world}
use heimwatch.Tests.Tops.{as_filled}
use heimwatch.Tests.Processes.{laptop}

-- Whole numbers with zeros after the point.
abbrev pub shown : ℕ → ℕ → Bytes
shown zero n = to_decimal n
shown (suc places) n = to_decimal n ++ (codes "." ++ repeated (suc places) (codes "0"))

abbrev pub digits_of : FloatFormat whole
digits_of = record { fixed_f32 = shown; fixed_f64 = shown }

sizes :
    map (fmt_bytes whole digits_of) (7 ∷ 2048 ∷ 1048576 ∷ [])
    ≡ codes "  7 B" ∷ codes "   2.0 KB" ∷ codes "   1.0 MB" ∷ []
unfolding fmt_bytes to_decimal digits
sizes = refl

durations :
    map (fmt_duration_ms whole digits_of) (7 ∷ 61000 ∷ 7200000 ∷ [])
    ≡ codes "   7 ms" ∷ codes "   1.0 m" ∷ codes "  2.00 h" ∷ []
unfolding fmt_duration_ms to_decimal digits
durations = refl

-- A name of 27 letters and one of two bytes.
abbrev umlaut : Bytes
umlaut = repeated 27 (codes "a") ++ (0xc3 ∷ 0xbc ∷ [])

inside_a_character : format_app_name umlaut 28 ≡ none
unfolding format_app_name
inside_a_character = refl

abbrev traffic : Bytes → MetricRecord ℕ
traffic app_name = record {
  app_name = app_name;
  timestamp = 100;
  payload = MetricPayload.net (record { tx_bytes = 5; rx_bytes = 9; connections = 1 });
}

abbrev two : List (MetricRecord ℕ)
two = traffic (codes "ssh") ∷ traffic umlaut ∷ []

print_tables_lem_example :
    (is_text (print_network_table whole digits_of two 5) ≡ every (safe_net whole digits_of) two)
    × (is_text (print_cpu_table whole digits_of two 5) ≡ every (safe_cpu whole digits_of) two)
    × (is_text (print_disk_table whole digits_of two 5) ≡ every (safe_disk whole digits_of) two)
    × (is_text (print_memory_table whole digits_of two 5) ≡ every (safe_memory whole digits_of) two)
print_tables_lem_example = print_tables_lem whole digits_of two 5

abbrev machine : Machine
machine = record {
  before = laptop;
  after = laptop;
  read_link = λ path. none;
  clock = some 100;
  start_timestamp = 95;
  end_timestamp = 100;
  num_cores = 1;
  net_map = none;
  cpu_map = none;
  disk_map = some none;
}

abbrev json : Json world digits_of as_filled
json = record {
  of_records = λ rs. to_decimal (length rs);
  of_power = λ w plugged_in on_battery system_power. [];
}

abbrev snapshot : ℕ → Bytes → Result SnapshotError (Option Bytes)
snapshot window metric_type =
    run_snapshot world digits_of as_filled json machine window (codes "json") metric_type none

no_window : snapshot 0 (codes "memory") ≡ err SnapshotError.zero_window
unfolding run_snapshot
no_window = refl

refused_types :
    map (snapshot 5) (codes "power" ∷ codes "focus" ∷ codes "cpu" ∷ codes "disk" ∷ codes "gpu" ∷ [])
    ≡ err SnapshotError.unknown_type
      ∷ err SnapshotError.no_database
      ∷ err SnapshotError.unavailable
      ∷ err SnapshotError.poll_failed
      ∷ err SnapshotError.unavailable
      ∷ []
unfolding run_snapshot collect_disk new_gpu_collector
refused_types = refl

one_process : snapshot 5 (codes "memory") ≡ ok (some (codes "1" ++ 10 ∷ []))
unfolding run_snapshot collect_memory to_decimal tally parse_u32 get_process_name digits split entry
one_process = refl
