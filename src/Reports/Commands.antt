-- ===== src/Reports/Commands.antt =====
-- The snapshots of crates/heimwatch-daemon/src/snapshot.rs: which collector or query each takes, and
-- what it prints.
use heimwatch.Prelude.{
  ℕ, ◌*◌, ◌-◌, true, false, List, [], Option, none, some, Bytes, codes, eq_bytes, ◌==◌,
  if◌then◌else◌, wrap64,
}
use heimwatch.Error.{Failure, Result, ok, err, ◌>>=◌}
use heimwatch.Core.Metrics.{MetricType, AppPowerStats}
use heimwatch.Core.Files.{FileSystem}
use heimwatch.Apps.{HashOrder}
use heimwatch.Storage.{Env, Rec, StorageLayer, read_clock}
use heimwatch.Storage.Query.{get_metrics_by_type, get_system_power_history}
use heimwatch.Storage.Top.{get_top_apps_by_power}
use heimwatch.Collector.{
  Entry, LocalPidNetStats, LocalPidCpuStats, LocalPidDiskStats, collect_network, collect_cpu,
  collect_disk,
}
use heimwatch.Collector.Memory.{collect_memory}
use heimwatch.Collector.Gpu.{GpuCollector, new_gpu_collector, collect_gpus}
use heimwatch.Reports.Format.{FloatFormat, line}
use heimwatch.Reports.{print_snapshot_table, print_power_table}

pub data SnapshotError : Type 0 where
  zero_window unknown_type no_database unavailable poll_failed : SnapshotError
  query_failed : Failure → SnapshotError

-- What a snapshot meets of the machine: the files when it starts and when the window is over, the
-- clock then, and the entries of the maps, or `none` where the probes cannot be attached.
pub record Machine : Type 0 where
  pub before : FileSystem
  pub after : FileSystem
  pub read_link : Bytes → Option Bytes
  pub clock : Option ℕ
  pub start_timestamp : ℕ
  pub end_timestamp : ℕ
  pub num_cores : ℕ
  pub net_map : Option (Option (List (Entry LocalPidNetStats)))
  pub cpu_map : Option (Option (List (Entry LocalPidCpuStats)))
  pub disk_map : Option (Option (List (Entry LocalPidDiskStats)))

-- `?` on an error that becomes another.
abbrev pub failing : {E A : Type 0} → SnapshotError → Result E A → Result SnapshotError A
failing e (err f) = err e
failing e (ok a) = ok a

abbrev pub querying : {A : Type 0} → Result Failure A → Result SnapshotError A
querying (err f) = err (SnapshotError.query_failed f)
querying (ok a) = ok a

abbrev pub present : {A : Type 0} → SnapshotError → Option A → Result SnapshotError A
present e none = err e
present e (some a) = ok a

-- `Duration::from_secs(secs).as_nanos()`
abbrev pub nanos : ℕ → ℕ
nanos secs = secs * 1000000000

module _ (env : Env) (ff : FloatFormat env.floats) (o : HashOrder) where
  -- `serde_json::to_string_pretty`, of records and of the three parts of the power report.
  pub record Json : Type 0 where
    pub of_records : List (Rec env) → Bytes
    pub of_power :
        ℕ
        → List (AppPowerStats env.floats.F32)
        → List (AppPowerStats env.floats.F32)
        → List (Rec env)
        → Bytes

  unfoldable pub format_output : Json → Bytes → List (Rec env) → ℕ → Option Bytes
  format_output json format records window_secs =
      if eq_bytes format (codes "json")
      then line (json.of_records records)
      else print_snapshot_table env.floats ff o records window_secs

  -- The records of one poll of a fresh collector.
  unfoldable pub observe_network : Machine → Result SnapshotError (List (Rec env))
  observe_network m = do
    entries ← present SnapshotError.unavailable m.net_map
    failing SnapshotError.poll_failed (collect_network env.floats m.clock entries []).0

  unfoldable pub observe_cpu : Machine → ℕ → Result SnapshotError (List (Rec env))
  observe_cpu m window_secs = do
    entries ← present SnapshotError.unavailable m.cpu_map
    failing SnapshotError.poll_failed
        (collect_cpu env.floats m.num_cores (wrap64 (nanos window_secs)) m.clock entries []).0

  unfoldable pub observe_disk : Machine → Result SnapshotError (List (Rec env))
  observe_disk m = do
    entries ← present SnapshotError.unavailable m.disk_map
    failing SnapshotError.poll_failed (collect_disk env.floats m.clock entries []).0

  unfoldable pub observe_memory : Machine → Result SnapshotError (List (Rec env))
  observe_memory m =
      failing SnapshotError.poll_failed (collect_memory env.floats.F32 o m.after m.clock)

  -- Two polls: the first, with an interval of a second, is the baseline.
  unfoldable pub observe_gpu : Machine → ℕ → Result SnapshotError (List (Rec env))
  observe_gpu m window_secs = do
    gpu_collector ← failing SnapshotError.unavailable (new_gpu_collector m.read_link m.before)
    let baseline : List (Rec env) × GpuCollector =
        collect_gpus env.floats o m.before m.start_timestamp (nanos 1) gpu_collector
    let polled : List (Rec env) × GpuCollector =
        collect_gpus env.floats o m.after m.end_timestamp (nanos window_secs) baseline.1
    ok polled.0

  -- The focus events of the window, of the database that is opened, if one is given.
  unfoldable pub query_focus :
      Option ℕ → Option (StorageLayer env) → ℕ → Result SnapshotError (List (Rec env))
  query_focus clock db window_secs = do
    storage ← present SnapshotError.no_database db
    now ← querying (read_clock clock)
    querying (get_metrics_by_type env clock storage MetricType.foc (now - window_secs) now)

  -- The records of a type of snapshot.
  unfoldable pub snapshot_records :
      Machine → ℕ → Bytes → Option (StorageLayer env) → Result SnapshotError (List (Rec env))
  unfolding observe_network observe_cpu observe_disk observe_memory observe_gpu query_focus
  snapshot_records m window_secs metric_type db =
      if eq_bytes metric_type (codes "cpu")
      then observe_cpu m window_secs
      else if eq_bytes metric_type (codes "disk")
      then observe_disk m
      else if eq_bytes metric_type (codes "focus")
      then query_focus m.clock db window_secs
      else if eq_bytes metric_type (codes "gpu")
      then observe_gpu m window_secs
      else if eq_bytes metric_type (codes "memory")
      then observe_memory m
      else if eq_bytes metric_type (codes "network")
      then observe_network m
      else err SnapshotError.unknown_type

  -- What is printed, or the error. The text is `none` where the printing panics.
  unfoldable pub run_snapshot :
      Json
      → Machine
      → ℕ
      → Bytes
      → Bytes
      → Option (StorageLayer env)
      → Result SnapshotError (Option Bytes)
  unfolding snapshot_records format_output
  run_snapshot json m window_secs format metric_type db =
      if window_secs == 0 then err SnapshotError.zero_window else (do
        records ← snapshot_records m window_secs metric_type db
        ok (format_output json format records window_secs))

  unfoldable pub run_power_snapshot :
      Json → Option ℕ → ℕ → Bytes → StorageLayer env → ℕ → Result SnapshotError (Option Bytes)
  unfolding get_top_apps_by_power get_system_power_history
  run_power_snapshot json clock window_secs format storage limit = do
    now ← querying (read_clock clock)
    let start = now - window_secs
    plugged_in ← querying (get_top_apps_by_power env o clock storage start now (some false) limit)
    on_battery ← querying (get_top_apps_by_power env o clock storage start now (some true) limit)
    system_power ← querying (get_system_power_history env clock storage start now)
    ok (
        if eq_bytes format (codes "json")
        then line (json.of_power window_secs plugged_in on_battery system_power)
        else print_power_table env.floats ff plugged_in on_battery system_power window_secs)
