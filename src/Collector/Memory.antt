-- ===== src/Collector/Memory.antt =====
-- crates/heimwatch-collector/src/memory/linux.rs: the memory of the processes in /proc, by application.
use mathlib.Core.List.{foldl}
use heimwatch.Prelude.{
  ℕ, ◌+◌, ◌*◌, min, List, [], ◌∷◌, map, Option, none, some, Bytes, codes, eq_bytes, if◌then◌else◌,
  wrap64, u32_max, saturating_add,
}
use heimwatch.Error.{Result, ok, err}
use heimwatch.Core.Metrics.{MetricPayload, MetricRecord}
use heimwatch.Core.Text.{lines, split_whitespace, parse_nat, parse_u32}
use heimwatch.Core.Files.{FileSystem, join_path, get_process_name}
use heimwatch.Apps.{HashOrder, tally}

pub record MemStats : Type 0 where
  pub rss : ℕ
  pub vms : ℕ
  pub swap : ℕ
  pub count : ℕ

abbrev pub default_stats : MemStats
default_stats = record { rss = 0; vms = 0; swap = 0; count = 0 }

pub record ProcStatus : Type 0 where
  pub vm_rss : Option ℕ
  pub vm_size : Option ℕ
  pub vm_swap : Option ℕ

abbrev pub default_status : ProcStatus
default_status = record { vm_rss = none; vm_size = none; vm_swap = none }

-- A field of the status from the name of a line and its number. A number that does not parse leaves
-- the field.
unfoldable pub set_field : Bytes → Option ℕ → ProcStatus → ProcStatus
set_field key none result = result
set_field key (some val) result =
    if eq_bytes key (codes "VmRSS:")
    then record result { vm_rss = some val }
    else if eq_bytes key (codes "VmSize:")
    then record result { vm_size = some val }
    else if eq_bytes key (codes "VmSwap:")
    then record result { vm_swap = some val }
    else result

unfoldable pub read_line : ProcStatus → List Bytes → ProcStatus
unfolding set_field
read_line result [] = result
read_line result (key ∷ []) = result
read_line result (key ∷ number ∷ rest) = set_field key (parse_nat number) result

unfoldable pub status_of : Bytes → ProcStatus
unfolding read_line
status_of content =
    foldl (λ result line. read_line result (split_whitespace line)) default_status (lines content)

unfoldable pub read_proc_status : FileSystem → Bytes → Option ProcStatus
unfolding status_of
read_proc_status fs path = elim (fs.read_to_string (join_path path (codes "status"))) [
  | none ↦ none
  | some content ↦ some (status_of content)
]

-- `unwrap_or(0) * 1024` of a release build
abbrev pub kilobytes : Option ℕ → ℕ
kilobytes none = 0
kilobytes (some n) = wrap64 (n * 1024)

abbrev pub usage : ProcStatus → MemStats
usage status = record {
  rss = kilobytes status.vm_rss;
  vms = kilobytes status.vm_size;
  swap = kilobytes status.vm_swap;
  count = 1;
}

-- An entry of /proc: the name of the process and its memory, if it is a process and both can be read.
unfoldable pub scan_process : FileSystem → Bytes → Option (Bytes × MemStats)
unfolding read_proc_status
scan_process fs filename = elim (parse_u32 filename) [
  | none ↦ none
  | some pid ↦ elim (read_proc_status fs (join_path (codes "/proc") filename)) [
    | none ↦ none
    | some status ↦ elim (get_process_name fs pid) [
      | none ↦ none
      | some app_name ↦ some (app_name, usage status)
    ]
  ]
]

abbrev pub name_of : Option (Bytes × MemStats) → Bytes
name_of none = []
name_of (some (app_name, u)) = app_name

abbrev pub usage_of : Option (Bytes × MemStats) → Option MemStats
usage_of none = none
usage_of (some (app_name, u)) = some u

abbrev pub add_usage : MemStats → MemStats → MemStats
add_usage entry u = record {
  rss = saturating_add entry.rss u.rss;
  vms = saturating_add entry.vms u.vms;
  swap = saturating_add entry.swap u.swap;
  count = min (entry.count + u.count) u32_max;
}

abbrev pub entries_of : Option (List Bytes) → List Bytes
entries_of none = []
entries_of (some names) = names

module _ (F32 : Type 0) where
  abbrev pub memory_record : ℕ → Bytes × MemStats → MetricRecord F32
  memory_record timestamp (app_name, stats) = record {
    app_name = app_name;
    timestamp = timestamp;
    payload = MetricPayload.mem (record {
      rss_bytes = stats.rss;
      vms_bytes = stats.vms;
      swap_bytes = stats.swap;
      process_count = stats.count;
    });
  }

  -- The error is that of the clock.
  unfoldable pub collect_memory :
      HashOrder → FileSystem → Option ℕ → Result (Unit {0}) (List (MetricRecord F32))
  unfolding scan_process
  collect_memory o fs none = err tt
  collect_memory o fs (some timestamp) =
      let scanned = map (scan_process fs) (entries_of (fs.read_dir (codes "/proc"))) in
      let stats_by_app = tally name_of usage_of default_stats add_usage [] scanned in
      ok (map (memory_record timestamp) (o.order stats_by_app))
