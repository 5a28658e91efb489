-- ===== src/Storage/Cleanup.antt =====
-- The cleanup by age of crates/heimwatch-storage/src/db.rs: `cleanup_old_data`,
-- `cleanup_with_config` with its export, `delete_from_tree_before` and `get_storage_stats`. A method
-- returns its result beside the state that it leaves, also where it fails.
use heimwatch.Prelude.{
  ℕ, ◌+◌, Bool, true, false, List, [], ◌∷◌, ◌++◌, Option, none, some, Bytes, length, u64_max,
  if◌then◌else◌, ltb,
}
use heimwatch.Error.{Failure, Result, ok, err}
use heimwatch.Core.Metrics.{MetricType, all_metric_types}
use heimwatch.Retention.{RetentionConfig, retention_days_for, CleanupReport, StorageStats}
use heimwatch.Sled.{Entries}
use heimwatch.Storage.{Env, StorageLayer, Tree, scan, keys, removals, retention_cutoff}
use heimwatch.Storage.Write.{set_last_cleanup_ts}

abbrev pub type_cutoff : RetentionConfig → ℕ → MetricType → ℕ
type_cutoff config now mt = retention_cutoff (retention_days_for config mt) now

-- Whether and where to export.
abbrev pub export_dir : Bool → Option Bytes → Option Bytes
export_dir true dir = dir
export_dir false dir = none

abbrev pub sum_counts : List (MetricType × ℕ) → ℕ
sum_counts [] = 0
sum_counts ((mt, n) ∷ counts) = n + sum_counts counts

module _ (env : Env) where
  -- the keys up to the cutoff, over the types in turn
  unfoldable pub old_keys : Tree env → ℕ → List MetricType → List Bytes
  old_keys tree cutoff [] = []
  old_keys tree cutoff (mt ∷ types) = keys (scan env tree mt 0 cutoff) ++ old_keys tree cutoff types

  abbrev pub delete_keys : List Bytes → Tree env → Tree env
  delete_keys ks tree = env.sled.apply_batch (removals ks) tree

  unfoldable pub cleanup_old_data :
      ℕ → Option ℕ → StorageLayer env → Result Failure ℕ × StorageLayer env
  unfolding old_keys
  cleanup_old_data retention_days none s = (err Failure.clock, s)
  cleanup_old_data retention_days (some now) s =
      let cutoff = retention_cutoff retention_days now in
      let ks = old_keys s.metrics cutoff all_metric_types in
      (ok (length ks), record s { metrics = delete_keys ks s.metrics })

  -- an empty batch is not applied
  unfoldable pub delete_from_tree_before : Tree env → ℕ → ℕ × Tree env
  unfolding old_keys
  delete_from_tree_before tree cutoff =
      let ks = old_keys tree cutoff all_metric_types in
      let count = length ks in (count, if ltb 0 count then delete_keys ks tree else tree)

  -- The lines of a file, up to the first value that does not decode, and whether that was met.
  unfoldable pub copy_lines : Entries → List Bytes × Bool
  copy_lines [] = ([], true)
  copy_lines ((k, v) ∷ l) = elim (env.from_slice v) [
    | none ↦ ([], false)
    | some r ↦ let (lines, done) = copy_lines l in (env.to_vec r ∷ lines, done)
  ]

  unfoldable pub expired_entries : RetentionConfig → ℕ → Tree env → List MetricType → Entries
  expired_entries config now tree [] = []
  expired_entries config now tree (mt ∷ types) =
      scan env tree mt 0 (type_cutoff config now mt) ++ expired_entries config now tree types

  unfoldable pub export_metrics_to_jsonl : RetentionConfig → ℕ → Tree env → List Bytes × Bool
  unfolding copy_lines expired_entries
  export_metrics_to_jsonl config now tree =
      copy_lines (expired_entries config now tree all_metric_types)

  -- the deletion of one type, and its part of the count
  unfoldable pub delete_type : ℕ → Tree env → MetricType → ℕ × Tree env
  delete_type cutoff tree mt =
      let ks = keys (scan env tree mt 0 cutoff) in
      let count = length ks in (count, if ltb 0 count then delete_keys ks tree else tree)

  unfoldable pub delete_types : RetentionConfig → ℕ → ℕ → Tree env → List MetricType → ℕ × Tree env
  unfolding delete_type
  delete_types config now total tree [] = (total, tree)
  delete_types config now total tree (mt ∷ types) =
      let (count, rest) = delete_type (type_cutoff config now mt) tree mt in
      delete_types config now (total + count) rest types

  unfoldable pub delete_and_report :
      RetentionConfig
      → ℕ
      → ℕ
      → Option Bytes
      → StorageLayer env
      → Result Failure CleanupReport × StorageLayer env
  unfolding delete_types
  delete_and_report config now exported path s =
      let (deleted, rest) = delete_types config now 0 s.metrics all_metric_types in
      (
        ok (record { deleted_count = deleted; exported_count = exported; export_path = path }),
        set_last_cleanup_ts env now (record s { metrics = rest }),
      )

  -- after the export, which stops the cleanup if a value does not decode
  unfoldable pub exported_then :
      RetentionConfig
      → ℕ
      → Bytes
      → StorageLayer env
      → List Bytes × Bool
      → Result Failure CleanupReport × StorageLayer env
  unfolding delete_and_report
  exported_then config now dir s (lines, false) =
      (err Failure.json, record s { exports = s.exports ++ lines ∷ [] })
  exported_then config now dir s (lines, true) =
      delete_and_report config now (length lines) (some dir)
        (record s { exports = s.exports ++ lines ∷ [] })

  -- `writable` says whether the directory and the file can be created.
  unfoldable pub export_if_asked :
      RetentionConfig
      → ℕ
      → Bool
      → Option Bytes
      → StorageLayer env
      → Result Failure CleanupReport × StorageLayer env
  unfolding export_metrics_to_jsonl exported_then
  export_if_asked config now writable none s = delete_and_report config now 0 none s
  export_if_asked config now false (some dir) s = (err Failure.io, s)
  export_if_asked config now true (some dir) s =
      exported_then config now dir s (export_metrics_to_jsonl config now s.metrics)

  unfoldable pub cleanup_with_config :
      RetentionConfig
      → Option ℕ
      → Bool
      → StorageLayer env
      → Result Failure CleanupReport × StorageLayer env
  unfolding export_if_asked
  cleanup_with_config config none writable s = (err Failure.clock, s)
  cleanup_with_config config (some now) writable s =
      export_if_asked config now writable (export_dir config.export_before_delete config.export_dir)
        s

  unfoldable pub count_types : Tree env → List MetricType → List (MetricType × ℕ)
  count_types tree [] = []
  count_types tree (mt ∷ types) = (mt, length (scan env tree mt 0 u64_max)) ∷ count_types tree types

  -- `db_size_bytes` is what sled's `size_on_disk` gives.
  unfoldable pub get_storage_stats : ℕ → StorageLayer env → StorageStats
  unfolding count_types
  get_storage_stats db_size_bytes s =
      let counts = count_types s.metrics all_metric_types in
      record {
        db_size_bytes = db_size_bytes;
        record_counts = counts;
        total_records = sum_counts counts;
      }
