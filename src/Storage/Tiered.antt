-- ===== src/Storage/Tiered.antt =====
-- The tiered cleanup of crates/heimwatch-storage/src/db.rs: `aggregate_raw_to_daily`,
-- `aggregate_daily_to_monthly`, `aggregate_monthly_to_yearly` and `cleanup_tiered`.
use heimwatch.Prelude.{
  ℕ, ◌+◌, ◌-◌, ◌*◌, Bool, true, false, List, [], ◌∷◌, ◌++◌, Option, none, some, Bytes, length, ltb,
  if◌then◌else◌, wrap64, min, u32_max,
}
use heimwatch.Error.{Failure, Result, ok, err}
use heimwatch.Core.Metrics.{MetricType, all_metric_types}
use heimwatch.Retention.{TieredRetentionConfig, TieredCleanupReport}
use heimwatch.Aggregation.Bucket.{day_bucket, month_bucket, year_bucket, subtract_months}
use heimwatch.Sled.{Entries, Batch}
use heimwatch.Storage.{Env, StorageLayer, Tree, scan, decode_all}
use heimwatch.Storage.Groups.{group_records, aggregate_batch}
use heimwatch.Storage.Write.{set_last_cleanup_ts}
use heimwatch.Storage.Cleanup.{delete_from_tree_before, copy_lines, export_dir}

-- `now.saturating_sub(config.raw_hours * 3600)`
abbrev pub raw_cutoff : TieredRetentionConfig → ℕ → ℕ
raw_cutoff config now = now - wrap64 (config.raw_hours * 3600)

-- `config.yearly_keep_years.saturating_mul(12)`
abbrev pub keep_months : TieredRetentionConfig → ℕ
keep_months config = min (config.yearly_keep_years * 12) u32_max

module _ (env : Env) where
  -- The write of one type's aggregates: `total` counts those of the types before too.
  unfoldable pub write_aggregates : ℕ → Batch × ℕ → Tree env → ℕ × Tree env
  write_aggregates total (batch, written) dest =
      let total_written = total + written in
      (total_written, if ltb 0 total_written then env.sled.apply_batch batch dest else dest)

  -- The loop over the types, which the three aggregations share; a value that does not decode ends
  -- it, and what was written before stays written.
  unfoldable pub aggregate_types :
      (ℕ → ℕ) → ℕ → Tree env → ℕ → List MetricType → Tree env → Result Failure ℕ × Tree env
  unfolding write_aggregates
  aggregate_types bucket cutoff source total [] dest = (ok total, dest)
  aggregate_types bucket cutoff source total (mt ∷ types) dest =
      elim (decode_all env (scan env source mt 0 cutoff)) [
        | err e ↦ (err e, dest)
        | ok records ↦
            let (written, dest') =
              write_aggregates total (aggregate_batch env mt (group_records env bucket records))
                dest in
            aggregate_types bucket cutoff source written types dest'
      ]

  unfoldable pub aggregate_raw_to_daily :
      ℕ → TieredRetentionConfig → StorageLayer env → Result Failure ℕ × StorageLayer env
  unfolding aggregate_types
  aggregate_raw_to_daily now config s =
      let (result, dest) =
        aggregate_types (day_bucket env.chrono) (raw_cutoff config now) s.metrics 0 all_metric_types
          s.metrics_1d in
      (result, record s { metrics_1d = dest })

  unfoldable pub aggregate_daily_to_monthly :
      ℕ → StorageLayer env → Result Failure ℕ × StorageLayer env
  unfolding aggregate_types
  aggregate_daily_to_monthly now s =
      let (result, dest) =
        aggregate_types (month_bucket env.chrono) (month_bucket env.chrono now) s.metrics_1d 0
          all_metric_types s.metrics_1m in
      (result, record s { metrics_1m = dest })

  unfoldable pub aggregate_monthly_to_yearly :
      ℕ → TieredRetentionConfig → StorageLayer env → Result Failure ℕ × StorageLayer env
  unfolding aggregate_types
  aggregate_monthly_to_yearly now config s =
      let (result, dest) =
        aggregate_types (year_bucket env.chrono)
          (subtract_months env.chrono now config.monthly_keep_months) s.metrics_1m 0
          all_metric_types s.metrics_1y in
      (result, record s { metrics_1y = dest })

  -- A method that may fail: what it wrote before the failure stays written.
  abbrev pub Exec : Type 0 → Type 0
  Exec A = StorageLayer env → Result Failure A × StorageLayer env

  abbrev pub go_on :
      {A B : Type 0}
      → (A → Exec B)
      → Result Failure A × StorageLayer env
      → Result Failure B × StorageLayer env
  go_on f (err e, s) = (err e, s)
  go_on f (ok a, s) = f a s

  infixl 5 ◌>>=◌
  abbrev pub ◌>>=◌ : {A B : Type 0} → Exec A → (A → Exec B) → Exec B
  ◌>>=◌ m f s = go_on f (m s)

  unfoldable pub delete_raw : ℕ → Exec ℕ
  delete_raw cutoff s =
      let (count, rest) = delete_from_tree_before env s.metrics cutoff in
      (ok count, record s { metrics = rest })

  unfoldable pub delete_daily : ℕ → Exec ℕ
  delete_daily cutoff s =
      let (count, rest) = delete_from_tree_before env s.metrics_1d cutoff in
      (ok count, record s { metrics_1d = rest })

  unfoldable pub delete_monthly : ℕ → Exec ℕ
  delete_monthly cutoff s =
      let (count, rest) = delete_from_tree_before env s.metrics_1m cutoff in
      (ok count, record s { metrics_1m = rest })

  unfoldable pub delete_yearly : ℕ → Exec ℕ
  delete_yearly cutoff s =
      let (count, rest) = delete_from_tree_before env s.metrics_1y cutoff in
      (ok count, record s { metrics_1y = rest })

  unfoldable pub raw_entries : Tree env → ℕ → List MetricType → Entries
  raw_entries tree cutoff [] = []
  raw_entries tree cutoff (mt ∷ types) = scan env tree mt 0 cutoff ++ raw_entries tree cutoff types

  abbrev pub written : List Bytes × Bool → Exec ℕ
  written (lines, true) s = (ok (length lines), record s { exports = s.exports ++ lines ∷ [] })
  written (lines, false) s = (err Failure.json, record s { exports = s.exports ++ lines ∷ [] })

  -- The export of the raw records up to the cutoff; `writable` says whether the file can be created.
  unfoldable pub export_raw : ℕ → Bool → Option Bytes → Exec ℕ
  unfolding raw_entries
  export_raw cutoff writable none s = (ok 0, s)
  export_raw cutoff false (some dir) s = (err Failure.io, s)
  export_raw cutoff true (some dir) s =
      written (copy_lines env (raw_entries s.metrics cutoff all_metric_types)) s

  unfoldable pub run_tiers : TieredRetentionConfig → ℕ → Bool → Exec TieredCleanupReport
  run_tiers config now writable = do
    let path = export_dir config.export_before_delete config.export_dir
    exported_count ← export_raw (raw_cutoff config now) writable path
    raw_aggregated ← aggregate_raw_to_daily now config
    raw_deleted ← delete_raw (raw_cutoff config now)
    daily_aggregated ← aggregate_daily_to_monthly now
    daily_deleted ← delete_daily (month_bucket env.chrono now)
    monthly_aggregated ← aggregate_monthly_to_yearly now config
    monthly_deleted ← delete_monthly (subtract_months env.chrono now config.monthly_keep_months)
    yearly_deleted ← delete_yearly (subtract_months env.chrono now (keep_months config))
    λ s. (
      ok (record {
        raw_aggregated = raw_aggregated;
        raw_deleted = raw_deleted;
        daily_aggregated = daily_aggregated;
        daily_deleted = daily_deleted;
        monthly_aggregated = monthly_aggregated;
        monthly_deleted = monthly_deleted;
        yearly_deleted = yearly_deleted;
        exported_count = exported_count;
        export_path = path;
      }),
      set_last_cleanup_ts env now s,
    )

  unfoldable pub cleanup_tiered : TieredRetentionConfig → Option ℕ → Bool → Exec TieredCleanupReport
  unfolding run_tiers
  cleanup_tiered config none writable s = (err Failure.clock, s)
  cleanup_tiered config (some now) writable s = run_tiers config now writable s
