-- ===== src/Storage/Tiers.antt =====
-- What `cleanup_tiered` of crates/heimwatch-storage/src/db.rs leaves in the four trees, whether it
-- succeeds or fails.
pub mod Steps
use heimwatch.Prelude.{
  ℕ, ◌-◌, ◌%◌, ◌≡◌, ◌<◌, ◌^◌, refl, ap, ◌∙◌, Bool, true, false, List, Option, none, some, arith,
  Bytes, ◌⊎◌, inl, inr,
}
use heimwatch.Error.{Failure, Result, ok, err}
use heimwatch.Core.Metrics.{MetricType, all_metric_types}
use heimwatch.Keys.{encode_key}
use heimwatch.Retention.{TieredRetentionConfig}
use heimwatch.Aggregation.Bucket.{
  day_bucket, month_bucket, year_bucket, subtract_months, chrono_sub,
}
use heimwatch.Prelude.Int.{negsuc}
use heimwatch.Storage.{Env, StorageLayer, Tree}
use heimwatch.Storage.Write.{set_last_cleanup_ts}
use heimwatch.Storage.Cleanup.{delete_from_tree_before, copy_lines, export_dir}
use heimwatch.Storage.Expiry.{get-delete_from_tree_before, expired-encode_key}
use heimwatch.Storage.Tiered.{
  Exec, go_on, raw_cutoff, keep_months, aggregate_types, aggregate_raw_to_daily,
  aggregate_daily_to_monthly, aggregate_monthly_to_yearly, delete_raw, delete_daily, delete_monthly,
  delete_yearly, export_raw, raw_entries, written, run_tiers, cleanup_tiered,
}
use heimwatch.Storage.Tiers.Steps.{
  Ends, Ends-go_on, Assertion, Safe, Exported, InDaily, RawGone, AfterRaw, AfterMonthly, DailyGone,
  AfterYearly, without, daily, export_raw-Ends, daily-Ends, delete_raw-Ends, monthly-Ends,
  yearly-Ends,
}

module _ (env : Env) where
  module _ (config : TieredRetentionConfig) (now : ℕ) (s : StorageLayer env) where
    -- What a success leaves: in each tier all that is younger than its cutoff, and what is older went
    -- into the next tier before.
    abbrev pub Tiered : Assertion env
    Tiered t =
        (days : Tree env) × (months : Tree env) × (years : Tree env) × AfterYearly env config now s
          days months years t
        × (t.metrics_1m
            ≡ without env months (subtract_months env.chrono now config.monthly_keep_months))
        × (t.metrics_1y ≡ without env years (subtract_months env.chrono now (keep_months config)))

    -- The last deletions, of the monthly and of the yearly records.
    last-Ends :
        (days months : Tree env) (t : StorageLayer env)
        → (years : Tree env) × AfterYearly env config now s days months years t
          × (t.metrics_1m ≡ months)
          × (t.metrics_1y ≡ years)
        → Tiered (record t {
          metrics_1m =
              without env t.metrics_1m (subtract_months env.chrono now config.monthly_keep_months);
          metrics_1y =
              without env t.metrics_1y (subtract_months env.chrono now (keep_months config));
        })
    last-Ends days months t (years, h, m, y) = (
      days,
      months,
      years,
      h,
      ap (λ d. without env d (subtract_months env.chrono now config.monthly_keep_months)) m,
      ap (λ d. without env d (subtract_months env.chrono now (keep_months config))) y,
    )

    run_tiers-Ends :
        (writable : Bool)
        → Ends env (λ report. Tiered) (Safe env config now s) (run_tiers env config now writable s)
    unfolding run_tiers delete_daily delete_monthly delete_yearly set_last_cleanup_ts
    run_tiers-Ends writable =
        Ends-go_on env (λ n. Exported env config now s) (λ report. Tiered) (Safe env config now s) _
          _
          (export_raw-Ends env config now s (raw_cutoff config now) writable
            (export_dir config.export_before_delete config.export_dir))
          λ n t h.
            Ends-go_on env
              (λ n t. (t.metrics ≡ s.metrics) × (days : Tree env) × InDaily env config now s days t)
              (λ report. Tiered) (Safe env config now s) _ _ (daily-Ends env config now s t h)
              λ n t h.
                Ends-go_on env (λ n t. (days : Tree env) × AfterRaw env config now s days t)
                  (λ report. Tiered) (Safe env config now s) _ _
                  (delete_raw-Ends env config now s t h)
                  λ n t (days, h).
                    Ends-go_on env
                      (λ n t.
                        (months : Tree env) × (t.metrics_1d ≡ days)
                        × AfterMonthly env config now s days months t)
                      (λ report. Tiered) (Safe env config now s) _ _
                      (monthly-Ends env config now s days t h)
                      λ n t (months, e, h).
                        Ends-go_on env
                          (λ n t.
                            (years : Tree env) × AfterYearly env config now s days months years t
                            × (t.metrics_1m ≡ months)
                            × (t.metrics_1y ≡ years))
                          (λ report. Tiered) (Safe env config now s) _ _
                          (yearly-Ends env config now s days months
                            (record t {
                              metrics_1d = without env t.metrics_1d (month_bucket env.chrono now);
                            })
                            (ap (λ d. without env d (month_bucket env.chrono now)) e) h)
                          λ n t h. last-Ends days months t h

  -- `cleanup_tiered` on all its branches, when the clock can be read. A success leaves each of the
  -- four trees as the steps before filled it, less the records up to its cutoff; each of the three
  -- aggregations succeeded, on the tree that nothing had been deleted from yet. A failure leaves
  -- the raw records as they were, or their aggregation into the daily tree had succeeded and those
  -- up to the cutoff are gone.
  pub cleanup_tiered-Ends :
      (config : TieredRetentionConfig) (now : ℕ) (writable : Bool) (s : StorageLayer env)
      → Ends env
          (λ report. Tiered config now s)
          (Safe env config now s)
          (cleanup_tiered env config (some now) writable s)
  unfolding cleanup_tiered
  cleanup_tiered-Ends config now writable s = run_tiers-Ends config now s writable

  -- If chrono's date for the cutoff of `yearly_keep_years` lies before 1970, with a timestamp of
  -- at least -2^63, then the deletion of the yearly records removes every one with a timestamp
  -- below 2^63.
  pub delete_yearly-before_epoch :
      (config : TieredRetentionConfig) (now k : ℕ) (s : StorageLayer env) (p : MetricType) (ts : ℕ)
      (app : Bytes)
      → chrono_sub env.chrono now (keep_months config) ≡ some (negsuc k)
      → k < 2 ^ 63
      → ts < 2 ^ 63
      → env.sled.get
          (delete_yearly env (subtract_months env.chrono now (keep_months config)) s).1.metrics_1y
          (encode_key p ts app)
        ≡ none
  unfolding delete_yearly subtract_months
  delete_yearly-before_epoch config now k s p ts app e hk ht =
      let cutoff = 2 ^ 64 - 1 - k % 2 ^ 64 in
      rw e (
        get-delete_from_tree_before env s.metrics_1y cutoff (encode_key p ts app)
        ∙ rw (expired-encode_key (λ _. cutoff) (λ _. omega arith) p ts app (omega arith))
            (ground arith))
