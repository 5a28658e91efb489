-- ===== src/Storage/Tiers/Steps.antt =====
-- The steps of `cleanup_tiered` of crates/heimwatch-storage/src/db.rs one by one: what each leaves
-- in the trees, after a success and after a failure.
use heimwatch.Prelude.{
  ℕ, ◌≡◌, refl, ap, Bool, true, false, List, Option, none, some, Bytes, ◌⊎◌, inl, inr,
}
use heimwatch.Error.{Failure, Result, ok, err}
use heimwatch.Core.Metrics.{all_metric_types}
use heimwatch.Retention.{TieredRetentionConfig}
use heimwatch.Aggregation.Bucket.{day_bucket, month_bucket, year_bucket, subtract_months}
use heimwatch.Storage.{Env, StorageLayer, Tree}
use heimwatch.Storage.Cleanup.{delete_from_tree_before, copy_lines}
use heimwatch.Storage.Tiered.{
  Exec, go_on, raw_cutoff, aggregate_types, aggregate_raw_to_daily, aggregate_daily_to_monthly,
  aggregate_monthly_to_yearly, delete_raw, export_raw, raw_entries, written,
}

module _ (env : Env) where
  abbrev pub Assertion : Type 1
  Assertion = StorageLayer env → Type 0

  -- What holds of a method's result: `post` of a success and `fail` of the state after a failure.
  abbrev pub Ends :
      {A : Type 0} → (A → Assertion) → Assertion → Result Failure A × StorageLayer env → Type 0
  Ends post fail (ok a, s) = post a s
  Ends post fail (err e, s) = fail s

  pub Ends-go_on :
      {A B : Type 0} (mid : A → Assertion) (post : B → Assertion) (fail : Assertion)
      (f : A → Exec env B) (r : Result Failure A × StorageLayer env)
      → Ends mid fail r
      → ((a : A) (s : StorageLayer env) → mid a s → Ends post fail (f a s))
      → Ends post fail (go_on env f r)
  Ends-go_on mid post fail f (ok a, s) h k = k a s h
  Ends-go_on mid post fail f (err e, s) h k = h

  -- A tree after the deletion of what lies up to a cutoff.
  abbrev pub without : Tree env → ℕ → Tree env
  without tree cutoff = (delete_from_tree_before env tree cutoff).1

  module _ (config : TieredRetentionConfig) (now : ℕ) (s : StorageLayer env) where
    abbrev pub daily : Result Failure ℕ × Tree env
    daily =
        aggregate_types env (day_bucket env.chrono) (raw_cutoff config now) s.metrics 0
          all_metric_types s.metrics_1d

    abbrev pub monthly : Tree env → Result Failure ℕ × Tree env
    monthly days =
        aggregate_types env (month_bucket env.chrono) (month_bucket env.chrono now) days 0
          all_metric_types s.metrics_1m

    abbrev pub yearly : Tree env → Result Failure ℕ × Tree env
    yearly months =
        aggregate_types env (year_bucket env.chrono)
          (subtract_months env.chrono now config.monthly_keep_months) months 0 all_metric_types
          s.metrics_1y

    -- Nothing of the raw records is lost: they are all there, or those up to the cutoff are gone, and
    -- their aggregation into the daily tree had succeeded.
    abbrev pub Safe : Assertion
    Safe s' =
        (s'.metrics ≡ s.metrics)
        ⊎ ((n : ℕ) × (days : Tree env) × (daily ≡ (ok n, days))
            × (s'.metrics ≡ without s.metrics (raw_cutoff config now)))

    -- The trees after each of the steps.
    abbrev pub Exported : Assertion
    Exported t =
        (t.metrics ≡ s.metrics)
        × (t.metrics_1d ≡ s.metrics_1d)
        × (t.metrics_1m ≡ s.metrics_1m)
        × (t.metrics_1y ≡ s.metrics_1y)

    pub export_raw-Ends :
        (cutoff : ℕ) (writable : Bool) (path : Option Bytes)
        → Ends (λ n. Exported) Safe (export_raw env cutoff writable path s)
    unfolding export_raw
    export_raw-Ends cutoff writable none = (refl, refl, refl, refl)
    export_raw-Ends cutoff false (some dir) = inl refl
    export_raw-Ends cutoff true (some dir) =
        copied (copy_lines env (raw_entries env s.metrics cutoff all_metric_types))
      where
        copied : (file : List Bytes × Bool) → Ends (λ n. Exported) Safe (written env file s)
        copied (lines, true) = (refl, refl, refl, refl)
        copied (lines, false) = inl refl

    -- The daily tree before anything is deleted from it, when its aggregation succeeded.
    abbrev pub InDaily : Tree env → Assertion
    InDaily days t =
        ((n : ℕ) × (daily ≡ (ok n, days)))
        × (t.metrics_1d ≡ days)
        × (t.metrics_1m ≡ s.metrics_1m)
        × (t.metrics_1y ≡ s.metrics_1y)

    aggregated :
        (r : Result Failure ℕ × Tree env) (t : StorageLayer env)
        → daily ≡ r
        → Exported t
        → Ends
            (λ n t'. (t'.metrics ≡ s.metrics) × (days : Tree env) × InDaily days t')
            Safe
            (r.0, record t { metrics_1d = r.1 })
    aggregated (ok n, days) t e (e0, e1, e2, e3) = (e0, days, ((n, e), refl, e2, e3))
    aggregated (err f, days) t e (e0, e1, e2, e3) = inl e0

    pub daily-Ends :
        (t : StorageLayer env)
        → Exported t
        → Ends
            (λ n t'. (t'.metrics ≡ s.metrics) × (days : Tree env) × InDaily days t')
            Safe
            (aggregate_raw_to_daily env now config t)
    unfolding aggregate_raw_to_daily
    daily-Ends t (e0, e1, e2, e3) =
        aggregated
          (aggregate_types env (day_bucket env.chrono) (raw_cutoff config now) t.metrics 0
            all_metric_types t.metrics_1d)
          t (rw e0 (rw e1 refl)) (e0, e1, e2, e3)

    -- The raw records up to the cutoff are gone, and their aggregates are in `days`.
    abbrev pub RawGone : Tree env → Assertion
    RawGone days t =
        ((n : ℕ) × (daily ≡ (ok n, days))) × (t.metrics ≡ without s.metrics (raw_cutoff config now))

    abbrev pub AfterRaw : Tree env → Assertion
    AfterRaw days t =
        RawGone days t
        × (t.metrics_1d ≡ days)
        × (t.metrics_1m ≡ s.metrics_1m)
        × (t.metrics_1y ≡ s.metrics_1y)

    pub delete_raw-Ends :
        (t : StorageLayer env)
        → (t.metrics ≡ s.metrics) × (days : Tree env) × InDaily days t
        → Ends
            (λ n t'. (days : Tree env) × AfterRaw days t')
            Safe
            (delete_raw env (raw_cutoff config now) t)
    unfolding delete_raw
    delete_raw-Ends t (e, days, (a, e1, e2, e3)) =
        (days, ((a, ap (λ m. without m (raw_cutoff config now)) e), e1, e2, e3))

    abbrev pub AfterMonthly : Tree env → Tree env → Assertion
    AfterMonthly days months t =
        RawGone days t
        × ((n : ℕ) × (monthly days ≡ (ok n, months)))
        × (t.metrics_1m ≡ months)
        × (t.metrics_1y ≡ s.metrics_1y)

    aggregated_monthly :
        (r : Result Failure ℕ × Tree env) (days : Tree env) (t : StorageLayer env)
        → monthly days ≡ r
        → AfterRaw days t
        → Ends
            (λ n t'. (months : Tree env) × (t'.metrics_1d ≡ days) × AfterMonthly days months t')
            Safe
            (r.0, record t { metrics_1m = r.1 })
    aggregated_monthly (ok n, months) days t e (g, e1, e2, e3) = (months, e1, (g, (n, e), refl, e3))
    aggregated_monthly (err f, months) days t e (((n, a), g), e1, e2, e3) = inr (n, days, a, g)

    pub monthly-Ends :
        (days : Tree env) (t : StorageLayer env)
        → AfterRaw days t
        → Ends
            (λ n t'. (months : Tree env) × (t'.metrics_1d ≡ days) × AfterMonthly days months t')
            Safe
            (aggregate_daily_to_monthly env now t)
    unfolding aggregate_daily_to_monthly
    monthly-Ends days t (g, e1, e2, e3) =
        aggregated_monthly
          (aggregate_types env (month_bucket env.chrono) (month_bucket env.chrono now) t.metrics_1d
            0 all_metric_types t.metrics_1m)
          days t (rw e1 (rw e2 refl)) (g, e1, e2, e3)

    abbrev pub DailyGone : Tree env → Assertion
    DailyGone days t = t.metrics_1d ≡ without days (month_bucket env.chrono now)

    abbrev pub AfterYearly : Tree env → Tree env → Tree env → Assertion
    AfterYearly days months years t =
        RawGone days t
        × DailyGone days t
        × ((n : ℕ) × (monthly days ≡ (ok n, months)))
        × ((n : ℕ) × (yearly months ≡ (ok n, years)))

    aggregated_yearly :
        (r : Result Failure ℕ × Tree env) (days months : Tree env) (t : StorageLayer env)
        → yearly months ≡ r
        → DailyGone days t
        → AfterMonthly days months t
        → Ends
            (λ n t'.
              (years : Tree env) × AfterYearly days months years t'
              × (t'.metrics_1m ≡ months)
              × (t'.metrics_1y ≡ years))
            Safe
            (r.0, record t { metrics_1y = r.1 })
    aggregated_yearly (ok n, years) days months t e d (g, m, e2, e3) =
        (years, (g, d, m, (n, e)), e2, refl)
    aggregated_yearly (err f, years) days months t e d (((n, a), g), m, e2, e3) =
        inr (n, days, a, g)

    pub yearly-Ends :
        (days months : Tree env) (t : StorageLayer env)
        → DailyGone days t
        → AfterMonthly days months t
        → Ends
            (λ n t'.
              (years : Tree env) × AfterYearly days months years t'
              × (t'.metrics_1m ≡ months)
              × (t'.metrics_1y ≡ years))
            Safe
            (aggregate_monthly_to_yearly env now config t)
    unfolding aggregate_monthly_to_yearly
    yearly-Ends days months t d (g, m, e2, e3) =
        aggregated_yearly
          (aggregate_types env (year_bucket env.chrono)
            (subtract_months env.chrono now config.monthly_keep_months) t.metrics_1m 0
            all_metric_types t.metrics_1y)
          days months t (rw e2 (rw e3 refl)) d (g, m, e2, e3)
