-- ===== src/Power/Shares.antt =====
-- Which applications `compute_power_stats` of crates/heimwatch-storage/src/power_calc.rs reports, and
-- in which order.
use mathlib.Core.List.{Pairwise}
use heimwatch.Prelude.{ℕ, ◌≡◌, Bool, false, List, map, Option, Bytes, All, ◌==◌}
use heimwatch.Core.Floats.{Floats, FloatOrder, sum_f32}
use heimwatch.Core.Metrics.{AppPowerStats}
use heimwatch.Apps.{HashOrder, sort_by}
use heimwatch.Apps.Tables.{NotAfter, map-map, All-map, sort_by-sorted}
use heimwatch.Power.{
  AppMetrics, norms, components, power_score, final_stat, more_power, compute_power_stats,
}

module _ (fl : Floats) (o : HashOrder) (m : List (Bytes × AppMetrics fl)) (window_ms : ℕ)
    (rapl freq brightness : Option fl.F32) (is_wifi : Option Bool) where
  -- The sum of the scores of all applications.
  abbrev pub score_of : AppMetrics fl → fl.F32
  score_of metrics =
      power_score fl
        (components fl window_ms rapl freq brightness is_wifi (norms fl (o.order m)) metrics)

  abbrev pub total_score : fl.F32
  total_score = sum_f32 fl (map (λ e. score_of e.1) (o.order m))

  -- The statistics of an application, by its metrics.
  abbrev pub stat_of : Bytes × AppMetrics fl → AppPowerStats fl.F32
  stat_of e =
      final_stat fl total_score
        (e.0, components fl window_ms rapl freq brightness is_wifi (norms fl (o.order m)) e.1)

  pub compute_lem :
      (window_ms == 0) ≡ false
      → compute_power_stats fl o m window_ms rapl freq brightness is_wifi
        ≡ sort_by (more_power fl) (map stat_of (o.order m))
  unfolding compute_power_stats
  compute_lem w = simp (w, map-map)

  pub compute_power_stats-sorted :
      (law : FloatOrder fl)
      → (window_ms == 0) ≡ false
      → All (λ e. law.IsNumber (stat_of e).power_pct) (o.order m)
      → Pairwise
          (NotAfter (more_power fl))
          (compute_power_stats fl o m window_ms rapl freq brightness is_wifi)
  compute_power_stats-sorted law w number = rw (compute_lem w) (
      sort_by-sorted (more_power fl) (λ r. law.IsNumber r.power_pct)
        (λ x y h. law.lt_asym y.power_pct x.power_pct h)
        (λ x y z p h k. law.ge_trans x.power_pct y.power_pct z.power_pct p h k)
        (map stat_of (o.order m))
        (All-map (λ r. law.IsNumber r.power_pct) stat_of (o.order m) number))
