-- ===== src/Power/Rows.antt =====
-- The rows of crates/heimwatch-storage/src/power_calc.rs beside the formula.
use heimwatch.Prelude.{ℕ, ◌≡◌, refl, Bool, false, List, Option, Bytes}
use heimwatch.Core.Floats.{Floats, sum_f32}
use heimwatch.Apps.{HashOrder}
use heimwatch.Power.{
  AppMetrics, norms, components, cpu_average, normalized, mem_fraction, cpu_score, power_score,
  final_stat,
}
use heimwatch.Power.Shares.{stat_of}
use heimwatch.Power.Formula.{parts, expected_row}

module _ (fl : Floats) (o : HashOrder) (m : List (Bytes × AppMetrics fl)) (window_ms : ℕ)
    (rapl freq brightness : Option fl.F32) (is_wifi : Option Bool) where
  components_lem :
      (a : AppMetrics fl)
      → components fl window_ms rapl freq brightness is_wifi (norms fl (o.order m)) a
        ≡ parts fl (o.order m) window_ms rapl freq brightness is_wifi a
  unfolding components norms cpu_average normalized mem_fraction cpu_score sum_f32
  components_lem a = refl

  pub stat_of_lem :
      (e : Bytes × AppMetrics fl)
      → stat_of fl o m window_ms rapl freq brightness is_wifi e
        ≡ expected_row fl (o.order m) window_ms rapl freq brightness is_wifi false e
  unfolding components norms cpu_average normalized mem_fraction cpu_score sum_f32 final_stat
      power_score
  stat_of_lem e = refl
