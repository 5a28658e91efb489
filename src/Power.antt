-- ===== src/Power.antt =====
-- crates/heimwatch-storage/src/power_calc.rs: the share of each application in the power, over the
-- interface of the floats. The map that it iterates gives its entries in the order of a `HashOrder`.
pub mod Shares
pub mod Formula
pub mod Rows
use mathlib.Core.List.{foldl, flat_map}
use heimwatch.Prelude.{
  ℕ, ◌+◌, ◌*◌, ◌/◌, max, Bool, true, false, List, [], ◌∷◌, map, Option, none, some, Bytes, length,
  ltb, ◌==◌, if◌then◌else◌, wrap64,
}
use heimwatch.Core.Floats.{Floats, sum_f32}
use heimwatch.Core.Metrics.{AppPowerStats}
use heimwatch.Apps.{HashOrder, sort_by}

-- `iter().max().unwrap_or(1)`
abbrev pub max_or_one : List ℕ → ℕ
max_or_one [] = 1
max_or_one (n ∷ ns) = foldl max n ns

-- `iter().sum::<u64>()` of a release build
abbrev pub sum_u64 : List ℕ → ℕ
sum_u64 = foldl (λ a b. wrap64 (a + b)) 0

-- `values.iter().sum::<u64>() / values.len() as u64`, or 0 for no value
abbrev pub mean_u64 : List ℕ → ℕ
mean_u64 [] = 0
mean_u64 (n ∷ ns) = sum_u64 (n ∷ ns) / length (n ∷ ns)

module _ (fl : Floats) where
  open fl use {
    F32, add_f32, mul_f32, div_f32, log2_f32, max_f32, clamp_f32, lt_f32, literal_f32, f32_of_u64,
  }

  pub record AppMetrics : Type 0 where
    pub cpu_pcts : List F32
    pub gpu_pcts : List F32
    pub focus_ms : ℕ
    pub disk_bytes : ℕ
    pub net_bytes : ℕ
    pub mem_rss : List ℕ

  abbrev pub default_metrics : AppMetrics
  default_metrics = record {
    cpu_pcts = [];
    gpu_pcts = [];
    focus_ms = 0;
    disk_bytes = 0;
    net_bytes = 0;
    mem_rss = [];
  }

  pub record ScoreComponents : Type 0 where
    pub cpu : F32
    pub gpu : F32
    pub display : F32
    pub disk : F32
    pub net : F32
    pub mem : F32

  abbrev pub cpu_weight : F32
  cpu_weight = literal_f32 40 2

  abbrev pub gpu_weight : F32
  gpu_weight = literal_f32 20 2

  abbrev pub display_weight : F32
  display_weight = literal_f32 15 2

  abbrev pub disk_weight : F32
  disk_weight = literal_f32 10 2

  abbrev pub net_wifi_weight : F32
  net_wifi_weight = literal_f32 15 2

  abbrev pub net_eth_weight : F32
  net_eth_weight = literal_f32 5 2

  abbrev pub net_def_weight : F32
  net_def_weight = literal_f32 10 2

  abbrev pub mem_weight : F32
  mem_weight = literal_f32 5 2

  abbrev pub hundred : F32
  hundred = literal_f32 1000 1

  -- 0.0
  abbrev pub zero_literal : F32
  zero_literal = literal_f32 0 1

  abbrev pub one_f32 : F32
  one_f32 = literal_f32 10 1

  -- The mean of the readings, or 0 for none.
  unfoldable pub cpu_average : List F32 → F32
  cpu_average [] = zero_literal
  cpu_average (p ∷ ps) = div_f32 (sum_f32 fl (p ∷ ps)) (f32_of_u64 (length (p ∷ ps)))

  -- What the scores of one application take from all.
  pub record Norms : Type 0 where
    pub max_disk_bytes : ℕ
    pub max_net_bytes : ℕ
    pub total_mem_rss : ℕ
    pub total_cpu_pct : F32

  unfoldable pub norms : List (Bytes × AppMetrics) → Norms
  unfolding cpu_average
  norms entries = record {
    max_disk_bytes = max_or_one (map (λ e. e.1.disk_bytes) entries);
    max_net_bytes = max_or_one (map (λ e. e.1.net_bytes) entries);
    total_mem_rss = sum_u64 (flat_map (λ e. e.1.mem_rss) entries);
    total_cpu_pct = sum_f32 fl (map (λ e. cpu_average e.1.cpu_pcts) entries);
  }

  -- `((bytes as f32 + 1.0).log2() / (max as f32 + 1.0).log2()) * 100.0`
  unfoldable pub normalized : ℕ → ℕ → F32
  normalized bytes most =
      if ltb 0 most
      then mul_f32
          (div_f32 (log2_f32 (add_f32 (f32_of_u64 bytes) one_f32))
            (log2_f32 (add_f32 (f32_of_u64 most) one_f32)))
          hundred
      else zero_literal

  unfoldable pub mem_fraction : ℕ → List ℕ → F32
  mem_fraction total_mem_rss mem_rss =
      if ltb 0 total_mem_rss
      then mul_f32 (div_f32 (f32_of_u64 (mean_u64 mem_rss)) (f32_of_u64 total_mem_rss)) hundred
      else zero_literal

  -- The approaches, by what was measured.
  unfoldable pub cpu_score : Option F32 → Option F32 → F32 → F32 → F32
  cpu_score (some watts) freq_ratio total_cpu_pct cpu_pct_avg =
      if lt_f32 zero_literal total_cpu_pct
      then mul_f32 watts (div_f32 cpu_pct_avg total_cpu_pct)
      else mul_f32 cpu_weight cpu_pct_avg
  cpu_score none (some ratio) total_cpu_pct cpu_pct_avg =
      mul_f32 (mul_f32 (mul_f32 cpu_weight cpu_pct_avg) ratio) ratio
  cpu_score none none total_cpu_pct cpu_pct_avg = mul_f32 cpu_weight cpu_pct_avg

  abbrev pub net_weight : Option Bool → F32
  net_weight (some true) = net_wifi_weight
  net_weight (some false) = net_eth_weight
  net_weight none = net_def_weight

  abbrev pub or_one : Option F32 → F32
  or_one none = one_f32
  or_one (some x) = x

  unfoldable pub components :
      ℕ → Option F32 → Option F32 → Option F32 → Option Bool → Norms → AppMetrics → ScoreComponents
  unfolding cpu_average normalized mem_fraction cpu_score
  components window_ms rapl_package_watts freq_ratio display_brightness is_wifi all metrics =
      let focus_fraction =
        clamp_f32 (mul_f32 (div_f32 (f32_of_u64 metrics.focus_ms) (f32_of_u64 window_ms)) hundred)
          zero_literal hundred in
      record {
        cpu =
            cpu_score rapl_package_watts freq_ratio all.total_cpu_pct
              (cpu_average metrics.cpu_pcts);
        gpu = mul_f32 gpu_weight (foldl max_f32 zero_literal metrics.gpu_pcts);
        display = mul_f32 (mul_f32 display_weight focus_fraction) (or_one display_brightness);
        disk = mul_f32 disk_weight (normalized metrics.disk_bytes all.max_disk_bytes);
        net = mul_f32 (normalized metrics.net_bytes all.max_net_bytes) (net_weight is_wifi);
        mem = mul_f32 mem_weight (mem_fraction all.total_mem_rss metrics.mem_rss);
      }

  unfoldable pub power_score : ScoreComponents → F32
  power_score c =
      add_f32 (add_f32 (add_f32 (add_f32 (add_f32 c.cpu c.gpu) c.display) c.disk) c.net) c.mem

  -- The statistics of an application, from the total of all scores.
  unfoldable pub final_stat : F32 → Bytes × ScoreComponents → AppPowerStats F32
  unfolding power_score
  final_stat total_score (app_name, c) =
      let score = power_score c in
      let counted = lt_f32 zero_literal total_score in
      let share = λ (part : F32).
        (if counted
          then if lt_f32 zero_literal score then div_f32 part score else zero_literal
          else zero_literal) in
      record {
        app_name = app_name;
        power_pct = if counted then mul_f32 (div_f32 score total_score) hundred else zero_literal;
        power_score = score;
        on_battery = false;
        cpu_contribution = share c.cpu;
        gpu_contribution = share c.gpu;
        display_contribution = share c.display;
        disk_contribution = share c.disk;
        net_contribution = share c.net;
        mem_contribution = share c.mem;
      }

  -- `b.power_pct.partial_cmp(&a.power_pct)`
  abbrev pub more_power : AppPowerStats F32 → AppPowerStats F32 → Bool
  more_power a b = lt_f32 b.power_pct a.power_pct

  unfoldable pub compute_power_stats :
      HashOrder
      → List (Bytes × AppMetrics)
      → ℕ
      → Option F32
      → Option F32
      → Option F32
      → Option Bool
      → List (AppPowerStats F32)
  unfolding components norms final_stat power_score
  compute_power_stats o app_metrics window_ms rapl_package_watts freq_ratio display_brightness
        is_wifi =
      let entries = o.order app_metrics in
      let all = norms entries in
      let scored =
        map
          (λ e. (
            e.0,
            components window_ms rapl_package_watts freq_ratio display_brightness is_wifi all e.1,
          ))
          entries in
      let total_score = sum_f32 fl (map (λ e. power_score e.1) scored) in
      if window_ms == 0 then [] else sort_by more_power (map (final_stat total_score) scored)
