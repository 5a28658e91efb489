-- ===== src/Power/Formula.antt =====
-- The formula of crates/heimwatch-storage/src/power_calc.rs, written out with its weights: the six
-- parts of the score of an application, and the row that shows it.
use mathlib.Core.List.{foldl, flat_map}
use heimwatch.Prelude.{
  ℕ, ◌+◌, ◌/◌, ◌%◌, ◌^◌, max, Bool, true, false, List, [], ◌∷◌, map, Option, none, some, Bytes,
  length, ltb, if◌then◌else◌,
}
use heimwatch.Core.Floats.{Floats}
use heimwatch.Core.Metrics.{AppPowerStats}
use heimwatch.Power.{AppMetrics, ScoreComponents}

module _ (fl : Floats) where
  open fl use {
    F32, zero_f32, add_f32, mul_f32, div_f32, log2_f32, max_f32, clamp_f32, lt_f32, literal_f32,
    f32_of_u64,
  }

  abbrev pub nought : F32
  nought = literal_f32 0 1

  abbrev pub positive : F32 → Bool
  positive x = lt_f32 nought x

  abbrev pub in_percent : F32 → F32 → F32
  in_percent a b = mul_f32 (div_f32 a b) (literal_f32 1000 1)

  abbrev pub sum : List F32 → F32
  sum = foldl add_f32 zero_f32

  abbrev pub mean_or_zero : List F32 → F32
  mean_or_zero [] = nought
  mean_or_zero (p ∷ ps) = div_f32 (sum (p ∷ ps)) (f32_of_u64 (length (p ∷ ps)))

  abbrev pub sum_bytes : List ℕ → ℕ
  sum_bytes = foldl (λ a b. (a + b) % 2 ^ 64) 0

  abbrev pub mean_bytes : List ℕ → ℕ
  mean_bytes [] = 0
  mean_bytes (n ∷ ns) = sum_bytes (n ∷ ns) / length (n ∷ ns)

  abbrev pub largest : List ℕ → ℕ
  largest [] = 1
  largest (n ∷ ns) = foldl max n ns

  -- the logarithm of a number of bytes and one
  abbrev pub log_bytes : ℕ → F32
  log_bytes n = log2_f32 (add_f32 (f32_of_u64 n) (literal_f32 10 1))

  -- as a percentage of the logarithm of the largest
  abbrev pub log_percent : ℕ → ℕ → F32
  log_percent n most = if ltb 0 most then in_percent (log_bytes n) (log_bytes most) else nought

  -- By the watts that were measured in proportion to the CPU time, else by the CPU time, with the
  -- square of the ratio of frequencies if there is one.
  abbrev pub cpu_part : Option F32 → Option F32 → F32 → F32 → F32
  cpu_part (some watts) ratio whole cpu =
      if positive whole then mul_f32 watts (div_f32 cpu whole) else mul_f32 (literal_f32 40 2) cpu
  cpu_part none (some ratio) whole cpu =
      mul_f32 (mul_f32 (mul_f32 (literal_f32 40 2) cpu) ratio) ratio
  cpu_part none none whole cpu = mul_f32 (literal_f32 40 2) cpu

  abbrev pub network_weight : Option Bool → F32
  network_weight (some true) = literal_f32 15 2
  network_weight (some false) = literal_f32 5 2
  network_weight none = literal_f32 10 2

  abbrev pub brightness_or_one : Option F32 → F32
  brightness_or_one none = literal_f32 10 1
  brightness_or_one (some x) = x

  -- What is the same for all applications: the entries in the order of the map, the length of the
  -- window and the readings of the power.
  module _ (entries : List (Bytes × AppMetrics fl)) (window_ms : ℕ)
      (rapl freq brightness : Option F32) (is_wifi : Option Bool) where
    abbrev pub parts : AppMetrics fl → ScoreComponents fl
    parts m = record {
      cpu =
          cpu_part rapl freq (sum (map (λ e. mean_or_zero e.1.cpu_pcts) entries))
            (mean_or_zero m.cpu_pcts);
      gpu = mul_f32 (literal_f32 20 2) (foldl max_f32 nought m.gpu_pcts);
      display =
          mul_f32
            (mul_f32 (literal_f32 15 2) (
              clamp_f32 (in_percent (f32_of_u64 m.focus_ms) (f32_of_u64 window_ms)) nought
                (literal_f32 1000 1)))
            (brightness_or_one brightness);
      disk =
          mul_f32 (literal_f32 10 2)
            (log_percent m.disk_bytes (largest (map (λ e. e.1.disk_bytes) entries)));
      net =
          mul_f32 (log_percent m.net_bytes (largest (map (λ e. e.1.net_bytes) entries)))
            (network_weight is_wifi);
      mem = mul_f32 (literal_f32 5 2) (
          if ltb 0 (sum_bytes (flat_map (λ e. e.1.mem_rss) entries))
          then in_percent (f32_of_u64 (mean_bytes m.mem_rss))
              (f32_of_u64 (sum_bytes (flat_map (λ e. e.1.mem_rss) entries)))
          else nought);
    }

    abbrev pub score : AppMetrics fl → F32
    score m =
        let p = parts m in
        add_f32 (add_f32 (add_f32 (add_f32 (add_f32 p.cpu p.gpu) p.display) p.disk) p.net) p.mem

    abbrev pub all_scores : F32
    all_scores = sum (map (λ e. score e.1) entries)

    -- A part of the score of an application, or 0 if a score is not positive.
    abbrev pub part_of_score : AppMetrics fl → F32 → F32
    part_of_score m part =
        if positive all_scores
        then if positive (score m) then div_f32 part (score m) else nought
        else nought

    abbrev pub expected_row : Bool → Bytes × AppMetrics fl → AppPowerStats F32
    expected_row on_battery e =
        let p = parts e.1 in
        record {
          app_name = e.0;
          power_pct = if positive all_scores then in_percent (score e.1) all_scores else nought;
          power_score = score e.1;
          on_battery = on_battery;
          cpu_contribution = part_of_score e.1 p.cpu;
          gpu_contribution = part_of_score e.1 p.gpu;
          display_contribution = part_of_score e.1 p.display;
          disk_contribution = part_of_score e.1 p.disk;
          net_contribution = part_of_score e.1 p.net;
          mem_contribution = part_of_score e.1 p.mem;
        }
