-- ===== src/Storage/Own.antt =====
-- The readings of one application that `get_power_stats` of crates/heimwatch-storage/src/db.rs adds
-- up, and the filter by battery state, read off the records.
use mathlib.Core.List.{Perm, Pairwise, head?, reverse}
use heimwatch.Prelude.{
  ℕ, ◌+◌, ◌-◌, ◌*◌, ◌%◌, ◌^◌, ◌≡◌, Bool, true, false, not, ◌&&◌, ◌||◌, ◌==◌, List, [], ◌∷◌, Option,
  none, some, Bytes, eq_bytes, if◌then◌else◌, length, map,
}
use heimwatch.Core.Metrics.{MetricPayload, MetricRecord, PowerData, AppPowerStats}
use heimwatch.Aggregation.Counters.{total}
use heimwatch.Apps.{HashOrder, find}
use heimwatch.Apps.Tables.{Distinct}
use heimwatch.Power.Formula.{sum, expected_row}
use heimwatch.Storage.{Env, Rec}
use heimwatch.Storage.Top.{Metrics, Fetched}

abbrev pub given : {A : Type 0} → Option A → Bool
given none = false
given (some a) = true

-- The readings that a record can have.
module _ {F32 : Type 0} where
  abbrev pub cpu_of : MetricRecord F32 → Option F32
  cpu_of r = elim r.payload [ MetricPayload.cpu d ↦ some d.cpu_usage_percent | _ ↦ none ]

  abbrev pub gpu_of : MetricRecord F32 → Option F32
  gpu_of r = elim r.payload [ MetricPayload.gpu_proc d ↦ d.usage_percent | _ ↦ none ]

  abbrev pub focus_of : MetricRecord F32 → Option ℕ
  focus_of r = elim r.payload [ MetricPayload.foc d ↦ some d.duration_ms | _ ↦ none ]

  -- read and written
  abbrev pub disk_of : MetricRecord F32 → Option ℕ
  disk_of r = elim r.payload [
    | MetricPayload.dsk d ↦ some ((d.read_bytes + d.write_bytes) % 2 ^ 64)
    | _ ↦ none
  ]

  -- sent and received
  abbrev pub net_of : MetricRecord F32 → Option ℕ
  net_of r = elim r.payload [
    | MetricPayload.net d ↦ some ((d.tx_bytes + d.rx_bytes) % 2 ^ 64)
    | _ ↦ none
  ]

  abbrev pub resident_of : MetricRecord F32 → Option ℕ
  resident_of r = elim r.payload [ MetricPayload.mem d ↦ some d.rss_bytes | _ ↦ none ]

  -- On battery is not charging, with a battery; otherwise charging.
  abbrev pub of_state : Bool → MetricRecord F32 → Bool
  of_state on_battery r = elim r.payload [
    | MetricPayload.pwr d ↦
        if on_battery then not d.charging && given d.battery_percent else d.charging
    | _ ↦ false
  ]

  -- Whether a time is that of a power record of the state asked for, if one is.
  abbrev pub kept : Option Bool → List (MetricRecord F32) → ℕ → Bool
  kept none rs ts = true
  kept (some on_battery) [] ts = false
  kept (some on_battery) (r ∷ rs) ts =
      let rest = kept (some on_battery) rs ts in
      (r.timestamp == ts && of_state on_battery r) || rest

  -- The readings of one application, from its records at times that are kept.
  abbrev pub readings :
      {A : Type 0}
      → (MetricRecord F32 → Option A)
      → (ℕ → Bool)
      → Bytes
      → List (MetricRecord F32)
      → List A
  readings get keep app [] = []
  readings get keep app (r ∷ rs) =
      let rest = readings get keep app rs in
      if keep r.timestamp && eq_bytes r.app_name app
      then elim (get r) [ none ↦ rest | some x ↦ x ∷ rest ]
      else rest

abbrev pub nonempty : {A : Type 0} → List A → Bool
nonempty [] = false
nonempty (x ∷ xs) = true

abbrev pub sum_wrapped : List ℕ → ℕ
sum_wrapped ns = total (λ n. n) ns % 2 ^ 64

module _ (env : Env) where
  -- What the readings of an application come to; nothing if there is none.
  abbrev pub expected_metrics : (ℕ → Bool) → Fetched env → Bytes → Option (Metrics env)
  expected_metrics keep f app =
      let cpu = readings cpu_of keep app f.cpu_records in
      let gpu = readings gpu_of keep app f.gpu_records in
      let focus = readings focus_of keep app f.foc_records in
      let disk = readings disk_of keep app f.dsk_records in
      let net = readings net_of keep app f.net_records in
      let mem = readings resident_of keep app f.mem_records in
      if ((((nonempty cpu || nonempty gpu) || nonempty focus) || nonempty disk) || nonempty net)
        || nonempty mem
      then some (record {
        cpu_pcts = cpu;
        gpu_pcts = gpu;
        focus_ms = sum_wrapped focus;
        disk_bytes = sum_wrapped disk;
        net_bytes = sum_wrapped net;
        mem_rss = mem;
      })
      else none

  -- The values of a field of the power records, their mean and the last.
  abbrev pub power_of :
      {A : Type 0} → (PowerData env.floats.F32 → Option A) → List (Rec env) → List A
  power_of field [] = []
  power_of field (r ∷ rs) = elim r.payload [
    | MetricPayload.pwr d ↦ elim (field d) [
      | none ↦ power_of field rs
      | some v ↦ v ∷ power_of field rs
    ]
    | _ ↦ power_of field rs
  ]

  abbrev pub mean_reading : List env.floats.F32 → Option env.floats.F32
  mean_reading [] = none
  mean_reading (x ∷ xs) =
      some (env.floats.div_f32 (sum env.floats (x ∷ xs)) (env.floats.f32_of_u64 (length (x ∷ xs))))

  abbrev pub milliseconds : ℕ → ℕ → ℕ
  milliseconds start end = (end + 2 ^ 64 - start) % 2 ^ 64 * 1000 % 2 ^ 64

  module _ (o : HashOrder) (start end : ℕ) (on_battery : Option Bool) (f : Fetched env)
      (pwr_records : List (Rec env)) where
    -- The row of an application by the formula, among the entries of a table in the order of the map.
    abbrev pub formula_row :
        List (Bytes × Metrics env) → Bytes × Metrics env → AppPowerStats env.floats.F32
    formula_row table =
        expected_row env.floats (o.order table) (milliseconds start end)
          (mean_reading (power_of (λ d. d.rapl_package_watts) pwr_records))
          (mean_reading (power_of (λ d. d.avg_cpu_freq_ratio) pwr_records))
          (mean_reading (power_of (λ d. d.display_brightness) pwr_records))
          (head? (reverse (power_of (λ d. d.is_wifi) pwr_records)))
          (elim on_battery [ none ↦ false | some b ↦ b ])

    -- One entry for each application with a reading that is kept.
    pub record Gathers (table : List (Bytes × Metrics env)) : Type 0 where
      pub distinct : Distinct table
      pub exact :
          (app : Bytes) → find app table ≡ expected_metrics (kept on_battery pwr_records) f app

    -- The rows are those of such a table, from the largest share down.
    pub record PowerTable (rows : List (AppPowerStats env.floats.F32)) : Type 0 where
      pub table : List (Bytes × Metrics env)
      pub gathers : Gathers table
      pub perm : Perm rows (map (formula_row table) table)
      pub sorted : Pairwise (λ a b. env.floats.lt_f32 a.power_pct b.power_pct ≡ false) rows
