-- ===== src/Storage/Top.antt =====
-- The lists of applications of `StorageLayer`, in crates/heimwatch-storage/src/db.rs: by traffic,
-- by time in focus, and by power.
use heimwatch.Prelude.{
  ℕ, ◌+◌, ◌-◌, ◌*◌, ◌^◌, Bool, true, false, not, ◌&&◌, List, [], ◌∷◌, map, Option, none, some,
  Bytes, ltb, ◌==◌, take, if◌then◌else◌, wrap64, ◌++◌,
}
use heimwatch.Error.{Failure, Result, ok, ◌>>=◌}
use heimwatch.Core.Metrics.{
  MetricType, MetricPayload, PowerData, AppNetworkStats, AppFocusStats, AppPowerStats,
}
use heimwatch.Apps.{HashOrder, tally, sort_by}
use heimwatch.Power.{AppMetrics, default_metrics, compute_power_stats}
use heimwatch.Storage.{Env, Rec, StorageLayer}
use heimwatch.Storage.Query.{
  get_metrics_by_type, extract_rapl_average, extract_freq_ratio_average,
  extract_display_brightness_average, extract_is_wifi_last,
}

-- `*total_tx += tx_bytes; *total_rx += rx_bytes` of a release build
abbrev pub add_pair : ℕ × ℕ → ℕ × ℕ → ℕ × ℕ
add_pair (a, b) (tx, rx) = (wrap64 (a + tx), wrap64 (b + rx))

abbrev pub add_u64 : ℕ → ℕ → ℕ
add_u64 a n = wrap64 (a + n)

abbrev pub network_row : Bytes × (ℕ × ℕ) → AppNetworkStats
network_row (app_name, (tx_bytes, rx_bytes)) = record {
  app_name = app_name;
  tx_bytes = tx_bytes;
  rx_bytes = rx_bytes;
}

-- `b_total.cmp(&a_total)` is `Less`
abbrev pub more_traffic : AppNetworkStats → AppNetworkStats → Bool
more_traffic a b = ltb (wrap64 (b.tx_bytes + b.rx_bytes)) (wrap64 (a.tx_bytes + a.rx_bytes))

abbrev pub focus_row : Bytes × ℕ → AppFocusStats
focus_row (app_name, total_duration_ms) = record {
  app_name = app_name;
  total_duration_ms = total_duration_ms;
}

abbrev pub more_focus : AppFocusStats → AppFocusStats → Bool
more_focus a b = ltb b.total_duration_ms a.total_duration_ms

module _ (env : Env) where
  abbrev pub Payload : Type 0
  Payload = MetricPayload env.floats.F32

  abbrev pub Metrics : Type 0
  Metrics = AppMetrics env.floats

  abbrev pub app_of : Rec env → Bytes
  app_of r = r.app_name

  unfoldable pub tx_rx_bytes : Rec env → Option (ℕ × ℕ)
  tx_rx_bytes r = elim r.payload [ MetricPayload.net d ↦ some (d.tx_bytes, d.rx_bytes) | _ ↦ none ]

  unfoldable pub get_top_apps_by_network :
      HashOrder → Option ℕ → StorageLayer env → ℕ → ℕ → ℕ → Result Failure (List AppNetworkStats)
  unfolding tx_rx_bytes
  get_top_apps_by_network o clock s start end limit = do
    records ← get_metrics_by_type env clock s MetricType.net start end
    let app_totals = tally app_of tx_rx_bytes (0, 0) add_pair [] records
    ok (take limit (sort_by more_traffic (map network_row (o.order app_totals))))

  unfoldable pub duration : Rec env → Option ℕ
  duration r = elim r.payload [ MetricPayload.foc d ↦ some d.duration_ms | _ ↦ none ]

  unfoldable pub get_top_apps_by_focus :
      HashOrder → Option ℕ → StorageLayer env → ℕ → ℕ → ℕ → Result Failure (List AppFocusStats)
  unfolding duration
  get_top_apps_by_focus o clock s start end limit = do
    records ← get_metrics_by_type env clock s MetricType.foc start end
    let app_totals = tally app_of duration 0 add_u64 [] records
    ok (take limit (sort_by more_focus (map focus_row (o.order app_totals))))

  abbrev pub is_some : {A : Type 0} → Option A → Bool
  is_some none = false
  is_some (some a) = true

  -- Whether a power record is of the state that is asked for.
  abbrev pub in_state : Bool → PowerData env.floats.F32 → Bool
  in_state true d = not d.charging && is_some d.battery_percent
  in_state false d = d.charging

  -- The timestamps of the records in that state; a `HashSet` is asked only what it contains.
  unfoldable pub state_timestamps : Bool → List (Rec env) → List ℕ
  state_timestamps on_battery [] = []
  state_timestamps on_battery (r ∷ rs) =
      let rest = state_timestamps on_battery rs in
      elim r.payload [
        | MetricPayload.pwr d ↦ if in_state on_battery d then r.timestamp ∷ rest else rest
        | _ ↦ rest
      ]

  abbrev pub contains : ℕ → List ℕ → Bool
  contains t [] = false
  contains t (u ∷ us) = let rest = contains t us in if u == t then true else rest

  unfoldable pub passes_filter : Option Bool → List (Rec env) → ℕ → Bool
  unfolding state_timestamps
  passes_filter none pwr_records ts = true
  passes_filter (some on_battery) pwr_records ts =
      contains ts (state_timestamps on_battery pwr_records)

  -- A loop `if passes_filter(record.timestamp) && let .. = record.payload`.
  abbrev pub passing : {A : Type 0} → (ℕ → Bool) → (Payload → Option A) → Rec env → Option A
  passing passes get r = if passes r.timestamp then get r.payload else none

  unfoldable pub cpu_pct : Payload → Option env.floats.F32
  cpu_pct (MetricPayload.cpu d) = some d.cpu_usage_percent
  cpu_pct _ = none

  unfoldable pub gpu_pct : Payload → Option env.floats.F32
  gpu_pct (MetricPayload.gpu_proc d) = d.usage_percent
  gpu_pct _ = none

  unfoldable pub focus_time : Payload → Option ℕ
  focus_time (MetricPayload.foc d) = some d.duration_ms
  focus_time _ = none

  unfoldable pub disk_traffic : Payload → Option ℕ
  disk_traffic (MetricPayload.dsk d) = some (wrap64 (d.read_bytes + d.write_bytes))
  disk_traffic _ = none

  unfoldable pub net_traffic : Payload → Option ℕ
  net_traffic (MetricPayload.net d) = some (wrap64 (d.tx_bytes + d.rx_bytes))
  net_traffic _ = none

  unfoldable pub rss : Payload → Option ℕ
  rss (MetricPayload.mem d) = some d.rss_bytes
  rss _ = none

  abbrev pub add_cpu : Metrics → env.floats.F32 → Metrics
  add_cpu m p = record m { cpu_pcts = m.cpu_pcts ++ p ∷ [] }

  abbrev pub add_gpu : Metrics → env.floats.F32 → Metrics
  add_gpu m p = record m { gpu_pcts = m.gpu_pcts ++ p ∷ [] }

  abbrev pub add_focus : Metrics → ℕ → Metrics
  add_focus m n = record m { focus_ms = wrap64 (m.focus_ms + n) }

  abbrev pub add_disk : Metrics → ℕ → Metrics
  add_disk m n = record m { disk_bytes = wrap64 (m.disk_bytes + n) }

  abbrev pub add_net : Metrics → ℕ → Metrics
  add_net m n = record m { net_bytes = wrap64 (m.net_bytes + n) }

  abbrev pub add_mem : Metrics → ℕ → Metrics
  add_mem m n = record m { mem_rss = m.mem_rss ++ n ∷ [] }

  -- One of the loops that gather the metrics of the applications.
  abbrev pub gather :
      {A : Type 0}
      → (ℕ → Bool)
      → (Payload → Option A)
      → (Metrics → A → Metrics)
      → List (Rec env)
      → List (Bytes × Metrics)
      → List (Bytes × Metrics)
  gather passes get add records m =
      tally app_of (passing passes get) (default_metrics env.floats) add m records

  -- The records of the types that power is shared by.
  pub record Fetched : Type 0 where
    pub cpu_records : List (Rec env)
    pub gpu_records : List (Rec env)
    pub foc_records : List (Rec env)
    pub dsk_records : List (Rec env)
    pub net_records : List (Rec env)
    pub mem_records : List (Rec env)

  unfoldable pub app_metrics : (ℕ → Bool) → Fetched → List (Bytes × Metrics)
  unfolding cpu_pct gpu_pct focus_time disk_traffic net_traffic rss
  app_metrics passes f = gather passes rss add_mem f.mem_records (
      gather passes net_traffic add_net f.net_records (
        gather passes disk_traffic add_disk f.dsk_records (
          gather passes focus_time add_focus f.foc_records (
            gather passes gpu_pct add_gpu f.gpu_records
              (gather passes cpu_pct add_cpu f.cpu_records [])))))

  abbrev pub false_or : Option Bool → Bool
  false_or none = false
  false_or (some b) = b

  -- `(end - start) * 1000` of a release build
  abbrev pub window : ℕ → ℕ → ℕ
  window start end = wrap64 (wrap64 (end + 2 ^ 64 - start) * 1000)

  -- `stat.on_battery = on_battery.unwrap_or(false)`
  abbrev pub set_on_battery :
      Option Bool → AppPowerStats env.floats.F32 → AppPowerStats env.floats.F32
  set_on_battery on_battery stat = record stat { on_battery = false_or on_battery }

  -- What `get_power_stats` makes of the records that it has read.
  unfoldable pub power_stats_of :
      HashOrder → ℕ → Option Bool → List (Rec env) → Fetched → List (AppPowerStats env.floats.F32)
  unfolding app_metrics passes_filter
  power_stats_of o window_ms on_battery pwr_records f = map (set_on_battery on_battery) (
      compute_power_stats env.floats o (app_metrics (passes_filter on_battery pwr_records) f)
        window_ms (extract_rapl_average env pwr_records)
        (extract_freq_ratio_average env pwr_records)
        (extract_display_brightness_average env pwr_records) (extract_is_wifi_last env pwr_records))

  unfoldable pub fetch_power :
      Option ℕ → StorageLayer env → ℕ → ℕ → Result Failure (Fetched × List (Rec env))
  fetch_power clock s start end = do
    cpu_records ← get_metrics_by_type env clock s MetricType.cpu start end
    mem_records ← get_metrics_by_type env clock s MetricType.mem start end
    dsk_records ← get_metrics_by_type env clock s MetricType.dsk start end
    net_records ← get_metrics_by_type env clock s MetricType.net start end
    gpu_records ← get_metrics_by_type env clock s MetricType.gpu_proc start end
    foc_records ← get_metrics_by_type env clock s MetricType.foc start end
    pwr_records ← get_metrics_by_type env clock s MetricType.pwr start end
    ok (
      record {
        cpu_records = cpu_records;
        gpu_records = gpu_records;
        foc_records = foc_records;
        dsk_records = dsk_records;
        net_records = net_records;
        mem_records = mem_records;
      },
      pwr_records,
    )

  unfoldable pub get_power_stats :
      HashOrder
      → Option ℕ
      → StorageLayer env
      → ℕ
      → ℕ
      → Option Bool
      → Result Failure (List (AppPowerStats env.floats.F32))
  unfolding fetch_power power_stats_of
  get_power_stats o clock s start end on_battery =
      let window_ms = window start end in
      if window_ms == 0 then ok [] else (do
        (f, pwr_records) ← fetch_power clock s start end
        ok (power_stats_of o window_ms on_battery pwr_records f))

  unfoldable pub get_top_apps_by_power :
      HashOrder
      → Option ℕ
      → StorageLayer env
      → ℕ
      → ℕ
      → Option Bool
      → ℕ
      → Result Failure (List (AppPowerStats env.floats.F32))
  unfolding get_power_stats
  get_top_apps_by_power o clock s start end on_battery limit = do
    stats ← get_power_stats o clock s start end on_battery
    ok (take limit stats)
