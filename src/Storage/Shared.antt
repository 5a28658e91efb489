-- ===== src/Storage/Shared.antt =====
-- What `get_power_stats` of crates/heimwatch-storage/src/db.rs reports: the applications, from their
-- own records that pass the filter, and the order.
use mathlib.Core.List.{Perm}
use mathlib.Core.List.Perm
use heimwatch.Prelude.{ℕ, Bool, List, Option, none, Bytes}
use heimwatch.Core.Metrics.{AppPowerStats}
use heimwatch.Apps.{HashOrder}
use heimwatch.Apps.Tables.{chosen, filled}
use heimwatch.Power.{default_metrics}
use heimwatch.Power.Shares.{stat_of}
use heimwatch.Storage.{Env, Rec}
use heimwatch.Storage.Query.{
  extract_rapl_average, extract_freq_ratio_average, extract_display_brightness_average,
  extract_is_wifi_last,
}
use heimwatch.Storage.Top.{
  Metrics, Fetched, app_of, passing, cpu_pct, gpu_pct, focus_time, disk_traffic, net_traffic, rss,
  add_cpu, add_gpu, add_focus, add_disk, add_net, add_mem, app_metrics, passes_filter, window,
  set_on_battery, Payload,
}

module _ (env : Env) where
  -- What one loop adds to the metrics of an application.
  abbrev own :
      {A : Type 0}
      → (ℕ → Bool)
      → Bytes
      → (Payload env → Option A)
      → (Metrics env → A → Metrics env)
      → List (Rec env)
      → Option (Metrics env)
      → Option (Metrics env)
  own passes app get add records old =
      filled (default_metrics env.floats) add old
        (chosen (app_of env) (passing env passes get) app records)

  -- The metrics of an application, from its own records alone.
  abbrev own_metrics : (ℕ → Bool) → Fetched env → Bytes → Option (Metrics env)
  own_metrics passes f app = own passes app (rss env) (add_mem env) f.mem_records (
      own passes app (net_traffic env) (add_net env) f.net_records (
        own passes app (disk_traffic env) (add_disk env) f.dsk_records (
          own passes app (focus_time env) (add_focus env) f.foc_records (
            own passes app (gpu_pct env) (add_gpu env) f.gpu_records
              (own passes app (cpu_pct env) (add_cpu env) f.cpu_records none)))))

  module _ (o : HashOrder) (start end : ℕ) (on_battery : Option Bool) (f : Fetched env)
      (pwr_records : List (Rec env)) where
    abbrev tallied : List (Bytes × Metrics env)
    tallied = app_metrics env (passes_filter env on_battery pwr_records) f

    -- The statistics of an application, by its metrics.
    abbrev stat_row : Bytes × Metrics env → AppPowerStats env.floats.F32
    stat_row e = set_on_battery env on_battery (
        stat_of env.floats o tallied (window env start end) (extract_rapl_average env pwr_records)
          (extract_freq_ratio_average env pwr_records)
          (extract_display_brightness_average env pwr_records)
          (extract_is_wifi_last env pwr_records) e)
