-- ===== src/Tui/Snapshot.antt =====
-- What the terminal application shows: crates/heimwatch-tui/src/data.rs.
use heimwatch.Core.Metrics.{AppNetworkStats, AppFocusStats, AppPowerStats}
use heimwatch.Prelude.{ℕ, Bool, List, Option, Bytes}

pub record AppCpuStats (F32 : Type 0) : Type 0 where
  pub app_name : Bytes
  pub cpu_usage_percent : F32
  pub thread_count : ℕ
  pub cpu_time_ns : ℕ

pub record AppSnapshot (F32 : Type 0) : Type 0 where
  pub cpu_series : List ℕ
  pub mem_series : List ℕ
  pub net_tx_series : List ℕ
  pub net_rx_series : List ℕ
  pub current_cpu_pct : F32
  pub current_ram_mb : ℕ
  pub current_net_tx : ℕ
  pub current_net_rx : ℕ
  pub battery_pct : Option F32
  pub charging : Bool
  pub watt_usage : F32
  pub top_net_apps : List AppNetworkStats
  pub top_focus_apps : List AppFocusStats
  pub top_power_apps : List (AppPowerStats F32)
  pub top_cpu_apps : List (AppCpuStats F32)
