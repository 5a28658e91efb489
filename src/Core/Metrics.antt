-- ===== src/Core/Metrics.antt =====
-- crates/heimwatch-core/src/metrics.rs: the metric types and records. The type of `f32` is a
-- parameter, `F32`; a `String` is the list of its UTF-8 bytes.
use heimwatch.Prelude.{ℕ, Bool, Option, List, [], ◌∷◌, Bytes, codes}
use heimwatch.Prelude.Int.{ℤ}

pub data MetricType : Type 0 where
  net pwr foc cpu mem dsk gpu gpu_proc : MetricType

-- The order in which every scan over all types goes.
abbrev pub all_metric_types : List MetricType
all_metric_types =
    MetricType.net ∷ MetricType.pwr ∷ MetricType.foc ∷ MetricType.cpu ∷ MetricType.mem
    ∷ MetricType.dsk ∷ MetricType.gpu ∷ MetricType.gpu_proc ∷ []

unfoldable pub prefix : MetricType → Bytes
prefix MetricType.net = codes "net"
prefix MetricType.pwr = codes "pwr"
prefix MetricType.foc = codes "foc"
prefix MetricType.cpu = codes "cpu"
prefix MetricType.mem = codes "mem"
prefix MetricType.dsk = codes "dsk"
prefix MetricType.gpu = codes "gpu"
prefix MetricType.gpu_proc = codes "gpc"

pub record NetworkData : Type 0 where
  pub tx_bytes : ℕ
  pub rx_bytes : ℕ
  pub connections : ℕ

pub record PowerData (F32 : Type 0) : Type 0 where
  pub watt_usage : F32
  pub battery_percent : Option F32
  pub charging : Bool
  pub rapl_package_watts : Option F32
  pub rapl_core_watts : Option F32
  pub battery_current_ua : Option ℤ
  pub battery_voltage_uv : Option ℕ
  pub avg_cpu_freq_ratio : Option F32
  pub display_brightness : Option F32
  pub is_wifi : Option Bool

pub record FocusData : Type 0 where
  pub app_id : Bytes
  pub duration_ms : ℕ

pub record CpuData (F32 : Type 0) : Type 0 where
  pub cpu_time_ns : ℕ
  pub cpu_usage_percent : F32
  pub thread_count : ℕ

pub record MemoryData : Type 0 where
  pub rss_bytes : ℕ
  pub vms_bytes : ℕ
  pub swap_bytes : ℕ
  pub process_count : ℕ

pub record DiskData : Type 0 where
  pub read_bytes : ℕ
  pub write_bytes : ℕ
  pub mount_point : Bytes

pub data GpuVendor : Type 0 where
  nvidia amd intel unknown : GpuVendor

pub record GpuData (F32 : Type 0) : Type 0 where
  pub gpu_index : ℕ
  pub vendor : GpuVendor
  pub name : Bytes
  pub usage_percent : Option F32
  pub vram_used_bytes : Option ℕ
  pub vram_total_bytes : Option ℕ
  pub temperature_celsius : Option F32
  pub power_draw_watts : Option F32
  pub core_clock_mhz : Option ℕ
  pub memory_clock_mhz : Option ℕ

pub record GpuProcessData (F32 : Type 0) : Type 0 where
  pub gpu_index : ℕ
  pub usage_percent : Option F32
  pub vram_used_bytes : Option ℕ

pub data MetricPayload (F32 : Type 0) : Type 0 where
  net : NetworkData → MetricPayload F32
  pwr : PowerData F32 → MetricPayload F32
  foc : FocusData → MetricPayload F32
  cpu : CpuData F32 → MetricPayload F32
  mem : MemoryData → MetricPayload F32
  dsk : DiskData → MetricPayload F32
  gpu : GpuData F32 → MetricPayload F32
  gpu_proc : GpuProcessData F32 → MetricPayload F32

unfoldable pub metric_type : {F32 : Type 0} → MetricPayload F32 → MetricType
metric_type (MetricPayload.net d) = MetricType.net
metric_type (MetricPayload.pwr d) = MetricType.pwr
metric_type (MetricPayload.foc d) = MetricType.foc
metric_type (MetricPayload.cpu d) = MetricType.cpu
metric_type (MetricPayload.mem d) = MetricType.mem
metric_type (MetricPayload.dsk d) = MetricType.dsk
metric_type (MetricPayload.gpu d) = MetricType.gpu
metric_type (MetricPayload.gpu_proc d) = MetricType.gpu_proc

pub record MetricRecord (F32 : Type 0) : Type 0 where
  pub app_name : Bytes
  pub timestamp : ℕ
  pub payload : MetricPayload F32

pub record AppNetworkStats : Type 0 where
  pub app_name : Bytes
  pub tx_bytes : ℕ
  pub rx_bytes : ℕ

pub record AppFocusStats : Type 0 where
  pub app_name : Bytes
  pub total_duration_ms : ℕ

pub record AppPowerStats (F32 : Type 0) : Type 0 where
  pub app_name : Bytes
  pub power_pct : F32
  pub power_score : F32
  pub on_battery : Bool
  pub cpu_contribution : F32
  pub gpu_contribution : F32
  pub display_contribution : F32
  pub disk_contribution : F32
  pub net_contribution : F32
  pub mem_contribution : F32
