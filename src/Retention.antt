-- ===== src/Retention.antt =====
-- crates/heimwatch-storage/src/retention.rs: the retention settings, their defaults, and the
-- reports of a cleanup. A directory is the bytes of its path.
use heimwatch.Prelude.{ℕ, Bool, false, List, Option, none, Bytes}
use heimwatch.Core.Metrics.{MetricType}

pub record RetentionConfig : Type 0 where
  pub cpu_days : ℕ
  pub net_days : ℕ
  pub pwr_days : ℕ
  pub foc_days : ℕ
  pub mem_days : ℕ
  pub dsk_days : ℕ
  pub gpu_days : ℕ
  pub gpu_proc_days : ℕ
  pub cleanup_interval_hours : ℕ
  pub export_before_delete : Bool
  pub export_dir : Option Bytes

abbrev pub default_retention_days : ℕ
default_retention_days = 7

abbrev pub default_cleanup_interval : ℕ
default_cleanup_interval = 24

abbrev pub default_retention : RetentionConfig
default_retention = record {
  cpu_days = 7;
  net_days = 7;
  pwr_days = 7;
  foc_days = 7;
  mem_days = 7;
  dsk_days = 7;
  gpu_days = 7;
  gpu_proc_days = 7;
  cleanup_interval_hours = 24;
  export_before_delete = false;
  export_dir = none;
}

unfoldable pub retention_days_for : RetentionConfig → MetricType → ℕ
retention_days_for c MetricType.cpu = c.cpu_days
retention_days_for c MetricType.net = c.net_days
retention_days_for c MetricType.pwr = c.pwr_days
retention_days_for c MetricType.foc = c.foc_days
retention_days_for c MetricType.mem = c.mem_days
retention_days_for c MetricType.dsk = c.dsk_days
retention_days_for c MetricType.gpu = c.gpu_days
retention_days_for c MetricType.gpu_proc = c.gpu_proc_days

-- The export's file is kept in the model's state; the report says whether there is one.
pub record CleanupReport : Type 0 where
  pub deleted_count : ℕ
  pub exported_count : ℕ
  pub export_path : Option Bytes

pub record StorageStats : Type 0 where
  pub db_size_bytes : ℕ
  pub record_counts : List (MetricType × ℕ)
  pub total_records : ℕ

pub record TieredRetentionConfig : Type 0 where
  pub raw_hours : ℕ
  pub daily_keep_days : ℕ
  pub monthly_keep_months : ℕ
  pub yearly_keep_years : ℕ
  pub cleanup_interval_hours : ℕ
  pub export_before_delete : Bool
  pub export_dir : Option Bytes

abbrev pub default_raw_hours : ℕ
default_raw_hours = 24

abbrev pub default_daily_keep_days : ℕ
default_daily_keep_days = 31

abbrev pub default_monthly_keep_months : ℕ
default_monthly_keep_months = 12

abbrev pub default_yearly_keep_years : ℕ
default_yearly_keep_years = 7

abbrev pub default_tiered : TieredRetentionConfig
default_tiered = record {
  raw_hours = 24;
  daily_keep_days = 31;
  monthly_keep_months = 12;
  yearly_keep_years = 7;
  cleanup_interval_hours = 24;
  export_before_delete = false;
  export_dir = none;
}

pub record TieredCleanupReport : Type 0 where
  pub raw_aggregated : ℕ
  pub raw_deleted : ℕ
  pub daily_aggregated : ℕ
  pub daily_deleted : ℕ
  pub monthly_aggregated : ℕ
  pub monthly_deleted : ℕ
  pub yearly_deleted : ℕ
  pub exported_count : ℕ
  pub export_path : Option Bytes
