-- ===== src/Collector/Power.antt =====
-- crates/heimwatch-collector/src/power/linux.rs: the state of the battery, the adapter, the processor
-- and the display from the files of /sys.
pub mod Route
use heimwatch.Prelude.{
  ℕ, zero, suc, ◌+◌, ◌-◌, Bool, true, false, not, ◌&&◌, ◌||◌, List, [], ◌∷◌, ◌++◌, map, Option,
  none, some, Bytes, codes, eq_bytes, ltb, leb, ◌==◌, if◌then◌else◌, length,
}
use heimwatch.Prelude.Int.{ℤ}
use heimwatch.Error.{Result, ok, err}
use heimwatch.Core.Floats.{Floats, mean_f32}
use heimwatch.Core.Metrics.{MetricPayload, MetricRecord, PowerData}
use heimwatch.Core.Text.{trim, strip_prefix, parse_nat, parse_u32, parse_i64}
use heimwatch.Core.Files.{FileSystem, join_path}
use heimwatch.Keys.Std.{from_utf8}
use heimwatch.Collector.{from_utf8_lossy}
use heimwatch.Collector.Power.Route.{detect_default_interface_is_wifi}

pub record PowerCollector : Type 0 where
  pub battery_path : Option Bytes
  pub ac_path : Option Bytes
  pub rapl_energy_path : Option Bytes
  pub prev_rapl_energy_uj : Option ℕ

-- The first entry of a directory whose file `type` is one of these.
unfoldable pub first_of_type : FileSystem → (Bytes → Bool) → Bytes → List Bytes → Option Bytes
first_of_type fs wanted dir [] = none
first_of_type fs wanted dir (name ∷ names) =
    let path = join_path dir name in
    let rest = first_of_type fs wanted dir names in
    elim (fs.read_to_string (join_path path (codes "type"))) [
      | none ↦ rest
      | some type_str ↦ if wanted (trim type_str) then some (from_utf8_lossy path) else rest
    ]

abbrev pub names_in : Option (List Bytes) → List Bytes
names_in none = []
names_in (some names) = names

abbrev pub is_battery : Bytes → Bool
is_battery s = eq_bytes s (codes "Battery")

abbrev pub is_mains : Bytes → Bool
is_mains s = eq_bytes s (codes "Mains") || eq_bytes s (codes "AC")

unfoldable pub discover_battery_node : FileSystem → Bytes → Option Bytes
unfolding first_of_type
discover_battery_node fs dir = first_of_type fs is_battery dir (names_in (fs.read_dir dir))

unfoldable pub discover_ac_node : FileSystem → Bytes → Option Bytes
unfolding first_of_type
discover_ac_node fs dir = first_of_type fs is_mains dir (names_in (fs.read_dir dir))

abbrev pub rapl_location : Bytes
rapl_location = codes "/sys/class/powercap/intel-rapl/intel-rapl:0/energy_uj"

unfoldable pub discover_rapl_energy_path : FileSystem → Option Bytes
discover_rapl_energy_path fs = if fs.exists rapl_location then some rapl_location else none

abbrev pub is_none : {A : Type 0} → Option A → Bool
is_none none = true
is_none (some a) = false

-- `PowerCollector::new`, which fails where there is neither a battery nor an adapter.
unfoldable pub new_collector : FileSystem → Option PowerCollector
unfolding discover_battery_node discover_ac_node discover_rapl_energy_path
new_collector fs =
    let power_supply_dir = codes "/sys/class/power_supply" in
    let battery_path = discover_battery_node fs power_supply_dir in
    let ac_path = discover_ac_node fs power_supply_dir in
    if is_none battery_path && is_none ac_path
    then none
    else some (record {
      battery_path = battery_path;
      ac_path = ac_path;
      rapl_energy_path = discover_rapl_energy_path fs;
      prev_rapl_energy_uj = none;
    })

-- The content of a file, trimmed and parsed.
unfoldable pub read_sysfs_value : {A : Type 0} → (Bytes → Option A) → FileSystem → Bytes → Option A
read_sysfs_value parse fs path = elim (fs.read_to_string path) [
  | none ↦ none
  | some content ↦ parse (trim content)
]

-- `format!("{}/file", path)`
abbrev pub in_dir : Bytes → Bytes → Bytes
in_dir path file = path ++ (b'/' ∷ file)

unfoldable pub read_ac_online : FileSystem → Bytes → Option Bool
unfolding read_sysfs_value
read_ac_online fs ac_path = elim (read_sysfs_value parse_u32 fs (in_dir ac_path (codes "online"))) [
  | none ↦ none
  | some online ↦ some (not (online == 0))
]

abbrev pub false_or : Option Bool → Bool
false_or none = false
false_or (some b) = b

-- Whether the battery's status says so, or else the adapter is online.
abbrev pub charging : FileSystem → Option Bytes → Option Bytes → Bool
charging fs (some bat_status) ac_path = eq_bytes bat_status (codes "Charging")
charging fs none (some path) = false_or (read_ac_online fs path)
charging fs none none = false

module _ (fl : Floats) where
  open fl use {F32}

  pub record BatteryState : Type 0 where
    pub capacity : Option F32
    pub current_ua : Option ℤ
    pub voltage_uv : Option ℕ
    pub status : Option Bytes

  abbrev pub default_state : BatteryState
  default_state = record { capacity = none; current_ua = none; voltage_uv = none; status = none }

  unfoldable pub read_battery_state : FileSystem → Bytes → BatteryState
  unfolding read_sysfs_value
  read_battery_state fs path = record {
    capacity = read_sysfs_value fl.parse_f32 fs (in_dir path (codes "capacity"));
    current_ua = read_sysfs_value parse_i64 fs (in_dir path (codes "current_now"));
    voltage_uv = read_sysfs_value parse_nat fs (in_dir path (codes "voltage_now"));
    status = read_sysfs_value some fs (in_dir path (codes "status"));
  }

  abbrev pub battery_at : FileSystem → Option Bytes → BatteryState
  battery_at fs none = default_state
  battery_at fs (some path) = read_battery_state fs path

  -- `(cur as f32 / max as f32).clamp(0.0, 1.0)` of two readings, if the largest is not 0.
  abbrev pub ratio_of : Option ℕ → Option ℕ → Option F32
  ratio_of none most = none
  ratio_of (some cur) none = none
  ratio_of (some cur) (some most) =
      if ltb 0 most
      then some (
          fl.clamp_f32 (fl.div_f32 (fl.f32_of_u64 cur) (fl.f32_of_u64 most)) (fl.literal_f32 0 1)
            (fl.literal_f32 10 1))
      else none

  abbrev pub push_ratio : Option F32 → Option (List F32) → Option (List F32)
  push_ratio none rest = rest
  push_ratio (some r) none = none
  push_ratio (some r) (some rs) = some (r ∷ rs)

  -- The ratios of the entries that are wanted. A path that is not UTF-8 ends the function with `None`.
  unfoldable pub ratios :
      (Bytes → Option ℕ)
      → FileSystem
      → Bytes
      → Bytes
      → Bytes
      → (Bytes → Bool)
      → List Bytes
      → Option (List F32)
  ratios parse fs dir cur_file max_file wanted [] = some []
  ratios parse fs dir cur_file max_file wanted (name ∷ names) =
      let path = join_path dir name in
      let rest = ratios parse fs dir cur_file max_file wanted names in
      if wanted name
      then if from_utf8 path
        then push_ratio
            (ratio_of (read_sysfs_value parse fs (join_path path cur_file))
              (read_sysfs_value parse fs (join_path path max_file)))
            rest
        else none
      else rest

  abbrev pub mean_of : Option (List F32) → Option F32
  mean_of none = none
  mean_of (some rs) = mean_f32 fl rs

  abbrev pub is_policy : Bytes → Bool
  is_policy name = not (is_none (strip_prefix (codes "policy") (from_utf8_lossy name)))

  unfoldable pub read_avg_cpu_freq_ratio : FileSystem → Bytes → Option F32
  unfolding ratios read_sysfs_value
  read_avg_cpu_freq_ratio fs dir = mean_of (
      ratios parse_u32 fs dir (codes "scaling_cur_freq") (codes "cpuinfo_max_freq") is_policy
        (names_in (fs.read_dir dir)))

  unfoldable pub read_display_brightness : FileSystem → Bytes → Option F32
  unfolding ratios read_sysfs_value
  read_display_brightness fs dir = mean_of (
      ratios parse_nat fs dir (codes "brightness") (codes "max_brightness") (λ name. true)
        (names_in (fs.read_dir dir)))

  -- `(delta_uj as f64 / 1_000_000.0 / 30.0) as f32`
  abbrev pub watts : ℕ → F32
  watts delta_uj =
      fl.f32_of_f64 (
        fl.div_f64 (fl.div_f64 (fl.f64_of_u64 delta_uj) (fl.f64_of_u64 1000000)) (fl.f64_of_u64 30))

  -- The power since the previous reading, and the reading that is kept.
  unfoldable pub read_rapl_power : FileSystem → Bytes → Option ℕ → Option F32 × Option ℕ
  read_rapl_power fs path prev = elim (read_sysfs_value parse_nat fs path) [
    | none ↦ (none, prev)
    | some energy_uj ↦ (
      elim prev [ none ↦ some (fl.literal_f32 0 1) | some p ↦ some (watts (energy_uj - p)) ],
      some energy_uj,
    )
  ]

  abbrev pub rapl_at : FileSystem → Option Bytes → Option ℕ → Option F32 × Option ℕ
  rapl_at fs none prev = (none, prev)
  rapl_at fs (some path) prev = read_rapl_power fs path prev

  abbrev pub zero_or : Option F32 → F32
  zero_or none = fl.literal_f32 0 1
  zero_or (some w) = w

  -- One poll: the record, or the error of the clock, and the collector after it.
  unfoldable pub collect_power :
      FileSystem
      → Option ℕ
      → PowerCollector
      → Result (Unit {0}) (List (MetricRecord F32)) × PowerCollector
  unfolding read_battery_state read_rapl_power read_ac_online read_avg_cpu_freq_ratio
      read_display_brightness detect_default_interface_is_wifi
  collect_power fs none c = (err tt, c)
  collect_power fs (some timestamp) c =
      let battery = battery_at fs c.battery_path in
      let (rapl_package_watts, kept) = rapl_at fs c.rapl_energy_path c.prev_rapl_energy_uj in
      (
        ok (
            record {
              app_name = codes "system";
              timestamp = timestamp;
              payload = MetricPayload.pwr (record {
                watt_usage = zero_or rapl_package_watts;
                battery_percent = battery.capacity;
                charging = charging fs battery.status c.ac_path;
                rapl_package_watts = rapl_package_watts;
                rapl_core_watts = none;
                battery_current_ua = battery.current_ua;
                battery_voltage_uv = battery.voltage_uv;
                avg_cpu_freq_ratio =
                    read_avg_cpu_freq_ratio fs (codes "/sys/devices/system/cpu/cpufreq");
                display_brightness = read_display_brightness fs (codes "/sys/class/backlight");
                is_wifi =
                    detect_default_interface_is_wifi fs (codes "/proc/net/route")
                      (codes "/sys/class/net");
              });
            }
            ∷ []),
        record c { prev_rapl_energy_uj = kept },
      )
