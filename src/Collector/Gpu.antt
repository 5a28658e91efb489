-- ===== src/Collector/Gpu.antt =====
-- crates/heimwatch-collector/src/gpu/linux/mod.rs: the collector over the backends, with what each
-- process used since the poll before.
pub mod Sysfs
pub mod Backends
pub mod Detect
pub mod Fdinfo
pub mod Totals
pub mod Order
use heimwatch.Prelude.{
  ℕ, ◌+◌, ◌-◌, Bool, true, false, ◌&&◌, List, [], ◌∷◌, ◌++◌, map, Option, none, some, Bytes, codes,
  eq_bytes, ltb, ◌==◌, if◌then◌else◌, wrap64, saturating_add, ◌%◌, ◌^◌,
}
use heimwatch.Error.{Result, ok, err}
use heimwatch.Keys.Decimal.{to_decimal}
use heimwatch.Core.Floats.{Floats}
use heimwatch.Core.Text.{is_empty}
use heimwatch.Core.Metrics.{MetricPayload, MetricRecord, GpuData, GpuProcessData}
use heimwatch.Core.Files.{FileSystem}
use heimwatch.Apps.{HashOrder, find, entry}
use heimwatch.Collector.Gpu.Backends.{GpuBackend, gpu_index, pci_address, backend_collect}
use heimwatch.Collector.Gpu.Detect.{enumerate_gpus}
use heimwatch.Collector.Gpu.Fdinfo.{ProcessGpuStats, scan_proc_fdinfo}

-- The key of a process on a GPU.
abbrev pub FdinfoKey : Type 0
FdinfoKey = ℕ × Bytes

pub record FdinfoSnapshot : Type 0 where
  pub engine_time : ℕ
  pub total_cycles : ℕ
  pub is_cycles_schema : Bool

abbrev pub default_snapshot : FdinfoSnapshot
default_snapshot = record { engine_time = 0; total_cycles = 0; is_cycles_schema = false }

pub record GpuCollector : Type 0 where
  pub backends : List GpuBackend
  pub prev_fdinfo : List (FdinfoKey × FdinfoSnapshot)

-- `GpuCollector::new`
unfoldable pub new_gpu_collector :
    (Bytes → Option Bytes) → FileSystem → Result (Unit {0}) GpuCollector
unfolding enumerate_gpus
new_gpu_collector read_link fs = elim (enumerate_gpus read_link fs) [
  | err e ↦ err e
  | ok backends ↦ ok (record { backends = backends; prev_fdinfo = [] })
]

abbrev pub same_key : FdinfoKey → FdinfoKey → Bool
same_key (pid, pdev) (pid', pdev') = pid == pid' && eq_bytes pdev pdev'

-- `get(key).copied().unwrap_or_default()`, where the last entry of a key counts: it is inserted last.
unfoldable pub previous : FdinfoKey → List (FdinfoKey × FdinfoSnapshot) → FdinfoSnapshot
previous key [] = default_snapshot
previous key ((k, v) ∷ m) = let rest = previous key m in if same_key k key then v else rest

abbrev pub snapshot_of : ℕ × Bytes × ProcessGpuStats → FdinfoKey × FdinfoSnapshot
snapshot_of (pid, app_name, stats) = (
  (pid, stats.pdev),
  record {
    engine_time = stats.engine_time;
    total_cycles = stats.total_cycles;
    is_cycles_schema = stats.is_cycles_schema;
  },
)

-- The map of the snapshots: what is inserted last stands first.
unfoldable pub snapshots :
    List (FdinfoKey × FdinfoSnapshot)
    → List (ℕ × Bytes × ProcessGpuStats)
    → List (FdinfoKey × FdinfoSnapshot)
snapshots m [] = m
snapshots m (p ∷ ps) = snapshots (snapshot_of p ∷ m) ps

-- The addresses of the backends that have one.
unfoldable pub addresses : List GpuBackend → List (Bytes × ℕ)
addresses [] = []
addresses (b ∷ bs) =
    let rest = addresses bs in
    if is_empty (pci_address b) then rest else (pci_address b, gpu_index b) ∷ rest

-- `collect` into a `HashMap`: the last backend of an address counts.
unfoldable pub pdev_to_index : List (Bytes × ℕ) → List (Bytes × ℕ) → List (Bytes × ℕ)
unfolding entry
pdev_to_index m [] = m
pdev_to_index m ((addr, idx) ∷ rest) = pdev_to_index (entry idx (λ i. idx) addr m) rest

abbrev pub address_of : Bytes × ℕ → Bytes
address_of (addr, idx) = addr

module _ (fl : Floats) where
  open fl use {F32}

  pub record AppGpuAgg : Type 0 where
    pub gpu_index : ℕ
    pub usage_sum : F32
    pub usage_count : ℕ
    pub vram_bytes : ℕ

  abbrev pub default_agg : AppGpuAgg
  default_agg = record {
    gpu_index = 0;
    usage_sum = fl.literal_f32 0 1;
    usage_count = 0;
    vram_bytes = 0;
  }

  -- `(part as f64 / whole as f64 * 100.0) as f32`
  abbrev pub percent : ℕ → ℕ → F32
  percent part whole =
      fl.f32_of_f64
        (fl.mul_f64 (fl.div_f64 (fl.f64_of_u64 part) (fl.f64_of_u64 whole)) (fl.f64_of_u64 100))

  -- The usage since the snapshot: cycles of all cycles, or nanoseconds of the interval.
  unfoldable pub usage_since : ℕ → FdinfoSnapshot → ProcessGpuStats → Option F32
  usage_since interval_ns prev stats =
      if stats.is_cycles_schema
      then (if ltb 0 (stats.total_cycles - prev.total_cycles)
          then some (
              percent (stats.engine_time - prev.engine_time)
                (stats.total_cycles - prev.total_cycles))
          else none)
      else if ltb 0 interval_ns && ltb 0 (stats.engine_time - prev.engine_time)
      then some (percent (stats.engine_time - prev.engine_time) interval_ns)
      else none

  abbrev pub count_usage : Option F32 → AppGpuAgg → AppGpuAgg
  count_usage none agg = agg
  count_usage (some usage) agg = record agg {
    usage_sum = fl.add_f32 agg.usage_sum usage;
    usage_count = (agg.usage_count + 1) % 2 ^ 32;
  }

  abbrev pub index_or : ℕ → Option ℕ → ℕ
  index_or i none = i
  index_or i (some idx) = idx

  -- What a process adds to its application's entry on its GPU.
  unfoldable pub add_process :
      ℕ
      → List (FdinfoKey × FdinfoSnapshot)
      → List (Bytes × ℕ)
      → ℕ × Bytes × ProcessGpuStats
      → AppGpuAgg
      → AppGpuAgg
  unfolding usage_since previous
  add_process interval_ns prev indices (pid, app_name, stats) agg =
      let used =
        count_usage (usage_since interval_ns (previous (pid, stats.pdev) prev) stats) agg in
      record used {
        vram_bytes = saturating_add used.vram_bytes stats.vram_bytes;
        gpu_index = index_or used.gpu_index (find stats.pdev indices);
      }

  abbrev pub same_app : Bytes × Bytes → Bytes × Bytes → Bool
  same_app (app, pdev) (app', pdev') = eq_bytes app app' && eq_bytes pdev pdev'

  -- `by_app_pdev.entry(key).or_default()`, with the change made.
  unfoldable pub agg_entry :
      (AppGpuAgg → AppGpuAgg)
      → Bytes × Bytes
      → List ((Bytes × Bytes) × AppGpuAgg)
      → List ((Bytes × Bytes) × AppGpuAgg)
  agg_entry change k [] = (k, change default_agg) ∷ []
  agg_entry change k ((j, agg) ∷ m) =
      let rest = agg_entry change k m in
      if same_app j k then (j, change agg) ∷ m else (j, agg) ∷ rest

  abbrev pub app_and_pdev : ℕ × Bytes × ProcessGpuStats → Bytes × Bytes
  app_and_pdev (pid, app_name, stats) = (app_name, stats.pdev)

  unfoldable pub by_app_pdev :
      ℕ
      → List (FdinfoKey × FdinfoSnapshot)
      → List (Bytes × ℕ)
      → List ((Bytes × Bytes) × AppGpuAgg)
      → List (ℕ × Bytes × ProcessGpuStats)
      → List ((Bytes × Bytes) × AppGpuAgg)
  unfolding add_process agg_entry
  by_app_pdev interval_ns prev indices m [] = m
  by_app_pdev interval_ns prev indices m (p ∷ ps) =
      by_app_pdev interval_ns prev indices
        (agg_entry (add_process interval_ns prev indices p) (app_and_pdev p) m) ps

  abbrev pub proc_record : ℕ → (Bytes × Bytes) × AppGpuAgg → MetricRecord F32
  proc_record timestamp ((app_name, pdev), agg) = record {
    app_name = app_name;
    timestamp = timestamp;
    payload = MetricPayload.gpu_proc (record {
      gpu_index = agg.gpu_index;
      usage_percent = if ltb 0 agg.usage_count then some agg.usage_sum else none;
      vram_used_bytes = if ltb 0 agg.vram_bytes then some agg.vram_bytes else none;
    });
  }

  abbrev pub gpu_record : ℕ → GpuData F32 → MetricRecord F32
  gpu_record timestamp gpu_data = record {
    app_name = codes "gpu:" ++ to_decimal gpu_data.gpu_index;
    timestamp = timestamp;
    payload = MetricPayload.gpu gpu_data;
  }

  -- One poll: the records and the collector after it. It is given the interval in nanoseconds.
  unfoldable pub collect_gpus :
      HashOrder → FileSystem → ℕ → ℕ → GpuCollector → List (MetricRecord F32) × GpuCollector
  unfolding backend_collect addresses pdev_to_index snapshots by_app_pdev scan_proc_fdinfo
  collect_gpus o fs timestamp interval c =
      let gpus = map (λ b. gpu_record timestamp (backend_collect fl fs b)) c.backends in
      let known = addresses c.backends in
      elim known [
        | [] ↦ (gpus, c)
        | k ∷ ks ↦
            let processes = scan_proc_fdinfo o fs (map address_of (k ∷ ks)) in
            let apps =
              by_app_pdev (wrap64 interval) c.prev_fdinfo (pdev_to_index [] (k ∷ ks)) []
                processes in
            (
              gpus ++ map (proc_record timestamp) (o.order apps),
              record c { prev_fdinfo = snapshots [] processes },
            )
      ]
