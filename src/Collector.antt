-- ===== src/Collector.antt =====
-- crates/heimwatch-collector/src/util.rs, network/linux.rs, cpu/linux.rs and disk/linux.rs: the name
-- of a process from the kernel's bytes, and the records of one poll of a map. The map's entries, each
-- of which may fail to be read, are an argument; a `HashMap` by name is a list in which the latest
-- entry counts.
pub mod Names
pub mod Polls
pub mod Deltas
pub mod Gpu
pub mod Loop
pub mod Memory
pub mod Usage
pub mod Status
pub mod Power
use heimwatch.Prelude.{
  ℕ, ◌+◌, ◌-◌, ◌*◌, min, u64_max, Bool, true, false, ◌&&◌, ◌||◌, List, [], ◌∷◌, ◌++◌, Option, none,
  some, Bytes, codes, eq_bytes, ltb, leb, ◌==◌, if◌then◌else◌,
}
use heimwatch.Error.{Result, ok, err}
use heimwatch.Apps.{find}
use heimwatch.Core.Floats.{Floats}
use heimwatch.Core.Metrics.{MetricPayload, MetricRecord}
use heimwatch.Keys.Std.{following}

-- The errors of a poll: the clock, the map, and one of its entries.
pub data PollError : Type 0 where
  clock map_not_found map_error : PollError

-- The bytes before the first zero, or all.
unfoldable pub before_zero : Bytes → Bytes
before_zero [] = []
before_zero (b ∷ s) = let rest = before_zero s in if b == 0 then [] else b ∷ rest

-- U+FFFD in UTF-8.
abbrev pub replacement : Bytes
replacement = 0xef ∷ 0xbf ∷ 0xbd ∷ []

-- What a byte at the start of a character leads to: `next` is the rest of the text, from what
-- must follow and what has been read of the character.
abbrev pub first_byte : ℕ → (List (ℕ × ℕ) → Bytes → Bytes) → Bytes
first_byte b next = elim (following b) [
  | none ↦ replacement ++ next [] []
  | some [] ↦ b ∷ next [] []
  | some (r ∷ rs) ↦ next (r ∷ rs) (b ∷ [])
]

abbrev pub next_byte : ℕ → List (ℕ × ℕ) → Bytes → (List (ℕ × ℕ) → Bytes → Bytes) → Bytes
next_byte b [] read next = (read ++ b ∷ []) ++ next [] []
next_byte b (r ∷ rs) read next = next (r ∷ rs) (read ++ b ∷ [])

-- `String::from_utf8_lossy`: a character that breaks off becomes one replacement character, and the
-- byte that breaks it is read again.
unfoldable pub lossy_from : List (ℕ × ℕ) → Bytes → Bytes → Bytes
lossy_from [] read [] = []
lossy_from (r ∷ rs) read [] = replacement
lossy_from [] read (b ∷ s) = first_byte b (λ rs p. lossy_from rs p s)
lossy_from ((lo, hi) ∷ rs) read (b ∷ s) = elim (leb lo b && leb b hi) [
  | true ↦ next_byte b rs read (λ qs p. lossy_from qs p s)
  | false ↦ replacement ++ first_byte b (λ qs p. lossy_from qs p s)
]

unfoldable pub from_utf8_lossy : Bytes → Bytes
unfolding lossy_from
from_utf8_lossy = lossy_from [] []

abbrev pub non_empty : Bytes → Option Bytes
non_empty [] = none
non_empty (b ∷ s) = some (from_utf8_lossy (b ∷ s))

unfoldable pub comm_to_string : Bytes → Option Bytes
unfolding before_zero
comm_to_string comm = non_empty (before_zero comm)

abbrev pub name_or_unknown : Option Bytes → Bytes
name_or_unknown none = codes "(unknown)"
name_or_unknown (some s) = s

-- The previous snapshot: by name, what an entry of the map held.
abbrev pub Snapshot : Type 0 → Type 0
Snapshot V = List (Bytes × V)

-- An entry of the map: the process's field and its counters, or an error of the read.
abbrev pub Entry : Type 0 → Type 0
Entry S = Option (Bytes × S)

-- The loop that the collectors share, with the records so far and the new state: `value` is what is
-- remembered of an entry's counters, and `delta` the records for a name, from what was remembered.
unfoldable pub poll_entries :
    {S V R : Type 0}
    → (S → V)
    → (Bytes → Option V → S → List R)
    → Snapshot V
    → List (Entry S)
    → List R
    → Snapshot V
    → Result PollError (List R × Snapshot V)
poll_entries value delta prev_state [] records new_state = ok (records, new_state)
poll_entries value delta prev_state (none ∷ l) records new_state = err PollError.map_error
poll_entries value delta prev_state (some (comm, local_stats) ∷ l) records new_state =
    let app_name = name_or_unknown (comm_to_string comm) in
    poll_entries value delta prev_state l
      (records ++ delta app_name (find app_name prev_state) local_stats)
      ((app_name, value local_stats) ∷ new_state)

-- The state is replaced only by a poll that succeeds.
abbrev pub polled :
    {V R : Type 0}
    → Snapshot V
    → Result PollError (List R × Snapshot V)
    → Result PollError (List R) × Snapshot V
polled prev_state (err e) = (err e, prev_state)
polled prev_state (ok (records, new_state)) = (ok records, new_state)

-- A poll: of the clock, then of the map, then of its entries.
unfoldable pub collect :
    {S V R : Type 0}
    → (S → V)
    → (ℕ → Bytes → Option V → S → List R)
    → Option ℕ
    → Option (List (Entry S))
    → Snapshot V
    → Result PollError (List R) × Snapshot V
unfolding poll_entries
collect value delta none map prev_state = (err PollError.clock, prev_state)
collect value delta (some timestamp) none prev_state = (err PollError.map_not_found, prev_state)
collect value delta (some timestamp) (some entries) prev_state =
    polled prev_state (poll_entries value (delta timestamp) prev_state entries [] [])

pub record LocalPidNetStats : Type 0 where
  pub tx_bytes : ℕ
  pub rx_bytes : ℕ
  pub comm : Bytes

pub record LocalPidCpuStats : Type 0 where
  pub cpu_time_ns : ℕ
  pub last_sched_in_ns : ℕ

pub record LocalPidDiskStats : Type 0 where
  pub read_bytes : ℕ
  pub write_bytes : ℕ

abbrev pub pair_or_zero : Option (ℕ × ℕ) → ℕ × ℕ
pair_or_zero none = (0, 0)
pair_or_zero (some p) = p

abbrev pub or_zero : Option ℕ → ℕ
or_zero none = 0
or_zero (some n) = n

abbrev pub tx_rx : LocalPidNetStats → ℕ × ℕ
tx_rx local_stats = (local_stats.tx_bytes, local_stats.rx_bytes)

abbrev pub read_write : LocalPidDiskStats → ℕ × ℕ
read_write local_stats = (local_stats.read_bytes, local_stats.write_bytes)

abbrev pub cpu_time : LocalPidCpuStats → ℕ
cpu_time local_stats = local_stats.cpu_time_ns

module _ (fl : Floats) where
  abbrev pub Rec : Type 0
  Rec = MetricRecord fl.F32

  -- The record of a name, if there was traffic.
  unfoldable pub net_delta : ℕ → Bytes → Option (ℕ × ℕ) → LocalPidNetStats → List Rec
  net_delta timestamp app_name prev local_stats =
      let (prev_tx, prev_rx) = pair_or_zero prev in
      let tx_delta = local_stats.tx_bytes - prev_tx in
      let rx_delta = local_stats.rx_bytes - prev_rx in
      if ltb 0 tx_delta || ltb 0 rx_delta
      then record {
        app_name = app_name;
        timestamp = timestamp;
        payload =
            MetricPayload.net
              (record { tx_bytes = tx_delta; rx_bytes = rx_delta; connections = 0 });
      }
        ∷ []
      else []

  unfoldable pub collect_network :
      Option ℕ
      → Option (List (Entry LocalPidNetStats))
      → Snapshot (ℕ × ℕ)
      → Result PollError (List Rec) × Snapshot (ℕ × ℕ)
  unfolding collect net_delta
  collect_network = collect tx_rx net_delta

  -- `(delta_ns as f64 / total_capacity_ns as f64 * 100.0) as f32`
  abbrev pub cpu_usage : ℕ → ℕ → fl.F32
  cpu_usage delta_ns total_capacity_ns =
      if ltb 0 total_capacity_ns
      then fl.f32_of_f64 (
          fl.mul_f64 (fl.div_f64 (fl.f64_of_u64 delta_ns) (fl.f64_of_u64 total_capacity_ns))
            (fl.f64_of_u64 100))
      else fl.zero_f32

  -- The loop over `IGNORED_PROCESSES` continues only itself, so every name goes on to here.
  unfoldable pub cpu_delta : ℕ → ℕ → Bytes → Option ℕ → LocalPidCpuStats → List Rec
  cpu_delta total_capacity_ns timestamp app_name prev local_stats =
      let delta_ns = local_stats.cpu_time_ns - or_zero prev in
      if ltb 0 delta_ns
      then record {
        app_name = app_name;
        timestamp = timestamp;
        payload = MetricPayload.cpu (record {
          cpu_time_ns = delta_ns;
          cpu_usage_percent = cpu_usage delta_ns total_capacity_ns;
          thread_count = 1;
        });
      }
        ∷ []
      else []

  -- `interval_ns.saturating_mul(self.num_cores)`
  unfoldable pub collect_cpu :
      ℕ
      → ℕ
      → Option ℕ
      → Option (List (Entry LocalPidCpuStats))
      → Snapshot ℕ
      → Result PollError (List Rec) × Snapshot ℕ
  unfolding collect cpu_delta
  collect_cpu num_cores interval_ns =
      collect cpu_time (cpu_delta (min (interval_ns * num_cores) u64_max))

  unfoldable pub disk_delta : ℕ → Bytes → Option (ℕ × ℕ) → LocalPidDiskStats → List Rec
  disk_delta timestamp app_name prev local_stats =
      let (prev_r, prev_w) = pair_or_zero prev in
      let delta_r = local_stats.read_bytes - prev_r in
      let delta_w = local_stats.write_bytes - prev_w in
      if ltb 0 delta_r || ltb 0 delta_w
      then record {
        app_name = app_name;
        timestamp = timestamp;
        payload =
            MetricPayload.dsk
              (record { read_bytes = delta_r; write_bytes = delta_w; mount_point = [] });
      }
        ∷ []
      else []

  -- `prev_read` and `prev_write` are filled together, and are one snapshot of pairs here.
  unfoldable pub collect_disk :
      Option ℕ
      → Option (List (Entry LocalPidDiskStats))
      → Snapshot (ℕ × ℕ)
      → Result PollError (List Rec) × Snapshot (ℕ × ℕ)
  unfolding collect disk_delta
  collect_disk = collect read_write disk_delta
