-- ===== src/Storage.antt =====
-- crates/heimwatch-storage/src/db.rs, `StorageLayer`: its state, and what its methods share.
-- What lies outside the repository is the record `Env`: sled, chrono, the floats and serde_json.
-- The files that an export writes are part of the state.
pub mod Write
pub mod Query
pub mod Top
pub mod Tops
pub mod Shared
pub mod Own
pub mod Gathered
pub mod Cleanup
pub mod Groups
pub mod Tiered
pub mod Expiry
pub mod Outcomes
pub mod Export
pub mod Removed
pub mod Conserved
pub mod Tiers
pub mod Stored
pub mod Answers
pub mod Recorded
use mathlib.Core.List.{flat_map}
use heimwatch.Prelude.{
  ℕ, zero, ◌-◌, ◌*◌, ◌+◌, Bool, true, false, ◌≡◌, List, [], ◌∷◌, ◌++◌, map, Option, none, some,
  Bytes, codes, length, u64_max,
}
use heimwatch.Error.{Failure, Result, ok, err, ◌>>=◌}
use heimwatch.Core.Floats.{Floats}
use heimwatch.Core.Metrics.{MetricType, MetricRecord, metric_type, all_metric_types}
use heimwatch.Aggregation.Bucket.{Chrono}
use heimwatch.Sled.{Sled, Entries, BatchOp, Batch}
use heimwatch.Keys.{encode_key, range_start, range_end}

pub record Env : Type 1 where
  pub floats : Floats
  pub chrono : Chrono
  pub sled : Sled
  -- `serde_json::to_vec` and `serde_json::from_slice` of a record, and of a number
  pub to_vec : MetricRecord floats.F32 → Bytes
  pub from_slice : Bytes → Option (MetricRecord floats.F32)
  pub number_to_vec : ℕ → Bytes
  pub number_from_slice : Bytes → Option ℕ

abbrev pub keys : Entries → List Bytes
keys [] = []
keys ((k, v) ∷ l) = k ∷ keys l

abbrev pub removals : List Bytes → Batch
removals = map BatchOp.remove

-- `current_unix_timestamp()?`, of the reading that the clock gives
abbrev pub read_clock : Option ℕ → Result Failure ℕ
read_clock none = err Failure.clock
read_clock (some now) = ok now

unfoldable pub retention_cutoff : ℕ → ℕ → ℕ
retention_cutoff retention_days now = now - retention_days * 86400

module _ (env : Env) where
  abbrev pub Rec : Type 0
  Rec = MetricRecord env.floats.F32

  abbrev pub Tree : Type 0
  Tree = env.sled.Tree

  -- The five trees of the database, and the lines of each file exported so far.
  pub record StorageLayer : Type 0 where
    pub metrics : Tree
    pub meta : Tree
    pub metrics_1d : Tree
    pub metrics_1m : Tree
    pub metrics_1y : Tree
    pub exports : List (List Bytes)

  -- What serde_json promises of a record whose floats are finite.
  abbrev pub Readable : Rec → Type 0
  Readable r = env.from_slice (env.to_vec r) ≡ some r

  abbrev pub key_of : Rec → Bytes
  key_of r = encode_key (metric_type r.payload) r.timestamp r.app_name

  -- `tree.range(range_start(..)..=range_end(..))`
  unfoldable pub scan : Tree → MetricType → ℕ → ℕ → Entries
  scan tree mt start end = env.sled.range tree (range_start mt start) (range_end mt end)

  -- `for item in .. { let record = serde_json::from_slice(&value)?; .. }`
  unfoldable pub decode_all : Entries → Result Failure (List Rec)
  decode_all [] = ok []
  decode_all ((k, v) ∷ l) = elim (env.from_slice v) [
    | none ↦ err Failure.json
    | some r ↦ do rs ← decode_all l; ok (r ∷ rs)
  ]
