-- ===== src/Storage/Groups.antt =====
-- The groups of an aggregation in crates/heimwatch-storage/src/db.rs: a
-- `BTreeMap<(u64, String), Vec<MetricRecord>>`, as a list in the order of its keys.
use mathlib.Core.List.{foldl}
use heimwatch.Prelude.{
  ℕ, ◌+◌, Bool, true, ◌&&◌, List, [], ◌∷◌, ◌++◌, Option, none, some, Bytes, ltb, ◌==◌,
  if◌then◌else◌, eq_bytes, le_bytes,
}
use heimwatch.Core.Metrics.{MetricType}
use heimwatch.Aggregation.{aggregate_records}
use heimwatch.Sled.{BatchOp, Batch}
use heimwatch.Keys.{encode_key}
use heimwatch.Storage.{Env, Rec}

abbrev pub Groups : Env → Type 0
Groups env = List ((ℕ × Bytes) × List (Rec env))

-- The order of the map's keys, and their equality.
abbrev pub before : ℕ × Bytes → ℕ × Bytes → Bool
before (a, x) (b, y) = if ltb a b then true else (a == b) && le_bytes x y

abbrev pub same_group : ℕ × Bytes → ℕ × Bytes → Bool
same_group (a, x) (b, y) = (a == b) && eq_bytes x y

module _ (env : Env) where
  -- `groups.entry(key).or_default().push(record)`
  unfoldable pub push : ℕ × Bytes → Rec env → Groups env → Groups env
  push key r [] = (key, r ∷ []) ∷ []
  push key r ((k, rs) ∷ groups) =
      let rest = push key r groups in
      if same_group k key
      then (k, rs ++ r ∷ []) ∷ groups
      else if before key k
      then (key, r ∷ []) ∷ (k, rs) ∷ groups
      else (k, rs) ∷ rest

  unfoldable pub push_record : (ℕ → ℕ) → Groups env → Rec env → Groups env
  unfolding push
  push_record bucket groups r = push (bucket r.timestamp, r.app_name) r groups

  unfoldable pub group_records : (ℕ → ℕ) → List (Rec env) → Groups env
  unfolding push_record
  group_records bucket = foldl (push_record bucket) []

  -- `aggregate_records(&records, records[0].timestamp)`; a group is never empty
  unfoldable pub aggregate_group : List (Rec env) → Option (Rec env)
  aggregate_group [] = none
  aggregate_group (r ∷ rs) = aggregate_records env.floats (r ∷ rs) r.timestamp

  -- The batch of a type's aggregates, and how many there are.
  unfoldable pub aggregate_batch : MetricType → Groups env → Batch × ℕ
  unfolding aggregate_group
  aggregate_batch mt [] = ([], 0)
  aggregate_batch mt (((bucket, app_name), records) ∷ groups) =
      let (batch, written) = aggregate_batch mt groups in
      elim (aggregate_group records) [
        | none ↦ (batch, written)
        | some agg ↦ (
          BatchOp.insert (encode_key mt agg.timestamp app_name) (env.to_vec agg) ∷ batch,
          written + 1,
        )
      ]
