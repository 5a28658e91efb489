-- ===== src/Storage/Write.antt =====
-- The writing methods of `StorageLayer` in crates/heimwatch-storage/src/db.rs, the metadata, and
-- `persist_event` of crates/heimwatch-daemon/src/lib.rs.
use mathlib.Core.List.{foldl}
use heimwatch.Prelude.{
  ℕ, ◌≡◌, refl, List, [], ◌∷◌, map, Option, none, some, Bytes, codes, eq_bytes, if◌then◌else◌, ◌∙◌,
  ap, sym,
}
use heimwatch.Error.{Failure, Result, ok, err}
use heimwatch.Core.Metrics.{MetricPayload, metric_type}
use heimwatch.Sled.{BatchOp, after_batch}
use heimwatch.Keys.{encode_key}
use heimwatch.Storage.{Env, Rec, StorageLayer, Tree, key_of}

abbrev pub meta_last_cleanup : Bytes
meta_last_cleanup = codes "meta:last_cleanup"

abbrev pub config_retention_days : Bytes
config_retention_days = codes "config:retention_days"

module _ (env : Env) where
  unfoldable pub insert_metric : Rec env → StorageLayer env → StorageLayer env
  insert_metric r s =
      let key = encode_key (metric_type r.payload) r.timestamp r.app_name in
      record s { metrics = env.sled.insert key (env.to_vec r) s.metrics }

  unfoldable pub batch_insert : Rec env → BatchOp
  batch_insert r =
      BatchOp.insert (encode_key (metric_type r.payload) r.timestamp r.app_name) (env.to_vec r)

  unfoldable pub insert_metrics_batch : List (Rec env) → StorageLayer env → StorageLayer env
  unfolding batch_insert
  insert_metrics_batch records s = record s {
    metrics = env.sled.apply_batch (map batch_insert records) s.metrics;
  }

  unfoldable pub insert_focus_event : Bytes → ℕ → ℕ → StorageLayer env → StorageLayer env
  insert_focus_event app_name duration_ms timestamp = insert_metric (record {
    app_name = app_name;
    timestamp = timestamp;
    payload = MetricPayload.foc (record { app_id = app_name; duration_ms = duration_ms });
  })

  unfoldable pub set_retention_days : ℕ → StorageLayer env → StorageLayer env
  set_retention_days days s = record s {
    meta = env.sled.insert config_retention_days (env.number_to_vec days) s.meta;
  }

  unfoldable pub set_last_cleanup_ts : ℕ → StorageLayer env → StorageLayer env
  set_last_cleanup_ts ts s = record s {
    meta = env.sled.insert meta_last_cleanup (env.number_to_vec ts) s.meta;
  }

  -- `parse` is `serde_json::from_slice` at the type that is asked for
  unfoldable pub get_metadata :
      {T : Type 0} → (Bytes → Option T) → Tree env → Bytes → T → Result Failure T
  get_metadata parse tree key default = elim (env.sled.get tree key) [
    | none ↦ ok default
    | some v ↦ elim (parse v) [ none ↦ err Failure.json | some n ↦ ok n ]
  ]

  unfoldable pub get_retention_days : StorageLayer env → Result Failure ℕ
  unfolding get_metadata
  get_retention_days s = get_metadata env.number_from_slice s.meta config_retention_days 7

  abbrev optional : Bytes → Option (Option ℕ)
  optional v = elim (env.number_from_slice v) [ none ↦ none | some n ↦ some (some n) ]

  unfoldable pub get_last_cleanup_ts : StorageLayer env → Result Failure (Option ℕ)
  unfolding get_metadata
  get_last_cleanup_ts s = get_metadata optional s.meta meta_last_cleanup none

-- crates/heimwatch-core/src/lib.rs
pub record CollectorEvent (F32 : Type 0) : Type 0 where
  pub app_name : Bytes
  pub payload : MetricPayload F32
  pub timestamp : ℕ

module _ (env : Env) where
  unfoldable pub persist_event : CollectorEvent env.floats.F32 → StorageLayer env → StorageLayer env
  persist_event event =
      insert_metric env
        (record { app_name = event.app_name; timestamp = event.timestamp; payload = event.payload })

  -- What is stored under a key after some records were inserted: the last of them with that key.
  abbrev pub latest : Bytes → List (Rec env) → Option Bytes → Option Bytes
  latest k [] old = old
  latest k (r ∷ rs) old =
      latest k rs (if eq_bytes (key_of env r) k then some (env.to_vec r) else old)

  get-insert_metric :
      (r : Rec env) (s : StorageLayer env) (k : Bytes)
      → env.sled.get (insert_metric env r s).metrics k
        ≡ (if eq_bytes (key_of env r) k then some (env.to_vec r) else env.sled.get s.metrics k)
  unfolding insert_metric
  get-insert_metric r s k = env.sled.get-insert s.metrics (key_of env r) (env.to_vec r) k

  abbrev pub insert_each : List (Rec env) → StorageLayer env → StorageLayer env
  insert_each rs s = foldl (λ t r. insert_metric env r t) s rs

  get-insert_each :
      (rs : List (Rec env)) (s : StorageLayer env) (k : Bytes)
      → env.sled.get (insert_each rs s).metrics k ≡ latest k rs (env.sled.get s.metrics k)
  get-insert_each [] s k = refl
  get-insert_each (r ∷ rs) s k =
      get-insert_each rs (insert_metric env r s) k ∙ ap (latest k rs) (get-insert_metric r s k)

  after_batch-inserts :
      (rs : List (Rec env)) (k : Bytes) (old : Option Bytes)
      → after_batch k (map (batch_insert env) rs) old ≡ latest k rs old
  unfolding batch_insert
  after_batch-inserts [] k old = refl
  after_batch-inserts (r ∷ rs) k old = after_batch-inserts rs k _

  -- A batch stores, under every key, what the inserts one after the other store.
  pub get-insert_metrics_batch :
      (rs : List (Rec env)) (s : StorageLayer env) (k : Bytes)
      → env.sled.get (insert_metrics_batch env rs s).metrics k
        ≡ env.sled.get (insert_each rs s).metrics k
  unfolding insert_metrics_batch
  get-insert_metrics_batch rs s k =
      env.sled.get-apply_batch s.metrics (map (batch_insert env) rs) k
      ∙ after_batch-inserts rs k (env.sled.get s.metrics k)
      ∙ sym (get-insert_each rs s k)
