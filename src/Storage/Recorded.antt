-- ===== src/Storage/Recorded.antt =====
-- From crates/heimwatch-daemon/src/lib.rs, `persist_event`, to the queries of
-- crates/heimwatch-storage/src/db.rs: what the daemon records is found again.
use heimwatch.Prelude.{
  ℕ, ◌≤◌, ◌≡◌, refl, ◌∙◌, true, List, Option, arith, u64_max, eq_bytes_refl, ltb, Bool-cases, inl,
  inr, codes, le_bytes,
}
use heimwatch.Error.{ok}
use heimwatch.Core.Metrics.{metric_type}
use heimwatch.Sled.Entries.{In}
use heimwatch.Storage.{Env, Rec, StorageLayer, Readable, key_of}
use heimwatch.Storage.Write.{CollectorEvent, persist_event, insert_metric}
use heimwatch.Storage.Query.{get_metrics_by_type}
use heimwatch.Storage.Stored.{visible, Stored, IsWellFormed, insert_metric-IsWellFormed}
use heimwatch.Storage.Answers.{InOrder, query_exact}

module _ (env : Env) where
  Stored-insert_metric :
      (r : Rec env) (s : StorageLayer env)
      → Readable env r
      → Stored env (insert_metric env r s).metrics r
  unfolding insert_metric
  Stored-insert_metric r s readable = (
    env.to_vec r,
    env.sled.get-insert s.metrics (key_of env r) (env.to_vec r) (key_of env r)
        ∙ rw (eq_bytes_refl (key_of env r)) refl,
    readable,
  )

  abbrev pub record_of : CollectorEvent env.floats.F32 → Rec env
  record_of event = record {
    app_name = event.app_name;
    timestamp = event.timestamp;
    payload = event.payload;
  }

  visible-inside :
      (r : Rec env) (start end : ℕ)
      → start ≤ r.timestamp
      → r.timestamp ≤ end
      → (r.timestamp ≡ end → le_bytes r.app_name (codes "~") ≡ true)
      → visible (metric_type r.payload) start end r ≡ true
  visible-inside r start end h k last = elim (Bool-cases (ltb r.timestamp end)) [
    | inl before ↦ ground arith
    | inr not_before ↦ let same : r.timestamp ≡ end = ground arith in ground (arith, last same)
  ]

  -- An event that the daemon persists in a well-formed storage layer, which serde_json can read back,
  -- is among the answers of a query of its type whose range, in `u64`, holds its timestamp, both ends
  -- included; at the end itself, if its name does not sort after `~`. The query succeeds, and answers
  -- in order of time.
  pub get_metrics_by_type-persist_event :
      (clock : Option ℕ) (s : StorageLayer env) (event : CollectorEvent env.floats.F32)
      (start end : ℕ)
      → Readable env (record_of event)
      → start ≤ event.timestamp
      → event.timestamp ≤ end
      → (event.timestamp ≡ end → le_bytes event.app_name (codes "~") ≡ true)
      → end ≤ u64_max
      → IsWellFormed env s.metrics
      → (rs : List (Rec env)) × (get_metrics_by_type env clock
            (persist_event env event s)
            (metric_type event.payload)
            start
            end
          ≡ ok rs)
        × InOrder env rs
        × In (record_of event) rs
  unfolding persist_event
  get_metrics_by_type-persist_event clock s event start end readable low high last small wf =
      let r : Rec env = record_of event in
      let stored = Stored-insert_metric r s readable in
      let seen = visible-inside r start end low high last in
      let (rs, answer, order, exact) =
        query_exact env clock (insert_metric env r s) (metric_type event.payload) start end
          (omega arith) small (insert_metric-IsWellFormed env r s readable (omega arith) wf) r
          stored seen in
      (rs, answer, order, (exact r).1 (stored, seen))
