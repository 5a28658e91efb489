-- ===== src/Storage/Conserved.antt =====
-- What an aggregation of crates/heimwatch-storage/src/db.rs writes for one type: a record for each
-- group, and no counter is lost.
use mathlib.Core.List.{foldl}
use heimwatch.Prelude.{
  ℕ, ◌+◌, ◌≡◌, ◌≢◌, refl, ap, sym, ◌∙◌, true, List, [], ◌∷◌, ◌++◌, map, some, arith, Bytes, wrap64,
  All, length, eq_bytes_iff, Bool-cases, inl, inr,
}
use heimwatch.Core.Metrics.{MetricType, metric_type}
use heimwatch.Aggregation.{aggregate_records}
use heimwatch.Aggregation.Counters.{counter, second_counter, total, total-append}
use heimwatch.Aggregation.Totals.{aggregate_records_lem}
use heimwatch.Sled.{Batch}
use heimwatch.Storage.{Env, Rec}
use heimwatch.Storage.Write.{batch_insert}
use heimwatch.Storage.Groups.{
  Groups, push, push_record, group_records, aggregate_group, aggregate_batch, before, same_group,
}

All-map :
    {A : Type 0} {P Q : A → Type 0} → ((x : A) → P x → Q x) → (xs : List A) → All P xs → All Q xs
All-map f [] h = tt
All-map f (x ∷ xs) (p, h) = (f x p, All-map f xs h)

All-snoc :
    {A : Type 0} (P : A → Type 0) (xs : List A) (x : A) → All P xs → P x → All P (xs ++ x ∷ [])
All-snoc P [] x h p = (p, tt)
All-snoc P (y ∷ ys) x (q, h) p = (q, All-snoc P ys x h p)

same_group-eq : (k key : ℕ × Bytes) → same_group k key ≡ true → (k.0 ≡ key.0) × (k.1 ≡ key.1)
same_group-eq (a, x) (b, y) e = ground (arith, eq_bytes_iff x y)

snoc-ne : {A : Type 0} (xs : List A) (x : A) → xs ++ x ∷ [] ≢ []
snoc-ne [] x e = cc
snoc-ne (y ∷ ys) x e = cc

module _ (env : Env) where
  abbrev over_groups : (Rec env → ℕ) → Groups env → ℕ
  over_groups f [] = 0
  over_groups f ((k, rs) ∷ groups) = total f rs + over_groups f groups

  over_groups-push :
      (f : Rec env → ℕ) (key : ℕ × Bytes) (r : Rec env) (groups : Groups env)
      → over_groups f (push env key r groups) ≡ f r + over_groups f groups
  unfolding push
  over_groups-push f key r [] = omega arith
  over_groups-push f key r ((k, rs) ∷ groups) = elim (Bool-cases (same_group k key)) [
    | inl e ↦ rw e (omega (arith, total-append f rs (r ∷ [])))
    | inr e ↦ rw e (elim (Bool-cases (before key k)) [
      | inl b ↦ rw b (omega arith)
      | inr b ↦ rw b (omega (arith, over_groups-push f key r groups))
    ])
  ]

  over_groups-fold :
      (bucket : ℕ → ℕ) (f : Rec env → ℕ) (rs : List (Rec env)) (groups : Groups env)
      → over_groups f (foldl (push_record env bucket) groups rs) ≡ over_groups f groups + total f rs
  unfolding push_record
  over_groups-fold bucket f [] groups = omega arith
  over_groups-fold bucket f (r ∷ rs) groups =
      let key : ℕ × Bytes = (bucket r.timestamp, r.app_name) in
      over_groups-fold bucket f rs (push env key r groups)
      ∙ omega (arith, over_groups-push f key r groups)

  aggregate_batch-cons :
      (mt : MetricType) (k : ℕ × Bytes) (r : Rec env) (rs : List (Rec env)) (groups : Groups env)
      (agg : Rec env) (aggs : List (Rec env))
      → aggregate_records env.floats (r ∷ rs) r.timestamp ≡ some agg
      → metric_type agg.payload ≡ mt
      → agg.app_name ≡ k.1
      → aggregate_batch env mt groups ≡ (map (batch_insert env) aggs, length aggs)
      → aggregate_batch env mt ((k, r ∷ rs) ∷ groups)
        ≡ (map (batch_insert env) (agg ∷ aggs), length (agg ∷ aggs))
  unfolding aggregate_batch aggregate_group batch_insert
  aggregate_batch-cons mt k r rs groups agg aggs made type app batch =
      rw (made, aggregate_batch)
        (rw batch (
          rw (sym type)
            (rw (sym app) (ap (λ n. (map (batch_insert env) (agg ∷ aggs), n)) (omega arith)))))

  -- The records of a group: one at least, all of one type, with the group's bucket and application.
  module _ (mt : MetricType) (bucket : ℕ → ℕ) where
    abbrev Member : ℕ × Bytes → Rec env → Type 0
    Member k r = (metric_type r.payload ≡ mt) × (bucket r.timestamp ≡ k.0) × (r.app_name ≡ k.1)

    abbrev IsGrouped : Groups env → Type 0
    IsGrouped [] = Unit
    IsGrouped ((k, rs) ∷ groups) = (rs ≢ []) × All (Member k) rs × IsGrouped groups

    joins : (k key : ℕ × Bytes) (r : Rec env) → same_group k key ≡ true → Member key r → Member k r
    joins k key r e (t, b, a) = let (p, q) = same_group-eq k key e in (t, b ∙ sym p, a ∙ sym q)

    push-IsGrouped :
        (key : ℕ × Bytes) (r : Rec env) (groups : Groups env)
        → Member key r
        → IsGrouped groups
        → IsGrouped (push env key r groups)
    unfolding push
    push-IsGrouped key r [] m h = ((λ e. cc), (m, tt), tt)
    push-IsGrouped key r ((k, rs) ∷ groups) m (ne, ms, h) = elim (Bool-cases (same_group k key)) [
      | inl e ↦ rw e (snoc-ne rs r, All-snoc (Member k) rs r ms (joins k key r e m), h)
      | inr e ↦ rw e (elim (Bool-cases (before key k)) [
        | inl b ↦ rw b ((λ q. cc), (m, tt), (ne, ms, h))
        | inr b ↦ rw b (ne, ms, push-IsGrouped key r groups m h)
      ])
    ]

    foldl-IsGrouped :
        (rs : List (Rec env)) (groups : Groups env)
        → All (λ r. metric_type r.payload ≡ mt) rs
        → IsGrouped groups
        → IsGrouped (foldl (push_record env bucket) groups rs)
    unfolding push_record
    foldl-IsGrouped [] groups h g = g
    foldl-IsGrouped (r ∷ rs) groups (t, h) g =
        foldl-IsGrouped rs _ h
          (push-IsGrouped (bucket r.timestamp, r.app_name) r groups (t, refl, refl) g)

    -- The bucket and the application that a record is grouped by.
    abbrev pub slot : Rec env → ℕ × Bytes
    slot r = (bucket r.timestamp, r.app_name)

    aggregate_batch-IsGrouped :
        (groups : Groups env)
        → IsGrouped groups
        → (aggs : List (Rec env)) × (aggregate_batch env mt groups
            ≡ (map (batch_insert env) aggs, length aggs))
          × (map slot aggs ≡ map (λ g. g.0) groups)
          × All (λ r. metric_type r.payload ≡ mt) aggs
          × (wrap64 (total (λ r. counter r.payload) aggs)
              ≡ wrap64 (over_groups (λ r. counter r.payload) groups))
          × (wrap64 (total (λ r. second_counter r.payload) aggs)
              ≡ wrap64 (over_groups (λ r. second_counter r.payload) groups))
    unfolding aggregate_batch
    aggregate_batch-IsGrouped [] h = ([], refl, refl, tt, refl, refl)
    aggregate_batch-IsGrouped ((k, []) ∷ groups) (ne, _, h) = elim (ne refl) [ ]
    aggregate_batch-IsGrouped ((k, r ∷ rs) ∷ groups) (ne, ((t, b, a), ms), h) =
        let (aggs, batch, slots, types, first, second) = aggregate_batch-IsGrouped groups h in
        let (agg, made, app, ts, ty, c1, c2) =
          aggregate_records_lem env.floats r rs r.timestamp (All-map (λ x m. m.0 ∙ sym t) rs ms) in
        (
          agg ∷ aggs,
          aggregate_batch-cons mt k r rs groups agg aggs made (ty ∙ t) (app ∙ a) batch,
          rw ts (rw b (rw (app ∙ a) (rw slots refl))),
          (ty ∙ t, types),
          omega arith,
          omega arith,
        )

  -- One batch of inserts, one for each of the records `aggs`, and the number of them. They have the
  -- type, their buckets and applications are those of the groups, and the counters, added up modulo
  -- 2^64, are those of `rs`.
  abbrev pub Conserves : MetricType → (ℕ → ℕ) → List (Rec env) → Batch × ℕ → Type 0
  Conserves mt bucket rs batch =
      (aggs : List (Rec env)) × (batch ≡ (map (batch_insert env) aggs, length aggs))
      × (map (slot mt bucket) aggs ≡ map (λ g. g.0) (group_records env bucket rs))
      × All (λ r. metric_type r.payload ≡ mt) aggs
      × (wrap64 (total (λ r. counter r.payload) aggs) ≡ wrap64 (total (λ r. counter r.payload) rs))
      × (wrap64 (total (λ r. second_counter r.payload) aggs)
          ≡ wrap64 (total (λ r. second_counter r.payload) rs))

  -- What an aggregation writes for some records that all have the type `mt` is one batch of
  -- inserts, of one aggregate for each group of a bucket and an application, under the aggregate's
  -- own key; the aggregates have the type, and their two counters, added up modulo 2^64, are those
  -- of the records.
  pub aggregate_batch-group_records :
      (mt : MetricType) (bucket : ℕ → ℕ) (rs : List (Rec env))
      → All (λ r. metric_type r.payload ≡ mt) rs
      → Conserves mt bucket rs (aggregate_batch env mt (group_records env bucket rs))
  unfolding group_records
  aggregate_batch-group_records mt bucket rs h =
      let (aggs, batch, slots, types, first, second) =
        aggregate_batch-IsGrouped mt bucket (group_records env bucket rs)
          (foldl-IsGrouped mt bucket rs [] h tt) in
      (
        aggs,
        batch,
        slots,
        types,
        first ∙ ap wrap64 (over_groups-fold bucket (λ r. counter r.payload) rs [] ∙ omega arith),
        second
            ∙ ap wrap64
                (over_groups-fold bucket (λ r. second_counter r.payload) rs [] ∙ omega arith),
      )
