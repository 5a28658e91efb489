-- ===== src/Storage/Answers.antt =====
-- What `get_metrics_by_type` of crates/heimwatch-storage/src/db.rs answers from the raw tree.
use heimwatch.Prelude.{
  ℕ, ◌≤◌, ◌≡◌, refl, true, ◌⊎◌, ◌↔◌, List, [], ◌∷◌, Option, arith, leb, u64_max, Bool-cases, inl,
  inr,
}
use heimwatch.Error.{Failure, Result, ok}
use heimwatch.Core.Metrics.{MetricType}
use heimwatch.Sled.Entries.{In}
use heimwatch.Storage.{Env, Rec, StorageLayer}
use heimwatch.Storage.Query.{
  insert_by_time, sort_by_time, raw_or_tiers, get_metrics_by_type, now_or_max,
}
use heimwatch.Storage.Stored.{visible, Stored, IsWellFormed, decode_all-scan}

module _ (env : Env) where
  -- In ascending order of time.
  abbrev pub FromTime : ℕ → List (Rec env) → Type 0
  FromTime t [] = Unit
  FromTime t (r ∷ rs) = (t ≤ r.timestamp) × FromTime r.timestamp rs

  abbrev pub InOrder : List (Rec env) → Type 0
  InOrder = FromTime 0

  FromTime-weaken : (t u : ℕ) (rs : List (Rec env)) → t ≤ u → FromTime u rs → FromTime t rs
  FromTime-weaken t u [] h o = tt
  FromTime-weaken t u (r ∷ rs) h (a, o) = (omega arith, o)

  FromTime-insert :
      (t : ℕ) (r : Rec env) (rs : List (Rec env))
      → t ≤ r.timestamp
      → FromTime t rs
      → FromTime t (insert_by_time env r rs)
  unfolding insert_by_time
  FromTime-insert t r [] h o = (h, tt)
  FromTime-insert t r (x ∷ xs) h (a, o) = elim (Bool-cases (leb r.timestamp x.timestamp)) [
    | inl e ↦ rw e (h, (ground arith, o))
    | inr e ↦ rw e (a, FromTime-insert x.timestamp r xs (ground arith) o)
  ]

  InOrder-sort : (rs : List (Rec env)) → InOrder (sort_by_time env rs)
  unfolding sort_by_time
  InOrder-sort [] = tt
  InOrder-sort (r ∷ rs) = FromTime-insert 0 r (sort_by_time env rs) (omega arith) (InOrder-sort rs)

  In-insert :
      (r x : Rec env) (rs : List (Rec env)) → In x (insert_by_time env r rs) ↔ ((r ≡ x) ⊎ In x rs)
  unfolding insert_by_time
  In-insert r x [] = ((λ m. m), λ m. m)
  In-insert r x (y ∷ ys) = elim (Bool-cases (leb r.timestamp y.timestamp)) [
    | inl e ↦ rw e ((λ m. m), λ m. m)
    | inr e ↦
        let (there, back) = In-insert r x ys in
        rw e (
          elim [
            | inl h ↦ inr (inl h)
            | inr m ↦ elim (there m) [ inl h ↦ inl h | inr k ↦ inr (inr k) ]
          ],
          elim [
            | inl h ↦ inr (back (inl h))
            | inr m ↦ elim m [ inl h ↦ inl h | inr k ↦ inr (back (inr k)) ]
          ],
        )
  ]

  In-sort : (x : Rec env) (rs : List (Rec env)) → In x (sort_by_time env rs) ↔ In x rs
  unfolding sort_by_time
  In-sort x [] = ((λ m. m), λ m. m)
  In-sort x (r ∷ rs) =
      let (there, back) = In-insert r x (sort_by_time env rs) in
      let (down, up) = In-sort x rs in
      (
        λ m. elim (there m) [ inl h ↦ inl h | inr k ↦ inr (down k) ],
        elim [ inl h ↦ back (inl h) | inr k ↦ back (inr (up k)) ],
      )

  raw_first :
      (now : ℕ) (s : StorageLayer env) (mt : MetricType) (start end : ℕ) (r : Rec env)
      (rs : List (Rec env))
      → In r rs
      → raw_or_tiers env now s mt start end rs ≡ ok rs
  unfolding raw_or_tiers
  raw_first now s mt start end r [] m = absurd m
  raw_first now s mt start end r (x ∷ rs) m = refl

  -- An answer with the stored records of a type and a range of time, each and no other, in order.
  abbrev pub Exactly :
      StorageLayer env → MetricType → ℕ → ℕ → Result Failure (List (Rec env)) → Type 0
  Exactly s mt start end answer =
      (rs : List (Rec env)) × (answer ≡ ok rs)
      × InOrder rs
      × ((x : Rec env) → In x rs ↔ (Stored env s.metrics x × (visible mt start end x ≡ true)))

  module _ (clock : Option ℕ) (s : StorageLayer env) (mt : MetricType) (start end : ℕ)
      (hs : start ≤ u64_max) (he : end ≤ u64_max) (wf : IsWellFormed env s.metrics) where
    -- If a well-formed raw tree holds a record that the query meets, for bounds in `u64`, the
    -- query succeeds, and answers in order of time exactly the stored raw records that it meets;
    -- the aggregated tiers are not read.
    pub query_exact :
        (r : Rec env)
        → Stored env s.metrics r
        → visible mt start end r ≡ true
        → Exactly s mt start end (get_metrics_by_type env clock s mt start end)
    unfolding get_metrics_by_type
    query_exact r stored seen =
        let (raw, e, exact) = decode_all-scan env s.metrics wf mt start end hs he in
        let first =
          raw_first (now_or_max env clock) s mt start end r raw ((exact r).1 (stored, seen)) in
        (
          sort_by_time env raw,
          rw (e, first) refl,
          InOrder-sort raw,
          λ x.
              let (down, up) = In-sort x raw in
              ((λ m. (exact x).0 (down m)), λ h. up ((exact x).1 h)),
        )
