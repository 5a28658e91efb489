-- ===== src/Storage/Removed.antt =====
-- The entries that the cleanup by age of crates/heimwatch-storage/src/db.rs removes, as a list that
-- was found before any deletion.
use heimwatch.Prelude.{
  ℕ, ◌+◌, ◌≤◌, ◌≡◌, refl, ap, ◌∙◌, true, false, List, [], ◌∷◌, ◌++◌, none, some, arith, Bytes,
  codes, length, length-append, u64_max, ltb, Bool-cases, inl, inr, le_bytes, le_bytes_trans,
  eq_bytes_refl, ◌↔◌, if◌then◌else◌,
}
use mathlib.Core.Path.{ap₂}
use heimwatch.Core.Metrics.{MetricType, all_metric_types}
use heimwatch.Retention.{RetentionConfig}
use heimwatch.Sled.{Entries, Ascending, lookup}
use heimwatch.Sled.Entries.{Ascending-unique, lookup-After}
use heimwatch.Keys.{range_start, range_end}
use heimwatch.Keys.Range.{
  in_range, same_type, rank, range_start-encode_key, range_end-encode_key, le_bytes-encode_key,
}
use heimwatch.Storage.{Env, Tree, scan, keys}
use heimwatch.Storage.Cleanup.{delete_type, delete_types, expired_entries, type_cutoff}
use heimwatch.Storage.Expiry.{
  lookup-scan, get-delete_type, length-keys, has_type, cutoff-le, is_some, expired,
  get-delete_types,
}

-- The first key of a later type does not come before the last of an earlier one.
types_apart :
    (p q : MetricType) (a b : ℕ)
    → a ≤ u64_max
    → b ≤ u64_max
    → ltb (rank p) (rank q) ≡ true
    → le_bytes (range_start q b) (range_end p a) ≡ false
types_apart p q a b ha hb h =
    rw
      (
        range_start-encode_key q b,
        range_end-encode_key p a,
        le_bytes-encode_key q p b a [] (codes "~") hb ha,
      )
      (ground arith)

-- No key lies in the ranges of two types.
ranges_disjoint :
    (p q : MetricType) (a b : ℕ) (k : Bytes)
    → a ≤ u64_max
    → b ≤ u64_max
    → same_type q p ≡ false
    → in_range p 0 a k ≡ true
    → in_range q 0 b k ≡ false
ranges_disjoint p q a b k ha hb h inside = elim (Bool-cases (ltb (rank p) (rank q))) [
  | inl below ↦ ground (
    arith,
    types_apart p q a 0 ha (omega arith) below,
    le_bytes_trans (range_start q 0) k (range_end p a),
  )
  | inr above ↦ ground (
    arith,
    types_apart q p b 0 hb (omega arith),
    le_bytes_trans (range_start p 0) k (range_end q b),
  )
]

-- No type stands twice in the list.
abbrev Distinct : List MetricType → Type 0
Distinct [] = Unit
Distinct (mt ∷ types) = (has_type mt types ≡ false) × Distinct types

Distinct-all : Distinct all_metric_types
Distinct-all = (refl, (refl, (refl, (refl, (refl, (refl, (refl, (refl, tt))))))))

-- No key stands twice in the list.
abbrev pub DistinctKeys : Entries → Type 0
DistinctKeys [] = Unit
DistinctKeys ((k, v) ∷ l) = (lookup k l ≡ none) × DistinctKeys l

lookup-append :
    (k : Bytes) (l m : Entries)
    → lookup k (l ++ m) ≡ (if is_some (lookup k l) then lookup k l else lookup k m)
lookup-append k [] m = refl
lookup-append k ((j, v) ∷ l) m = ground (arith, lookup-append k l m)

Ascending-DistinctKeys : (l : Entries) → Ascending l → DistinctKeys l
Ascending-DistinctKeys [] s = tt
Ascending-DistinctKeys ((k, v) ∷ l) (a, s) = (lookup-After k l a s, Ascending-DistinctKeys l s)

DistinctKeys-append :
    (l m : Entries)
    → DistinctKeys l
    → DistinctKeys m
    → ((k : Bytes) → is_some (lookup k l) ≡ true → lookup k m ≡ none)
    → DistinctKeys (l ++ m)
DistinctKeys-append [] m d d' apart = d'
DistinctKeys-append ((k, v) ∷ l) m (fresh, d) d' apart = (
  lookup-append k l m ∙ ground (arith, apart k, eq_bytes_refl k),
  DistinctKeys-append l m d d' (λ j h. apart j (ground arith)),
)

module _ (env : Env) where
  scan-Ascending :
      (tree : Tree env) (mt : MetricType) (cutoff : ℕ) → Ascending (scan env tree mt 0 cutoff)
  unfolding scan
  scan-Ascending tree mt cutoff =
      env.sled.range-Ascending tree (range_start mt 0) (range_end mt cutoff)

  -- deleting one type's records leaves the scans of the others
  scan-delete_type :
      (tree : Tree env) (p q : MetricType) (a b : ℕ)
      → a ≤ u64_max
      → b ≤ u64_max
      → same_type q p ≡ false
      → scan env (delete_type env a tree p).1 q 0 b ≡ scan env tree q 0 b
  scan-delete_type tree p q a b ha hb h =
      let t = (delete_type env a tree p).1 in
      Ascending-unique (scan env t q 0 b) (scan env tree q 0 b) (scan-Ascending t q b)
        (scan-Ascending tree q b)
        λ k.
          lookup-scan env t q 0 b k
          ∙ ground (
            arith,
            get-delete_type env a tree p k,
            lookup-scan env tree q 0 b k,
            ranges_disjoint p q a b k ha hb h,
          )

  -- The values under which a deletion removes something, each with what it held.
  pub record Removes (before after : Tree env) (removed : Entries) : Type 0 where
    pub distinct : DistinctKeys removed
    pub exact :
        (k v : Bytes)
        → lookup k removed ≡ some v
          ↔ ((env.sled.get before k ≡ some v) × (env.sled.get after k ≡ none))

  module _ (config : RetentionConfig) (now : ℕ) (hn : now ≤ u64_max) where
    expired_entries-delete_type :
        (tree : Tree env) (p : MetricType) (types : List MetricType)
        → has_type p types ≡ false
        → expired_entries env config now (delete_type env (type_cutoff config now p) tree p).1 types
          ≡ expired_entries env config now tree types
    unfolding expired_entries
    expired_entries-delete_type tree p [] h = refl
    expired_entries-delete_type tree p (q ∷ types) h =
        let a = type_cutoff config now p in
        let b = type_cutoff config now q in
        ap₂ ◌++◌
          (scan-delete_type tree p q a b (cutoff-le config now p hn) (cutoff-le config now q hn)
            (ground arith))
          (expired_entries-delete_type tree p types (ground arith))

    -- as many are deleted as were found before any deletion
    deleted-length :
        (total : ℕ) (tree : Tree env) (types : List MetricType)
        → Distinct types
        → (delete_types env config now total tree types).0
          ≡ total + length (expired_entries env config now tree types)
    unfolding delete_types expired_entries delete_type
    deleted-length total tree [] d = omega arith
    deleted-length total tree (mt ∷ types) (fresh, d) =
        let a = type_cutoff config now mt in
        let found = scan env tree mt 0 a in
        let rest = (delete_type env a tree mt).1 in
        deleted-length (total + length (keys found)) rest types d
        ∙ omega (
          arith,
          length-keys found,
          length-append found (expired_entries env config now tree types),
          ap length (expired_entries-delete_type tree mt types fresh),
        )

    abbrev pub expired_now : Tree env → Entries
    expired_now tree = expired_entries env config now tree all_metric_types

    pub deleted_count_lem :
        (tree : Tree env)
        → (delete_types env config now 0 tree all_metric_types).0 ≡ length (expired_now tree)
    deleted_count_lem tree = deleted-length 0 tree all_metric_types Distinct-all ∙ omega arith

    lookup-expired_entries :
        (tree : Tree env) (types : List MetricType) (k : Bytes)
        → lookup k (expired_entries env config now tree types)
          ≡ (if expired (type_cutoff config now) types k then env.sled.get tree k else none)
    unfolding expired_entries
    lookup-expired_entries tree [] k = refl
    lookup-expired_entries tree (mt ∷ types) k =
        lookup-append k (scan env tree mt 0 (type_cutoff config now mt))
          (expired_entries env config now tree types)
        ∙ ground (
          arith,
          lookup-scan env tree mt 0 (type_cutoff config now mt) k,
          lookup-expired_entries tree types k,
        )

    -- a key in the range of one type is not in that of another
    expired-apart :
        (p : MetricType) (types : List MetricType) (k : Bytes)
        → has_type p types ≡ false
        → in_range p 0 (type_cutoff config now p) k ≡ true
        → expired (type_cutoff config now) types k ≡ false
    expired-apart p [] k h inside = refl
    expired-apart p (q ∷ types) k h inside = ground (
      arith,
      ranges_disjoint p q (type_cutoff config now p) (type_cutoff config now q) k
          (cutoff-le config now p hn) (cutoff-le config now q hn),
      expired-apart p types k,
    )

    DistinctKeys-expired_entries :
        (tree : Tree env) (types : List MetricType)
        → Distinct types
        → DistinctKeys (expired_entries env config now tree types)
    unfolding expired_entries
    DistinctKeys-expired_entries tree [] d = tt
    DistinctKeys-expired_entries tree (mt ∷ types) (fresh, d) =
        let a = type_cutoff config now mt in
        DistinctKeys-append (scan env tree mt 0 a) (expired_entries env config now tree types)
          (Ascending-DistinctKeys _ (scan-Ascending tree mt a))
          (DistinctKeys-expired_entries tree types d)
          λ k found.
            lookup-expired_entries tree types k
            ∙ ground (arith, lookup-scan env tree mt 0 a k, expired-apart mt types k fresh)

    pub Removes-delete_types :
        (tree : Tree env)
        → Removes tree (delete_types env config now 0 tree all_metric_types).1 (expired_now tree)
    Removes-delete_types tree = record {
      distinct = DistinctKeys-expired_entries tree all_metric_types Distinct-all;
      exact = λ k v.
          let gone = get-delete_types env config now 0 tree all_metric_types k in
          let found = lookup-expired_entries tree all_metric_types k in
          elim (Bool-cases (expired (type_cutoff config now) all_metric_types k)) [
            | inl e ↦ rw (gone, found, e) (λ h. (h, refl), λ h. h.0)
            | inr e ↦ rw (gone, found, e) (λ h. ground arith, λ (h, h'). ground arith)
          ];
    }
