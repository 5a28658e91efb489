-- ===== src/Storage/Expiry.antt =====
-- What the cleanup by age of crates/heimwatch-storage/src/db.rs removes, and what it keeps.
use heimwatch.Prelude.{
  ℕ, suc, ◌+◌, ◌≤◌, ◌≡◌, refl, ap, ◌∙◌, Bool, true, false, ◌&&◌, ◌||◌, List, [], ◌∷◌, ◌++◌, Option,
  none, some, arith, Bytes, length, u64_max, if◌then◌else◌, ltb, ◌==◌, Bool-cases, inl, inr,
  eq_bytes, le_bytes, codes,
}
use heimwatch.Core.Metrics.{MetricType, all_metric_types}
use heimwatch.Retention.{RetentionConfig}
use heimwatch.Sled.{Entries, lookup, after_batch}
use heimwatch.Keys.{encode_key, range_start, range_end}
use heimwatch.Keys.Range.{in_range, same_type, in_range-encode_key, rank-injective}
use heimwatch.Storage.{Env, Tree, scan, keys, removals, retention_cutoff}
use heimwatch.Storage.Cleanup.{
  old_keys, delete_keys, delete_from_tree_before, delete_type, delete_types, type_cutoff,
}

abbrev member : Bytes → List Bytes → Bool
member k [] = false
member k (j ∷ js) = let rest = member k js in eq_bytes j k || rest

abbrev pub is_some {ℓ} : {A : Type ℓ} → Option A → Bool
is_some none = false
is_some (some a) = true

after_batch-removals :
    (k : Bytes) (ks : List Bytes) (old : Option Bytes)
    → after_batch k (removals ks) old ≡ (if member k ks then none else old)
after_batch-removals k [] old = refl
after_batch-removals k (j ∷ js) old =
    ground (arith, after_batch-removals k js (if eq_bytes j k then none else old))

member-append :
    (k : Bytes) (xs ys : List Bytes) → member k (xs ++ ys) ≡ (member k xs || member k ys)
member-append k [] ys = refl
member-append k (x ∷ xs) ys = ground (arith, member-append k xs ys)

member-keys : (k : Bytes) (l : Entries) → member k (keys l) ≡ is_some (lookup k l)
member-keys k [] = refl
member-keys k ((j, v) ∷ l) = ground (arith, member-keys k l)

pub length-keys : (l : Entries) → length (keys l) ≡ length l
length-keys [] = refl
length-keys ((k, v) ∷ l) = ap suc (length-keys l)

-- Whether a key lies in the range of one of the types, up to the type's cutoff.
abbrev pub expired : (MetricType → ℕ) → List MetricType → Bytes → Bool
expired cutoff [] k = false
expired cutoff (mt ∷ types) k =
    let rest = expired cutoff types k in in_range mt 0 (cutoff mt) k || rest

pub cutoff-le :
    (config : RetentionConfig) (now : ℕ) (mt : MetricType)
    → now ≤ u64_max
    → type_cutoff config now mt ≤ u64_max
unfolding retention_cutoff
cutoff-le config now mt h = omega arith

abbrev pub has_type : MetricType → List MetricType → Bool
has_type p [] = false
has_type p (mt ∷ types) = let rest = has_type p types in same_type mt p || rest

has_type-all : (p : MetricType) → has_type p all_metric_types ≡ true
has_type-all MetricType.net = refl
has_type-all p = refl

-- Whether a timestamp and a name are met up to a cutoff.
abbrev pub old_enough : ℕ → ℕ → Bytes → Bool
old_enough cutoff ts app = ltb ts cutoff || (ts == cutoff && le_bytes app (codes "~"))

module _ (cutoff : MetricType → ℕ) (bound : (mt : MetricType) → cutoff mt ≤ u64_max)
    (p : MetricType) (ts : ℕ) (app : Bytes) (h : ts ≤ u64_max) where
  expired-types :
      (types : List MetricType)
      → expired cutoff types (encode_key p ts app)
        ≡ (has_type p types && old_enough (cutoff p) ts app)
  expired-types [] = refl
  expired-types (mt ∷ types) =
      let here = in_range-encode_key mt p 0 (cutoff mt) ts app (omega arith) (bound mt) h in
      elim (Bool-cases (same_type mt p)) [
        | inl e ↦
            let same : mt ≡ p = rank-injective mt p (ground arith) in
            let cuts : cutoff mt ≡ cutoff p = ap cutoff same in
            rw (here, expired-types types, e, cuts) (ground arith)
        | inr e ↦ rw (here, expired-types types, e) refl
      ]

  -- The key of a record lies only in the range of its own type.
  pub expired-encode_key :
      expired cutoff all_metric_types (encode_key p ts app) ≡ old_enough (cutoff p) ts app
  expired-encode_key = expired-types all_metric_types ∙ rw (has_type-all p) refl

module _ (env : Env) where
  get-delete_keys :
      (tree : Tree env) (ks : List Bytes) (k : Bytes)
      → env.sled.get (delete_keys env ks tree) k
        ≡ (if member k ks then none else env.sled.get tree k)
  get-delete_keys tree ks k =
      env.sled.get-apply_batch tree (removals ks) k
      ∙ after_batch-removals k ks (env.sled.get tree k)

  -- what a scan finds under a key
  pub lookup-scan :
      (tree : Tree env) (mt : MetricType) (start end : ℕ) (k : Bytes)
      → lookup k (scan env tree mt start end)
        ≡ (if in_range mt start end k then env.sled.get tree k else none)
  unfolding scan
  lookup-scan tree mt start end k =
      env.sled.lookup-range tree (range_start mt start) (range_end mt end) k

  member-old_keys :
      (tree : Tree env) (cutoff : ℕ) (types : List MetricType) (k : Bytes)
      → member k (old_keys env tree cutoff types)
        ≡ (expired (λ _. cutoff) types k && is_some (env.sled.get tree k))
  unfolding old_keys
  member-old_keys tree cutoff [] k = refl
  member-old_keys tree cutoff (mt ∷ types) k = ground (
    arith,
    member-append k (keys (scan env tree mt 0 cutoff)) (old_keys env tree cutoff types),
    member-keys k (scan env tree mt 0 cutoff),
    lookup-scan tree mt 0 cutoff k,
    member-old_keys tree cutoff types k,
  )

  pub get-delete_old :
      (tree : Tree env) (cutoff : ℕ) (types : List MetricType) (k : Bytes)
      → env.sled.get (delete_keys env (old_keys env tree cutoff types) tree) k
        ≡ (if expired (λ _. cutoff) types k then none else env.sled.get tree k)
  get-delete_old tree cutoff types k =
      get-delete_keys tree (old_keys env tree cutoff types) k
      ∙ ground (arith, member-old_keys tree cutoff types k)

  -- leaving out an empty batch changes nothing
  get-delete_some :
      (tree : Tree env) (ks : List Bytes) (k : Bytes)
      → env.sled.get (if ltb 0 (length ks) then delete_keys env ks tree else tree) k
        ≡ (if member k ks then none else env.sled.get tree k)
  get-delete_some tree [] k = refl
  get-delete_some tree (j ∷ js) k = rw (lt_length j js) (get-delete_keys tree (j ∷ js) k)
    where
      lt_length : (x : Bytes) (xs : List Bytes) → ltb 0 (length (x ∷ xs)) ≡ true
      lt_length x xs = ground arith

  pub get-delete_type :
      (cutoff : ℕ) (tree : Tree env) (mt : MetricType) (k : Bytes)
      → env.sled.get (delete_type env cutoff tree mt).1 k
        ≡ (if in_range mt 0 cutoff k then none else env.sled.get tree k)
  unfolding delete_type
  get-delete_type cutoff tree mt k =
      get-delete_some tree (keys (scan env tree mt 0 cutoff)) k
      ∙ ground (arith, member-keys k (scan env tree mt 0 cutoff), lookup-scan tree mt 0 cutoff k)

  pub get-delete_from_tree_before :
      (tree : Tree env) (cutoff : ℕ) (k : Bytes)
      → env.sled.get (delete_from_tree_before env tree cutoff).1 k
        ≡ (if expired (λ _. cutoff) all_metric_types k then none else env.sled.get tree k)
  unfolding delete_from_tree_before
  get-delete_from_tree_before tree cutoff k =
      get-delete_some tree (old_keys env tree cutoff all_metric_types) k
      ∙ ground (arith, member-old_keys tree cutoff all_metric_types k)

  pub get-delete_types :
      (config : RetentionConfig) (now total : ℕ) (tree : Tree env) (types : List MetricType)
      (k : Bytes)
      → env.sled.get (delete_types env config now total tree types).1 k
        ≡ (if expired (type_cutoff config now) types k then none else env.sled.get tree k)
  unfolding delete_types
  get-delete_types config now total tree [] k = refl
  get-delete_types config now total tree (mt ∷ types) k =
      let cutoff = type_cutoff config now mt in
      let (count, rest) = delete_type env cutoff tree mt in
      get-delete_types config now (total + count) rest types k
      ∙ ground (arith, get-delete_type cutoff tree mt k)
