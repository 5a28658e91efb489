-- ===== src/Sled/Memory.antt =====
-- A tree in memory that keeps the laws of sled: a list sorted by key.
use heimwatch.Prelude.{
  true, false, ◌&&◌, ◌≡◌, refl, sym, ap, ◌∙◌, [], ◌∷◌, Option, none, some, arith, Bytes, le_bytes,
  eq_bytes, eq_bytes_iff, le_bytes_antisym, lt_bytes_trans, ◌++◌, if◌then◌else◌, Bool-cases, inl,
  inr,
}
use heimwatch.Sled.{Entries, lookup, BatchOp, Batch, after_batch, After, Ascending, Sled}

unfoldable pub insert : Bytes → Bytes → Entries → Entries
insert k v [] = (k, v) ∷ []
insert k v ((j, w) ∷ l) =
    let rest = insert k v l in
    if eq_bytes j k then (k, v) ∷ l else if le_bytes k j then (k, v) ∷ (j, w) ∷ l else (j, w) ∷ rest

unfoldable pub remove : Bytes → Entries → Entries
remove k [] = []
remove k ((j, w) ∷ l) = let rest = remove k l in if eq_bytes j k then rest else (j, w) ∷ rest

unfoldable pub apply_batch : Batch → Entries → Entries
unfolding insert remove
apply_batch [] t = t
apply_batch (BatchOp.insert k v ∷ b) t = apply_batch b (insert k v t)
apply_batch (BatchOp.remove k ∷ b) t = apply_batch b (remove k t)

unfoldable pub between : Bytes → Bytes → Entries → Entries
between lo hi [] = []
between lo hi ((k, v) ∷ l) =
    let rest = between lo hi l in if le_bytes lo k && le_bytes k hi then (k, v) ∷ rest else rest

lookup-insert :
    (k v j : Bytes) (t : Entries)
    → lookup j (insert k v t) ≡ (if eq_bytes k j then some v else lookup j t)
unfolding insert
lookup-insert k v j [] = refl
lookup-insert k v j ((i, w) ∷ l) =
    ground (arith, eq_bytes_iff i k, eq_bytes_iff i j, eq_bytes_iff k j, lookup-insert k v j l)

lookup-remove :
    (k j : Bytes) (t : Entries)
    → lookup j (remove k t) ≡ (if eq_bytes k j then none else lookup j t)
unfolding remove
lookup-remove k j [] = ground arith
lookup-remove k j ((i, w) ∷ l) =
    ground (arith, eq_bytes_iff i k, eq_bytes_iff i j, eq_bytes_iff k j, lookup-remove k j l)

lookup-between :
    (lo hi k : Bytes) (t : Entries)
    → lookup k (between lo hi t) ≡ (if le_bytes lo k && le_bytes k hi then lookup k t else none)
unfolding between
lookup-between lo hi k [] = ground arith
lookup-between lo hi k ((i, w) ∷ l) = ground (arith, eq_bytes_iff i k, lookup-between lo hi k l)

lookup-apply_batch :
    (b : Batch) (j : Bytes) (t : Entries)
    → lookup j (apply_batch b t) ≡ after_batch j b (lookup j t)
unfolding apply_batch
lookup-apply_batch [] j t = refl
lookup-apply_batch (BatchOp.insert k v ∷ b) j t =
    lookup-apply_batch b j (insert k v t) ∙ ap (after_batch j b) (lookup-insert k v j t)
lookup-apply_batch (BatchOp.remove k ∷ b) j t =
    lookup-apply_batch b j (remove k t) ∙ ap (after_batch j b) (lookup-remove k j t)

After-trans : (k j : Bytes) (l : Entries) → le_bytes j k ≡ false → After j l → After k l
After-trans k j [] h a = tt
After-trans k j ((i, w) ∷ l) h a = lt_bytes_trans k j i h a

After-insert :
    (k j v : Bytes) (l : Entries) → le_bytes j k ≡ false → After k l → After k (insert j v l)
unfolding insert
After-insert k j v [] h a = h
After-insert k j v ((i, w) ∷ l) h a = ground (arith, eq_bytes_iff i j)

After-remove : (k j : Bytes) (l : Entries) → After k l → Ascending l → After k (remove j l)
unfolding remove
After-remove k j [] a s = tt
After-remove k j ((i, w) ∷ l) a (b, s) = elim (Bool-cases (eq_bytes i j)) [
  | inl e ↦ rw e (After-remove k j l (After-trans k i l a b) s)
  | inr e ↦ rw e a
]

After-between :
    (k lo hi : Bytes) (l : Entries) → After k l → Ascending l → After k (between lo hi l)
unfolding between
After-between k lo hi [] a s = tt
After-between k lo hi ((i, w) ∷ l) a (b, s) = elim (Bool-cases (le_bytes lo i && le_bytes i hi)) [
  | inl e ↦ rw e a
  | inr e ↦ rw e (After-between k lo hi l (After-trans k i l a b) s)
]

strictly_before : (k j : Bytes) → le_bytes k j ≡ true → eq_bytes j k ≡ false → le_bytes j k ≡ false
strictly_before k j h ne = ground (arith, le_bytes_antisym k j, eq_bytes_iff j k)

Ascending-insert : (k v : Bytes) (l : Entries) → Ascending l → Ascending (insert k v l)
unfolding insert
Ascending-insert k v [] s = (tt, tt)
Ascending-insert k v ((j, w) ∷ l) (a, s) = elim (Bool-cases (eq_bytes j k)) [
  | inl e ↦ rw e (let same : j ≡ k = (eq_bytes_iff j k).0 e in rw same at a, s)
  | inr e ↦ rw e (elim (Bool-cases (le_bytes k j)) [
    | inl le ↦ rw le (strictly_before k j le e, (a, s))
    | inr gt ↦ rw gt (After-insert j k v l gt a, Ascending-insert k v l s)
  ])
]

Ascending-remove : (k : Bytes) (l : Entries) → Ascending l → Ascending (remove k l)
unfolding remove
Ascending-remove k [] s = tt
Ascending-remove k ((j, w) ∷ l) (a, s) = elim (Bool-cases (eq_bytes j k)) [
  | inl e ↦ rw e (Ascending-remove k l s)
  | inr e ↦ rw e (After-remove j k l a s, Ascending-remove k l s)
]

Ascending-between : (lo hi : Bytes) (l : Entries) → Ascending l → Ascending (between lo hi l)
unfolding between
Ascending-between lo hi [] s = tt
Ascending-between lo hi ((j, w) ∷ l) (a, s) = elim (Bool-cases (le_bytes lo j && le_bytes j hi)) [
  | inl e ↦ rw e (After-between j lo hi l a s, Ascending-between lo hi l s)
  | inr e ↦ rw e (Ascending-between lo hi l s)
]

Ascending-apply_batch : (b : Batch) (l : Entries) → Ascending l → Ascending (apply_batch b l)
unfolding apply_batch
Ascending-apply_batch [] l s = s
Ascending-apply_batch (BatchOp.insert k v ∷ b) l s =
    Ascending-apply_batch b (insert k v l) (Ascending-insert k v l s)
Ascending-apply_batch (BatchOp.remove k ∷ b) l s =
    Ascending-apply_batch b (remove k l) (Ascending-remove k l s)

after_batch-append :
    (j : Bytes) (a b : Batch) (old : Option Bytes)
    → after_batch j (a ++ b) old ≡ after_batch j b (after_batch j a old)
after_batch-append j [] b old = refl
after_batch-append j (BatchOp.insert k v ∷ a) b old =
    after_batch-append j a b (if eq_bytes k j then some v else old)
after_batch-append j (BatchOp.remove k ∷ a) b old =
    after_batch-append j a b (if eq_bytes k j then none else old)

unfoldable pub memory_get : Batch → Bytes → Option Bytes
unfolding apply_batch
memory_get log k = lookup k (apply_batch log [])

pub get-nil : (k : Bytes) → memory_get [] k ≡ none
unfolding memory_get apply_batch
get-nil k = refl

unfoldable pub memory_range : Batch → Bytes → Bytes → Entries
unfolding apply_batch between
memory_range log lo hi = between lo hi (apply_batch log [])

pub get-append :
    (log b : Batch) (j : Bytes) → memory_get (log ++ b) j ≡ after_batch j b (memory_get log j)
unfolding memory_get
get-append log b j =
    lookup-apply_batch (log ++ b) j []
    ∙ after_batch-append j log b none
    ∙ ap (after_batch j b) (sym (lookup-apply_batch log j []))

pub range_lookup :
    (log : Batch) (lo hi k : Bytes)
    → lookup k (memory_range log lo hi)
      ≡ (if le_bytes lo k && le_bytes k hi then memory_get log k else none)
unfolding memory_range memory_get
range_lookup log lo hi k = lookup-between lo hi k (apply_batch log [])

pub range_ascends : (log : Batch) (lo hi : Bytes) → Ascending (memory_range log lo hi)
unfolding memory_range
range_ascends log lo hi =
    Ascending-between lo hi (apply_batch log []) (Ascending-apply_batch log [] tt)

-- The state of the tree is the log of the operations on it.
abbrev pub memory : Sled
memory = record {
  Tree = Batch;
  get = memory_get;
  insert = λ k v log. log ++ BatchOp.insert k v ∷ [];
  apply_batch = λ b log. log ++ b;
  range = memory_range;
  get-insert = λ log k v j. get-append log (BatchOp.insert k v ∷ []) j;
  get-apply_batch = λ log b j. get-append log b j;
  lookup-range = range_lookup;
  range-Ascending = range_ascends;
}
