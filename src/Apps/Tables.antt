-- ===== src/Apps/Tables.antt =====
-- What a map that was filled by application holds, and what a sorted and cut list shows of it.
use mathlib.Core.List.{Perm, Pairwise, Pairwise-singleton, Mem, forall_mem-cons}
use mathlib.Core.List.Perm
use heimwatch.Prelude.{
  ℕ, zero, suc, ◌≡◌, refl, sym, ap, ◌∙◌, Bool, true, false, List, [], ◌∷◌, ◌++◌, map, Option, none,
  some, Bytes, All, length, take, min, arith, eq_bytes, eq_bytes_iff, eq_bytes_refl, if◌then◌else◌,
  Bool-cases, Option-cases, inl, inr,
}
use mathlib.Core.Bool.{Bool-set}
use heimwatch.Apps.{HashOrder, find, entry, tally, insert_sorted, sort_by}

eq_bytes_flip : (i k : Bytes) → eq_bytes i k ≡ false → eq_bytes k i ≡ false
eq_bytes_flip i k h = elim (Bool-cases (eq_bytes k i)) [
  | inl e ↦ let same : eq_bytes i k ≡ true = rw ((eq_bytes_iff k i).0 e) (eq_bytes_refl i) in cc
  | inr e ↦ e
]

-- No name has two entries.
abbrev pub Distinct : {V : Type 0} → List (Bytes × V) → Type 0
Distinct [] = Unit {0}
Distinct ((j, v) ∷ l) = (find j l ≡ none) × Distinct l

module _ {V : Type 0} (default : V) (change : V → V) where
  abbrev pub changed : Option V → V
  changed none = change default
  changed (some v) = change v

  pub find-entry :
      (k j : Bytes) (m : List (Bytes × V))
      → find j (entry default change k m)
        ≡ (if eq_bytes k j then some (changed (find k m)) else find j m)
  unfolding entry
  find-entry k j [] = refl
  find-entry k j ((i, v) ∷ m) = elim (Bool-cases (eq_bytes i k)) [
    | inl same ↦
        rw ((eq_bytes_iff i k).0 same, eq_bytes_refl k)
          (elim (Bool-cases (eq_bytes k j)) [ inl e ↦ rw e refl | inr e ↦ rw e refl ])
    | inr other ↦ elim (Bool-cases (eq_bytes k j)) [
      | inl e ↦
          let kj = (eq_bytes_iff k j).0 e in
          let io : eq_bytes i j ≡ false = rw (sym kj) other in
          rw (other, e, io) (find-entry k j m ∙ rw e refl)
      | inr e ↦
          rw (other, e)
            (elim (Bool-cases (eq_bytes i j)) [
              | inl f ↦ rw f refl
              | inr f ↦ rw f (find-entry k j m ∙ rw e refl)
            ])
    ]
  ]

  pub entry-Distinct :
      (k : Bytes) (m : List (Bytes × V)) → Distinct m → Distinct (entry default change k m)
  unfolding entry
  entry-Distinct k [] h = (refl, tt)
  entry-Distinct k ((i, v) ∷ m) (fresh, h) = elim (Bool-cases (eq_bytes i k)) [
    | inl same ↦ rw same (fresh, h)
    | inr other ↦
        rw other ((find-entry k i m ∙ rw (eq_bytes_flip i k other) fresh), entry-Distinct k m h)
  ]

-- The values of the records of one name, in their order.
abbrev pub chosen : {R W : Type 0} → (R → Bytes) → (R → Option W) → Bytes → List R → List W
chosen name get k [] = []
chosen name get k (r ∷ rs) =
    let rest = chosen name get k rs in
    elim (get r) [ none ↦ rest | some w ↦ if eq_bytes (name r) k then w ∷ rest else rest ]

-- What an entry holds after some values were added to what it held.
abbrev pub filled : {V W : Type 0} → V → (V → W → V) → Option V → List W → Option V
filled default add o [] = o
filled default add o (w ∷ ws) = filled default add (some (changed default (λ v. add v w) o)) ws

module _ {R V W : Type 0} (name : R → Bytes) (get : R → Option W) (default : V)
    (add : V → W → V) where
  pub find-tally :
      (k : Bytes) (m : List (Bytes × V)) (rs : List R)
      → find k (tally name get default add m rs)
        ≡ filled default add (find k m) (chosen name get k rs)
  unfolding tally
  find-tally k m [] = refl
  find-tally k m (r ∷ rs) = elim (Option-cases (get r)) [
    | inl e ↦ rw (e, chosen) (find-tally k m rs)
    | inr (w, e) ↦ elim (Bool-cases (eq_bytes (name r) k)) [
      | inl own ↦
          rw (e, own, chosen)
            (find-tally k (entry default (λ v. add v w) (name r) m) rs
              ∙ rw
                  (
                    find-entry default (λ v. add v w) (name r) k m,
                    own,
                    (eq_bytes_iff (name r) k).0 own,
                  )
                  refl)
      | inr other ↦
          rw (e, other, chosen)
            (find-tally k (entry default (λ v. add v w) (name r) m) rs
              ∙ rw (find-entry default (λ v. add v w) (name r) k m, other) refl)
    ]
  ]

  pub tally-Distinct :
      (m : List (Bytes × V)) (rs : List R) → Distinct m → Distinct (tally name get default add m rs)
  unfolding tally
  tally-Distinct m [] h = h
  tally-Distinct m (r ∷ rs) h = elim (Option-cases (get r)) [
    | inl e ↦ rw e (tally-Distinct m rs h)
    | inr (w, e) ↦ rw e (
        tally-Distinct (entry default (λ v. add v w) (name r) m) rs
          (entry-Distinct default (λ v. add v w) (name r) m h))
  ]

-- The rows are those of a table with one row for each name that `of_app` gives a value.
pub record IsTable {V Row : Type 0} (row : Bytes × V → Row) (of_app : Bytes → Option V)
    (rows : List Row) : Type 0 where
  pub totals : List (Bytes × V)
  pub distinct : Distinct totals
  pub exact : (k : Bytes) → find k totals ≡ of_app k
  pub perm : Perm rows (map row totals)

-- The rows shown are the first `limit` ones of such a table, which is sorted: what is left out does
-- not stand above what is shown.
pub record IsTop {V Row : Type 0} (row : Bytes × V → Row) (of_app : Bytes → Option V)
    (Above : Row → Row → Type 0) (limit : ℕ) (rows : List Row) : Type 0 where
  pub left_out : List Row
  pub table : IsTable row of_app (rows ++ left_out)
  pub sorted : Pairwise Above (rows ++ left_out)
  pub size : length rows ≡ min limit (length (rows ++ left_out))

abbrev pub drop : {A : Type 0} → ℕ → List A → List A
drop zero xs = xs
drop (suc n) [] = []
drop (suc n) (x ∷ xs) = drop n xs

take-append-drop : {A : Type 0} (n : ℕ) (xs : List A) → take n xs ++ drop n xs ≡ xs
take-append-drop zero xs = refl
take-append-drop (suc n) [] = refl
take-append-drop (suc n) (x ∷ xs) = ap (λ ys. x ∷ ys) (take-append-drop n xs)

length-take : {A : Type 0} (n : ℕ) (xs : List A) → length (take n xs) ≡ min n (length xs)
length-take zero xs = omega arith
length-take (suc n) [] = omega arith
length-take (suc n) (x ∷ xs) = omega (arith, length-take n xs)

module _ {A : Type 0} (before : A → A → Bool) where
  insert_sorted-perm : (x : A) (ys : List A) → Perm (insert_sorted before x ys) (x ∷ ys)
  unfolding insert_sorted
  insert_sorted-perm x [] = Perm.rfl
  insert_sorted-perm x (y ∷ ys) = elim (Bool-cases (before y x)) [
    | inl e ↦ rw e (Perm.trans (Perm.cons y (insert_sorted-perm x ys)) (Perm.swap x y ys))
    | inr e ↦ rw e Perm.rfl
  ]

  pub sort_by-perm : (xs : List A) → Perm (sort_by before xs) xs
  unfolding sort_by
  sort_by-perm [] = Perm.rfl
  sort_by-perm (x ∷ xs) =
      Perm.trans (insert_sorted-perm x (sort_by before xs)) (Perm.cons x (sort_by-perm xs))

  -- No later element stands strictly before an earlier one.
  abbrev pub NotAfter : A → A → Type 0
  NotAfter x y = before y x ≡ false

  module _ (P : A → Type 0) (asym : (x y : A) → before x y ≡ true → before y x ≡ false)
      (trans : (x y z : A)
        → P y
        → before y x ≡ false
        → before z y ≡ false
        → before z x ≡ false) where
    below_cons :
        (x y : A) (ys : List A)
        → NotAfter x y
        → ((z : A) → Mem z ys → NotAfter x z)
        → (z : A) → Mem z (y ∷ ys)
        → NotAfter x z
    below_cons x y ys h below = (forall_mem-cons (λ z. Bool-set (before z x) false)).1 (h, below)

    All-insert_sorted : (x : A) (ys : List A) → P x → All P ys → All P (insert_sorted before x ys)
    unfolding insert_sorted
    All-insert_sorted x [] p h = (p, tt)
    All-insert_sorted x (y ∷ ys) p (q, h) = elim (Bool-cases (before y x)) [
      | inl e ↦ rw e (q, All-insert_sorted x ys p h)
      | inr e ↦ rw e (p, (q, h))
    ]

    insert_sorted-sorted :
        (x : A) (ys : List A)
        → All P ys
        → Pairwise NotAfter ys
        → Pairwise NotAfter (insert_sorted before x ys)
    unfolding insert_sorted
    insert_sorted-sorted x [] h s = Pairwise-singleton _ x
    insert_sorted-sorted x (y ∷ ys) (q, h) (Pairwise.cons below s) =
        elim (Bool-cases (before y x)) [
          | inl e ↦ rw e (
              Pairwise.cons
                (λ z m.
                  below_cons y x ys (asym y x e) below z
                    ((Perm.mem_iff (insert_sorted-perm x ys)).0 m))
                (insert_sorted-sorted x ys h s))
          | inr e ↦ rw e (
              Pairwise.cons (below_cons x y ys e (λ z m. trans x y z q e (below z m)))
                (Pairwise.cons below s))
        ]

    All-sort_by : (xs : List A) → All P xs → All P (sort_by before xs)
    unfolding sort_by
    All-sort_by [] h = tt
    All-sort_by (x ∷ xs) (p, h) = All-insert_sorted x (sort_by before xs) p (All-sort_by xs h)

    pub sort_by-sorted : (xs : List A) → All P xs → Pairwise NotAfter (sort_by before xs)
    unfolding sort_by
    sort_by-sorted [] h = Pairwise.nil
    sort_by-sorted (x ∷ xs) (p, h) =
        insert_sorted-sorted x (sort_by before xs) (All-sort_by xs h) (sort_by-sorted xs h)

pub All-of : {A : Type 0} (P : A → Type 0) → ((x : A) → P x) → (xs : List A) → All P xs
All-of P h [] = tt
All-of P h (x ∷ xs) = (h x, All-of P h xs)

pub map-map :
    {A B C : Type 0} (f : B → C) (g : A → B) (xs : List A)
    → map f (map g xs) ≡ map (λ x. f (g x)) xs
map-map f g [] = refl
map-map f g (x ∷ xs) = ap (λ ys. f (g x) ∷ ys) (map-map f g xs)

pub All-map :
    {A B : Type 0} (P : B → Type 0) (f : A → B) (xs : List A)
    → All (λ a. P (f a)) xs
    → All P (map f xs)
All-map P f [] h = tt
All-map P f (x ∷ xs) (p, h) = (p, All-map P f xs h)

-- Entries in the order of the map, turned into rows, sorted and cut.
module _ {V Row : Type 0} (row : Bytes × V → Row) (of_app : Bytes → Option V) (o : HashOrder)
    (before : Row → Row → Bool) (m : List (Bytes × V)) (distinct : Distinct m)
    (exact : (k : Bytes) → find k m ≡ of_app k) where
  pub sorted-IsTable : IsTable row of_app (sort_by before (map row (o.order m)))
  sorted-IsTable = record {
    totals = m;
    distinct = distinct;
    exact = exact;
    perm = Perm.trans (sort_by-perm before (map row (o.order m))) (Perm.map row (o.order-perm m));
  }

  pub take-IsTop :
      (asym : (x y : Row) → before x y ≡ true → before y x ≡ false)
      (trans : (x y z : Row) → before y x ≡ false → before z y ≡ false → before z x ≡ false)
      (limit : ℕ)
      → IsTop row of_app (NotAfter before) limit (take limit (sort_by before (map row (o.order m))))
  take-IsTop asym trans limit =
      let all = sort_by before (map row (o.order m)) in
      record {
        left_out = drop limit all;
        table = rw (take-append-drop limit all) sorted-IsTable;
        sorted = rw (take-append-drop limit all) (
            sort_by-sorted before (λ r. Unit {0}) asym (λ x y z p. trans x y z) _
              (All-of _ (λ r. tt) _));
        size = rw (take-append-drop limit all) (length-take limit all);
      }
