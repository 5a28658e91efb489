-- ===== src/Apps.antt =====
-- `HashMap<String, V>` as the sources use it to gather values by application: a list of its entries
-- with one for each name, the loops that fill it, and what becomes of its entries in a list that is
-- sorted and cut. The order in which a map is iterated is a parameter, `HashOrder`.
pub mod Tables
use mathlib.Core.List.{Perm, foldl}
use heimwatch.Prelude.{ℕ, Bool, List, [], ◌∷◌, Option, none, some, Bytes, eq_bytes, if◌then◌else◌}

abbrev pub find : {V : Type 0} → Bytes → List (Bytes × V) → Option V
find k [] = none
find k ((j, v) ∷ l) = let rest = find k l in if eq_bytes j k then some v else rest

-- `map.entry(name).or_insert(default)`, with `change` made to the value.
unfoldable pub entry : {V : Type 0} → V → (V → V) → Bytes → List (Bytes × V) → List (Bytes × V)
entry default change k [] = (k, change default) ∷ []
entry default change k ((j, v) ∷ l) =
    let rest = entry default change k l in if eq_bytes j k then (j, change v) ∷ l else (j, v) ∷ rest

-- `for record in records { if let Some(w) = get(record) { add w to the entry of its name } }`
unfoldable pub tally :
    {R V W : Type 0}
    → (R → Bytes)
    → (R → Option W)
    → V
    → (V → W → V)
    → List (Bytes × V)
    → List R
    → List (Bytes × V)
tally name get default add m [] = m
tally name get default add m (r ∷ rs) =
    tally name get default add
      (elim (get r) [ none ↦ m | some w ↦ entry default (λ v. add v w) (name r) m ]) rs

-- The order in which `into_iter` and `values` of a `HashMap` give the entries.
pub record HashOrder : Type 1 where
  pub order : {K V : Type 0} → List (K × V) → List (K × V)
  pub order-perm : {K V : Type 0} (m : List (K × V)) → Perm (order m) m

-- `sort_by`, which is stable: `before x y` says that the comparison of `x` with `y` is `Less`.
unfoldable pub insert_sorted : {A : Type 0} → (A → A → Bool) → A → List A → List A
insert_sorted before x [] = x ∷ []
insert_sorted before x (y ∷ ys) =
    let rest = insert_sorted before x ys in if before y x then y ∷ rest else x ∷ y ∷ ys

unfoldable pub sort_by : {A : Type 0} → (A → A → Bool) → List A → List A
unfolding insert_sorted
sort_by before [] = []
sort_by before (x ∷ xs) = insert_sorted before x (sort_by before xs)
