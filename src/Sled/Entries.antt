-- ===== src/Sled/Entries.antt =====
-- Lists of entries in ascending order of their keys, as a scan returns them.
use heimwatch.Prelude.{
  ◌≡◌, refl, ap, sym, ◌∙◌, true, false, ◌⊎◌, inl, inr, List, [], ◌∷◌, none, some, arith, Bytes,
  le_bytes, le_bytes_refl, le_bytes_antisym, lt_bytes_trans, eq_bytes, eq_bytes_iff, eq_bytes_refl,
  Bool-cases,
}
use heimwatch.Sled.{Entries, lookup, After, Ascending}

-- Membership with the place kept.
abbrev pub In : {A : Type 0} → A → List A → Type 0
In a [] = ⊥
In a (x ∷ xs) = (x ≡ a) ⊎ In a xs

pub lookup-After : (k : Bytes) (l : Entries) → After k l → Ascending l → lookup k l ≡ none
lookup-After k [] a s = refl
lookup-After k ((j, w) ∷ l) a (b, s) =
    ground (arith, eq_bytes_iff j k, le_bytes_refl k, lookup-After k l (After-trans k j l a b) s)
  where
    After-trans : (x y : Bytes) (m : Entries) → le_bytes y x ≡ false → After y m → After x m
    After-trans x y [] h c = tt
    After-trans x y ((i, u) ∷ m) h c = lt_bytes_trans x y i h c

pub lookup-In : (k v : Bytes) (l : Entries) → lookup k l ≡ some v → In (k, v) l
lookup-In k v [] h = cc
lookup-In k v ((j, w) ∷ l) h = elim (Bool-cases (eq_bytes j k)) [
  | inl e ↦
      let same : j ≡ k = (eq_bytes_iff j k).0 e in let value : w ≡ v = ground arith in inl (cc)
  | inr e ↦ inr (lookup-In k v l (rw e at h))
]

pub In-lookup : (k v : Bytes) (l : Entries) → Ascending l → In (k, v) l → lookup k l ≡ some v
In-lookup k v [] s m = absurd m
In-lookup k v ((j, w) ∷ l) (a, s) (inl e) =
    let same : j ≡ k = ap (λ (p : Bytes × Bytes). p.0) e in
    let value : w ≡ v = ap (λ (p : Bytes × Bytes). p.1) e in ground (arith, eq_bytes_iff j k)
In-lookup k v ((j, w) ∷ l) (a, s) (inr m) =
    let found = In-lookup k v l s m in ground (arith, eq_bytes_iff j k, lookup-After j l a s)

-- A list of entries does not begin behind the first of a list that finds the same values.
le_heads :
    (k v j w : Bytes) (l m : Entries)
    → Ascending ((k, v) ∷ l)
    → lookup j ((k, v) ∷ l) ≡ lookup j ((j, w) ∷ m)
    → le_bytes k j ≡ true
le_heads k v j w l m s h = elim (Bool-cases (le_bytes k j)) [
  | inl le ↦ le
  | inr gt ↦ ground (arith, lookup-After j ((k, v) ∷ l) gt s, eq_bytes_refl j)
]

tails :
    (k v j w : Bytes) (l m : Entries) (i : Bytes)
    → k ≡ j
    → Ascending ((k, v) ∷ l)
    → Ascending ((j, w) ∷ m)
    → lookup i ((k, v) ∷ l) ≡ lookup i ((j, w) ∷ m)
    → lookup i l ≡ lookup i m
tails k v j w l m i heads (a, s) (b, t) h = elim (Bool-cases (eq_bytes k i)) [
  | inl e ↦
      let same : k ≡ i = (eq_bytes_iff k i).0 e in
      rw (lookup-After i l (rw same at a) s, lookup-After i m (rw (sym heads ∙ same) at b) t)
  | inr e ↦ let e' : eq_bytes j i ≡ false = rw (← heads) e in ground arith
]

-- Two scans in order that find the same values are the same list.
pub Ascending-unique :
    (l m : Entries) → Ascending l → Ascending m → ((k : Bytes) → lookup k l ≡ lookup k m) → l ≡ m
Ascending-unique [] [] s t h = refl
Ascending-unique [] ((j, w) ∷ m) s t h = ground (arith, h j, eq_bytes_refl j)
Ascending-unique ((k, v) ∷ l) [] s t h = ground (arith, h k, eq_bytes_refl k)
Ascending-unique ((k, v) ∷ l) ((j, w) ∷ m) s t h =
    let there = le_heads k v j w l m s (h j) in
    let back = le_heads j w k v m l t (sym (h k)) in
    let same : k ≡ j = le_bytes_antisym k j there back in
    let value : v ≡ w = ground (arith, h k, eq_bytes_refl k, eq_bytes_iff j k) in
    let rest = Ascending-unique l m s.1 t.1 (λ i. tails k v j w l m i same s t (h i)) in cc
