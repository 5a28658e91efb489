-- ===== src/Ebpf/Map.antt =====
-- A BPF map as bpf/heimwatch-ebpf/src/main.rs uses it, and what its update of an entry does.
use heimwatch.Prelude.{
  ◌≡◌, Bool, Option, none, some, Bytes, eq_bytes, eq_bytes_iff, Bool-cases, Option-cases, inl, inr,
  ◌∙◌, refl, if◌then◌else◌,
}

-- `aya_ebpf::maps::HashMap<[u8; 16], V>`: `write` is a store through the pointer that `get_ptr_mut`
-- gave, and `insert` says whether it succeeded; it fails when the map is full.
pub record BpfMap (V : Type 0) : Type 1 where
  pub State : Type 0
  pub get_ptr_mut : State → Bytes → Option V
  pub write : Bytes → V → State → State
  pub insert : Bytes → V → State → State × Bool
  pub get-write :
      (m : State) (k : Bytes) (v old : V) (j : Bytes)
      → get_ptr_mut m k ≡ some old
      → get_ptr_mut (write k v m) j ≡ (if eq_bytes k j then some v else get_ptr_mut m j)
  pub get-insert :
      (m : State) (k : Bytes) (v : V) (j : Bytes)
      → get_ptr_mut m k ≡ none
      → get_ptr_mut (insert k v m).0 j ≡ (
          if (insert k v m).1
          then if eq_bytes k j then some v else get_ptr_mut m j
          else get_ptr_mut m j)

-- `match MAP.get_ptr_mut(&comm) { Some(s) => .., None => MAP.insert(&comm, &new_stats, 0) }`
abbrev pub update_or_insert :
    {V : Type 0} (map : BpfMap V) → Bytes → (V → V) → V → map.State → map.State
update_or_insert map comm change new_stats m = elim (map.get_ptr_mut m comm) [
  | some s ↦ map.write comm (change s) m
  | none ↦ (map.insert comm new_stats m).0
]

-- What the pattern does under every key that has an entry, and whether it adds one.
module _ {V : Type 0} (map : BpfMap V) where
  found_in :
      (k : Bytes) (change : V → V) (new s : V) (m : map.State)
      → map.get_ptr_mut m k ≡ some s
      → update_or_insert map k change new m ≡ map.write k (change s) m
  found_in k change new s m e = rw (e, update_or_insert) refl

  absent_in :
      (k : Bytes) (change : V → V) (new : V) (m : map.State)
      → map.get_ptr_mut m k ≡ none
      → update_or_insert map k change new m ≡ (map.insert k new m).0
  absent_in k change new m e = rw (e, update_or_insert) refl

  pub update_or_insert-some :
      (k : Bytes) (change : V → V) (new : V) (m : map.State) (j : Bytes) (s : V)
      → map.get_ptr_mut m j ≡ some s
      → map.get_ptr_mut (update_or_insert map k change new m) j
        ≡ some (if eq_bytes k j then change s else s)
  update_or_insert-some k change new m j s e = elim (Bool-cases (eq_bytes k j)) [
    | inl same ↦
        let k_found : map.get_ptr_mut m k ≡ some s = rw ((eq_bytes_iff k j).0 same) e in
        rw (found_in k change new s m k_found, same)
          (map.get-write m k (change s) s j k_found ∙ rw same refl)
    | inr other ↦ elim (Option-cases (map.get_ptr_mut m k)) [
      | inl absent ↦
          rw (absent_in k change new m absent, other)
            (map.get-insert m k new j absent
              ∙ rw other (elim (Bool-cases (map.insert k new m).1) [
                | inl fits ↦ rw fits e
                | inr full ↦ rw full e
              ]))
      | inr (t, found) ↦
          rw (found_in k change new t m found, other)
            (map.get-write m k (change t) t j found ∙ rw other e)
    ]
  ]

  -- A process that has no entry gets one only from its own update, if the map has room.
  pub update_or_insert-none :
      (k : Bytes) (change : V → V) (new : V) (m : map.State) (j : Bytes)
      → map.get_ptr_mut m j ≡ none
      → map.get_ptr_mut (update_or_insert map k change new m) j
        ≡ (if eq_bytes k j then if (map.insert k new m).1 then some new else none else none)
  update_or_insert-none k change new m j e = elim (Bool-cases (eq_bytes k j)) [
    | inl same ↦
        let absent : map.get_ptr_mut m k ≡ none = rw ((eq_bytes_iff k j).0 same) e in
        rw (absent_in k change new m absent, same)
          (map.get-insert m k new j absent ∙ rw (same, e) refl)
    | inr other ↦ elim (Option-cases (map.get_ptr_mut m k)) [
      | inl absent ↦
          rw (absent_in k change new m absent, other)
            (map.get-insert m k new j absent
              ∙ rw other (elim (Bool-cases (map.insert k new m).1) [
                | inl fits ↦ rw fits e
                | inr full ↦ rw full e
              ]))
      | inr (t, found) ↦
          rw (found_in k change new t m found, other)
            (map.get-write m k (change t) t j found ∙ rw other e)
    ]
  ]
