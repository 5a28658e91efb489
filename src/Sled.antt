-- ===== src/Sled.antt =====
-- The embedded database of crates/heimwatch-storage (the crate sled) as the storage layer uses it:
-- a tree is a map from keys to values, both byte strings, ordered by key. The laws are what sled
-- documents of `get`, `insert`, `apply_batch` and `range`; a failing disk is outside the model.
pub mod Memory
pub mod Entries
use heimwatch.Prelude.{
  ℕ, Bool, true, false, ◌&&◌, ◌≡◌, List, [], ◌∷◌, Option, none, some, Bytes, le_bytes, eq_bytes,
  if◌then◌else◌,
}

abbrev pub Entries : Type 0
Entries = List (Bytes × Bytes)

abbrev pub lookup : Bytes → Entries → Option Bytes
lookup k [] = none
lookup k ((j, v) ∷ l) = let rest = lookup k l in if eq_bytes j k then some v else rest

-- One entry of a `sled::Batch`.
pub data BatchOp : Type 0 where
  insert : Bytes → Bytes → BatchOp
  remove : Bytes → BatchOp

abbrev pub Batch : Type 0
Batch = List BatchOp

-- What a batch leaves at a key where `old` was stored: its operations take effect in order.
abbrev pub after_batch : Bytes → Batch → Option Bytes → Option Bytes
after_batch k [] old = old
after_batch k (BatchOp.insert j v ∷ b) old = after_batch k b (if eq_bytes j k then some v else old)
after_batch k (BatchOp.remove j ∷ b) old = after_batch k b (if eq_bytes j k then none else old)

-- The first key comes strictly after `k`.
abbrev pub After : Bytes → Entries → Type 0
After k [] = Unit
After k ((j, w) ∷ l) = le_bytes j k ≡ false

-- Keys in strictly ascending order.
abbrev pub Ascending : Entries → Type 0
Ascending [] = Unit
Ascending ((k, v) ∷ l) = After k l × Ascending l

pub record Sled : Type 1 where
  pub Tree : Type 0
  pub get : Tree → Bytes → Option Bytes
  pub insert : Bytes → Bytes → Tree → Tree
  pub apply_batch : Batch → Tree → Tree
  -- `tree.range(lo..=hi)`
  pub range : Tree → Bytes → Bytes → Entries
  pub get-insert :
      (t : Tree) (k v j : Bytes) → get (insert k v t) j ≡ (if eq_bytes k j then some v else get t j)
  pub get-apply_batch :
      (t : Tree) (b : Batch) (j : Bytes) → get (apply_batch b t) j ≡ after_batch j b (get t j)
  pub lookup-range :
      (t : Tree) (lo hi k : Bytes)
      → lookup k (range t lo hi) ≡ (if le_bytes lo k && le_bytes k hi then get t k else none)
  pub range-Ascending : (t : Tree) (lo hi : Bytes) → Ascending (range t lo hi)
