-- ===== src/Prelude/Text.antt =====
-- Byte strings (`Vec<u8>`, and `String` as its UTF-8 bytes) with their order and equality.
use Prim.Native.Nat.{ℕ}
use Prim.Native.Char.{code}
use Prim.Native.String.{String}
use mathlib.Core.Path.{◌≡◌, refl}
use mathlib.Core.Logic.{◌↔◌}
use mathlib.Core.Bool.{Bool, true, false, ◌&&◌}
use mathlib.Core.List.{List, [], ◌∷◌}
use native.Mathlib.Omega.{arith}
use heimwatch.Prelude.Tests.{ltb, ◌==◌, if◌then◌else◌}

abbrev pub Bytes : Type 0
Bytes = List ℕ

-- The code points of a literal: its bytes, since every literal here is ASCII.
abbrev pub codes : String → Bytes
codes String.[] = []
codes (String.◌∷◌ c s) = code c ∷ codes s

-- The lexicographic order of `Vec<u8>`.
abbrev pub le_bytes : Bytes → Bytes → Bool
le_bytes [] ys = true
le_bytes (x ∷ xs) [] = false
le_bytes (x ∷ xs) (y ∷ ys) =
    let rest = le_bytes xs ys in if ltb x y then true else if x == y then rest else false

abbrev pub eq_bytes : Bytes → Bytes → Bool
eq_bytes [] [] = true
eq_bytes [] (y ∷ ys) = false
eq_bytes (x ∷ xs) [] = false
eq_bytes (x ∷ xs) (y ∷ ys) = (x == y) && eq_bytes xs ys

pub eq_bytes_iff : (xs ys : Bytes) → (eq_bytes xs ys ≡ true) ↔ (xs ≡ ys)
eq_bytes_iff [] [] = ((λ _. refl), λ _. refl)
eq_bytes_iff [] (y ∷ ys) = ((λ h. cc), λ h. cc)
eq_bytes_iff (x ∷ xs) [] = ((λ h. cc), λ h. cc)
eq_bytes_iff (x ∷ xs) (y ∷ ys) = ground (arith, eq_bytes_iff xs ys)

pub eq_bytes_refl : (xs : Bytes) → eq_bytes xs xs ≡ true
eq_bytes_refl xs = (eq_bytes_iff xs xs).1 refl

pub le_bytes_antisym : (x y : Bytes) → le_bytes x y ≡ true → le_bytes y x ≡ true → x ≡ y
le_bytes_antisym [] [] h k = refl
le_bytes_antisym [] (b ∷ y) h k = cc
le_bytes_antisym (a ∷ x) [] h k = cc
le_bytes_antisym (a ∷ x) (b ∷ y) h k = ground (arith, le_bytes_antisym x y)

pub le_bytes_refl : (x : Bytes) → le_bytes x x ≡ true
le_bytes_refl [] = refl
le_bytes_refl (a ∷ x) = ground (arith, le_bytes_refl x)

-- `le_bytes y x ≡ false` says that `x` stands strictly before `y`.
pub le_bytes_total : (x y : Bytes) → le_bytes x y ≡ false → le_bytes y x ≡ true
le_bytes_total [] y h = cc
le_bytes_total (a ∷ x) [] h = refl
le_bytes_total (a ∷ x) (b ∷ y) h = ground (arith, le_bytes_total x y)

pub lt_bytes_trans :
    (x y z : Bytes) → le_bytes y x ≡ false → le_bytes z y ≡ false → le_bytes z x ≡ false
lt_bytes_trans x [] z h k = cc
lt_bytes_trans x (b ∷ y) [] h k = cc
lt_bytes_trans [] (b ∷ y) (c ∷ z) h k = refl
lt_bytes_trans (a ∷ x) (b ∷ y) (c ∷ z) h k = ground (arith, lt_bytes_trans x y z)

pub le_bytes_trans :
    (x y z : Bytes) → le_bytes x y ≡ true → le_bytes y z ≡ true → le_bytes x z ≡ true
le_bytes_trans [] y z h k = refl
le_bytes_trans (a ∷ x) [] z h k = cc
le_bytes_trans (a ∷ x) (b ∷ y) [] h k = cc
le_bytes_trans (a ∷ x) (b ∷ y) (c ∷ z) h k = ground (arith, le_bytes_trans x y z)
