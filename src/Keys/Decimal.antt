-- ===== src/Keys/Decimal.antt =====
-- `{:020}` of a `u64`: the decimal print, padded with zeros to twenty places, and its order.
use native.Mathlib.Nat.{pow-suc}
use heimwatch.Prelude.{
  sym, ℕ, zero, suc, ◌+◌, ◌-◌, ◌/◌, ◌%◌, ◌^◌, ◌<◌, ◌≡◌, refl, ap, ◌∙◌, [], ◌∷◌, ◌++◌, true, false,
  arith, Bytes, codes, length, replicate, le_bytes, ltb, ◌==◌, if◌then◌else◌, inl, inr, Bool-cases,
  u64_max, ◌≤◌,
}

abbrev pub digit : ℕ → ℕ
digit d = b'0' + d

-- The digits of `n` in front of `out`, from the last one on; `fuel` bounds their number.
unfoldable pub digits : ℕ → ℕ → Bytes → Bytes
digits zero n out = out
digits (suc fuel) n out =
    let rest = digits fuel (n / 10) (digit (n % 10) ∷ out) in if n == 0 then out else rest

-- A `u64` has at most twenty digits.
unfoldable pub to_decimal : ℕ → Bytes
to_decimal n = if n == 0 then codes "0" else digits 20 n []

abbrev pub pad : ℕ → Bytes → Bytes
pad width s = replicate (width - length s) b'0' ++ s

unfoldable pub zero_padded : ℕ → Bytes
unfolding to_decimal
zero_padded n = pad 20 (to_decimal n)

-- Exactly `width` digits in front of `out`.
unfoldable pub fixed : ℕ → ℕ → Bytes → Bytes
fixed zero n out = out
fixed (suc width) n out = fixed width (n / 10) (digit (n % 10) ∷ out)

pub length-fixed : (w n : ℕ) (out : Bytes) → length (fixed w n out) ≡ w + length out
unfolding fixed
length-fixed zero n out = omega arith
length-fixed (suc w) n out = omega (arith, length-fixed w (n / 10) (digit (n % 10) ∷ out))

replicate_end :
    (n : ℕ) (out : Bytes) → replicate n b'0' ++ b'0' ∷ out ≡ replicate (suc n) b'0' ++ out
replicate_end zero out = refl
replicate_end (suc n) out = ap (λ xs. b'0' ∷ xs) (replicate_end n out)

fixed_zero : (w : ℕ) (out : Bytes) → fixed w 0 out ≡ replicate w b'0' ++ out
unfolding fixed
fixed_zero zero out = refl
fixed_zero (suc w) out = fixed_zero w (b'0' ∷ out) ∙ replicate_end w out

-- `m` is the number of places that are left to pad.
fixed-digits :
    (w n m : ℕ) (out : Bytes)
    → n < 10 ^ w
    → m + length (digits w n out) ≡ w + length out
    → fixed w n out ≡ replicate m b'0' ++ digits w n out
unfolding fixed digits
fixed-digits zero n m out h e = let z : m ≡ 0 = omega arith in rw z refl
fixed-digits (suc w) n m out h e = elim (Bool-cases (n == 0)) [
  | inl t ↦
      let z : n ≡ 0 = ground arith in
      let k : m ≡ suc w = ground arith in rw (t, z, k) (fixed_zero (suc w) out)
  | inr t ↦ rw t (
      fixed-digits w (n / 10) m (digit (n % 10) ∷ out) (omega (arith, pow-suc 10 w)) (ground arith))
]

length-digits : (w n : ℕ) (out : Bytes) → length (digits w n out) ≤ w + length out
unfolding digits
length-digits zero n out = omega arith
length-digits (suc w) n out = ground (arith, length-digits w (n / 10) (digit (n % 10) ∷ out))

-- The padded print of a `u64` has exactly twenty digits.
pub zero_padded-fixed : (n : ℕ) → n ≤ u64_max → zero_padded n ≡ fixed 20 n []
unfolding zero_padded
zero_padded-fixed n h = elim (Bool-cases (n == 0)) [
  | inl t ↦ let z : n ≡ 0 = ground arith in rw (t, z) (unfold fixed in refl)
  | inr t ↦ rw t (
      sym (
        fixed-digits 20 n (20 - length (digits 20 n [])) [] (omega arith)
          (omega (arith, length-digits 20 n []))))
]

le_bytes-fixed_same : (w n : ℕ) (x y : Bytes) → le_bytes (fixed w n x) (fixed w n y) ≡ le_bytes x y
unfolding fixed
le_bytes-fixed_same zero n x y = refl
le_bytes-fixed_same (suc w) n x y =
    le_bytes-fixed_same w (n / 10) (digit (n % 10) ∷ x) (digit (n % 10) ∷ y) ∙ ground arith

-- Texts of as many digits are ordered as the numbers, and then as what follows the digits.
pub le_bytes-fixed :
    (w a b : ℕ) (x y : Bytes)
    → a < 10 ^ w
    → b < 10 ^ w
    → le_bytes (fixed w a x) (fixed w b y)
      ≡ (if ltb a b then true else if a == b then le_bytes x y else false)
unfolding fixed
le_bytes-fixed zero a b x y ha hb =
    let za : a ≡ 0 = omega arith in let zb : b ≡ 0 = omega arith in rw (za, zb) refl
le_bytes-fixed (suc w) a b x y ha hb =
    le_bytes-fixed w (a / 10) (b / 10) (digit (a % 10) ∷ x) (digit (b % 10) ∷ y)
      (omega (arith, pow-suc 10 w)) (omega (arith, pow-suc 10 w))
    ∙ ground arith

zero_padded_max : zero_padded u64_max ≡ codes "18446744073709551615"
unfolding zero_padded digits
zero_padded_max = refl

zero_padded_small : zero_padded 1711890000 ≡ codes "00000000001711890000"
unfolding zero_padded digits
zero_padded_small = refl

pub fixed-append : (w n : ℕ) (x y : Bytes) → fixed w n x ++ y ≡ fixed w n (x ++ y)
unfolding fixed
fixed-append zero n x y = refl
fixed-append (suc w) n x y = fixed-append w (n / 10) (digit (n % 10) ∷ x) y
