-- ===== src/Keys/Std.antt =====
-- What keys.rs uses of the standard library: `String::from_utf8`, `str::split` and
-- `str::parse::<u64>`, over bytes.
use heimwatch.Prelude.{
  ℕ, ◌+◌, ◌-◌, ◌*◌, ◌/◌, ◌%◌, ◌^◌, ◌<◌, ◌≤◌, zero, suc, Bool, true, false, ◌&&◌, ◌||◌, ◌≡◌, ◌≢◌,
  refl, ap, ◌∙◌, List, [], ◌∷◌, ◌++◌, Option, none, some, arith, Bytes, codes, length, All, ltb,
  leb, ◌==◌, if◌then◌else◌, u64_max, Bool-cases, inl, inr,
}
use native.Mathlib.Nat.{pow-suc}
use heimwatch.Error.{IntFault}
use heimwatch.Keys.Decimal.{digit, fixed}

-- The ranges in which the bytes after a first byte must lie, if it can be a first byte.
abbrev pub following : ℕ → Option (List (ℕ × ℕ))
following b =
    if ltb b 0x80
    then some []
    else if leb 0xc2 b && leb b 0xdf
    then some ((0x80, 0xbf) ∷ [])
    else if b == 0xe0
    then some ((0xa0, 0xbf) ∷ (0x80, 0xbf) ∷ [])
    else if b == 0xed
    then some ((0x80, 0x9f) ∷ (0x80, 0xbf) ∷ [])
    else if leb 0xe1 b && leb b 0xef
    then some ((0x80, 0xbf) ∷ (0x80, 0xbf) ∷ [])
    else if b == 0xf0
    then some ((0x90, 0xbf) ∷ (0x80, 0xbf) ∷ (0x80, 0xbf) ∷ [])
    else if leb 0xf1 b && leb b 0xf3
    then some ((0x80, 0xbf) ∷ (0x80, 0xbf) ∷ (0x80, 0xbf) ∷ [])
    else if b == 0xf4
    then some ((0x80, 0x8f) ∷ (0x80, 0xbf) ∷ (0x80, 0xbf) ∷ [])
    else none

unfoldable pub utf8_from : List (ℕ × ℕ) → Bytes → Bool
utf8_from [] [] = true
utf8_from (r ∷ rs) [] = false
utf8_from ((lo, hi) ∷ rs) (b ∷ s) = (leb lo b && leb b hi) && utf8_from rs s
utf8_from [] (b ∷ s) = elim (following b) [ none ↦ false | some rs ↦ utf8_from rs s ]

-- Whether the bytes are UTF-8.
unfoldable pub from_utf8 : Bytes → Bool
unfolding utf8_from
from_utf8 s = utf8_from [] s

abbrev pub IsAscii : ℕ → Type 0
IsAscii b = b < 0x80

pub from_utf8-append : (p s : Bytes) → All IsAscii p → from_utf8 (p ++ s) ≡ from_utf8 s
unfolding from_utf8
from_utf8-append [] s h = refl
from_utf8-append (b ∷ p) s (hb, hp) = ground (arith, from_utf8-append p s hp)

abbrev push_first : ℕ → List Bytes → List Bytes
push_first c [] = (c ∷ []) ∷ []
push_first c (p ∷ ps) = (c ∷ p) ∷ ps

-- The parts between the separators: one more than there are separators.
unfoldable pub split : ℕ → Bytes → List Bytes
split sep [] = [] ∷ []
split sep (c ∷ s) = let rest = split sep s in if c == sep then [] ∷ rest else push_first c rest

abbrev pub Lacks : ℕ → Bytes → Type 0
Lacks sep = All (λ c. c ≢ sep)

pub split-append :
    (sep : ℕ) (p s : Bytes) → Lacks sep p → split sep (p ++ (sep ∷ s)) ≡ p ∷ split sep s
unfolding split
split-append sep [] s h = ground arith
split-append sep (c ∷ p) s (hc, hp) = ground (arith, split-append sep p s hp)

-- How often `sep` stands in a text.
unfoldable pub count : ℕ → Bytes → ℕ
count sep [] = 0
count sep (c ∷ s) = let rest = count sep s in if c == sep then suc rest else rest

pub split-count : (sep : ℕ) (s : Bytes) → (count sep s ≡ 0) → split sep s ≡ s ∷ []
unfolding split count
split-count sep [] h = refl
split-count sep (c ∷ s) h = ground (arith, split-count sep s)

pub length-split : (sep : ℕ) (s : Bytes) → length (split sep s) ≡ suc (count sep s)
unfolding split count
length-split sep [] = refl
length-split sep (c ∷ s) = ground (arith, length-split sep s)

abbrev pub join : ℕ → List Bytes → Bytes
join sep [] = []
join sep (p ∷ []) = p
join sep (p ∷ q ∷ ps) = p ++ (sep ∷ join sep (q ∷ ps))

join-push_first : (sep c : ℕ) (ps : List Bytes) → join sep (push_first c ps) ≡ c ∷ join sep ps
join-push_first sep c [] = refl
join-push_first sep c (p ∷ []) = refl
join-push_first sep c (p ∷ q ∷ ps) = refl

pub split-ne-nil : (sep : ℕ) (s : Bytes) → split sep s ≢ []
split-ne-nil sep s e = absurd (omega (arith, length-split sep s, ap length e))

join-nil : (sep : ℕ) (ps : List Bytes) → ps ≢ [] → join sep ([] ∷ ps) ≡ sep ∷ join sep ps
join-nil sep [] h = absurd (h refl)
join-nil sep (p ∷ ps) h = refl

pub join-split : (sep : ℕ) (s : Bytes) → join sep (split sep s) ≡ s
unfolding split
join-split sep [] = refl
join-split sep (c ∷ s) = elim (Bool-cases (c == sep)) [
  | inl e ↦
      rw (e, join-nil sep (split sep s) (split-ne-nil sep s)) (ground (arith, join-split sep s))
  | inr e ↦ rw (e, join-push_first sep c (split sep s)) (ap (λ xs. c ∷ xs) (join-split sep s))
]

pub data Parsed : Type 0 where
  parsed : ℕ → Parsed
  refused : IntFault → Parsed

unfoldable pub scan : ℕ → Bytes → Parsed
scan n [] = parsed n
scan n (c ∷ s) =
    if ltb c b'0' || ltb b'9' c
    then refused IntFault.invalid_digit
    else if ltb u64_max (n * 10 + (c - b'0'))
    then refused IntFault.pos_overflow
    else scan (n * 10 + (c - b'0')) s

-- A leading `+` is accepted, unless it stands alone.
abbrev unsigned : ℕ → Bytes → Parsed
unsigned c [] = scan 0 (c ∷ [])
unsigned c (d ∷ s) = if c == b'+' then scan 0 (d ∷ s) else scan 0 (c ∷ d ∷ s)

unfoldable pub parse_u64 : Bytes → Parsed
unfolding scan
parse_u64 [] = refused IntFault.empty
parse_u64 (c ∷ s) = unsigned c s

pub scan-fixed : (w n : ℕ) (s : Bytes) → n < 10 ^ w → n ≤ u64_max → scan 0 (fixed w n s) ≡ scan n s
unfolding fixed
scan-fixed zero n s h fits = let z : n ≡ 0 = omega arith in rw z refl
scan-fixed (suc w) n s h fits =
    scan-fixed w (n / 10) (digit (n % 10) ∷ s) (omega (arith, pow-suc 10 w)) (omega arith)
    ∙ (unfold scan in ground arith)

pub IsDigit-fixed :
    (w n : ℕ) (s : Bytes)
    → All (λ c. (b'0' ≤ c) × (c ≤ b'9')) s
    → All (λ c. (b'0' ≤ c) × (c ≤ b'9')) (fixed w n s)
unfolding fixed
IsDigit-fixed zero n s h = h
IsDigit-fixed (suc w) n s h =
    IsDigit-fixed w (n / 10) (digit (n % 10) ∷ s) ((omega arith, omega arith), h)

zero_padded_parse : parse_u64 (codes "00000000001711890000") ≡ parsed 1711890000
unfolding parse_u64
zero_padded_parse = refl

not_a_number : parse_u64 (codes "12x") ≡ refused IntFault.invalid_digit
unfolding parse_u64
not_a_number = refl

too_large : parse_u64 (codes "18446744073709551616") ≡ refused IntFault.pos_overflow
unfolding parse_u64
too_large = refl
