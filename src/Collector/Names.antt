-- ===== src/Collector/Names.antt =====
-- What `comm_to_string` of crates/heimwatch-collector/src/util.rs gives for a padded name.
use heimwatch.Prelude.{
  ℕ, suc, zero, ◌≡◌, refl, ap, ◌∙◌, true, false, ◌&&◌, List, [], ◌∷◌, ◌++◌, some, Bytes, replicate,
  leb, ◌==◌, All, Bool-cases, Option-cases, inl, inr, append_assoc,
}
use heimwatch.Keys.Std.{following, utf8_from, from_utf8}
use heimwatch.Collector.{
  first_byte, before_zero, lossy_from, from_utf8_lossy, non_empty, comm_to_string,
}

-- No byte of the name is zero.
abbrev pub NonZero : Bytes → Type 0
NonZero = All (λ b. (b == 0) ≡ false)

before_zero-padded : (s : Bytes) (n : ℕ) → NonZero s → before_zero (s ++ replicate n 0) ≡ s
unfolding before_zero
before_zero-padded [] zero h = refl
before_zero-padded [] (suc n) h = refl
before_zero-padded (b ∷ s) n (h, hs) = rw (h, before_zero-padded s n hs) refl

module _ (b : ℕ) (next : List (ℕ × ℕ) → Bytes → Bytes) where
  first_byte-alone : following b ≡ some [] → first_byte b next ≡ b ∷ next [] []
  first_byte-alone e = rw (e, first_byte) refl

  first_byte-followed :
      (r : ℕ × ℕ) (rs : List (ℕ × ℕ))
      → following b ≡ some (r ∷ rs)
      → first_byte b next ≡ next (r ∷ rs) (b ∷ [])
  first_byte-followed r rs e = rw (e, first_byte) refl

-- Text that is UTF-8 stays as it is.
lossy_from-utf8_from :
    (rs : List (ℕ × ℕ)) (read s : Bytes)
    → utf8_from rs s ≡ true
    → lossy_from rs read s ≡ (elim rs [ [] ↦ s | r ∷ qs ↦ read ++ s ])
unfolding lossy_from utf8_from
lossy_from-utf8_from [] read [] h = refl
lossy_from-utf8_from (r ∷ rs) read [] h = cc
lossy_from-utf8_from [] read (b ∷ s) h = elim (Option-cases (following b)) [
  | inl e ↦ let bad = rw (e, utf8_from) at h in cc
  | inr ([], e) ↦
      first_byte-alone b (λ qs p. lossy_from qs p s) e
      ∙ ap (λ t. b ∷ t) (lossy_from-utf8_from [] [] s (rw (e, utf8_from) at h))
  | inr (r ∷ rs, e) ↦
      first_byte-followed b (λ qs p. lossy_from qs p s) r rs e
      ∙ lossy_from-utf8_from (r ∷ rs) (b ∷ []) s (rw (e, utf8_from) at h)
]
lossy_from-utf8_from ((lo, hi) ∷ []) read (b ∷ s) h = elim (Bool-cases (leb lo b && leb b hi)) [
  | inl e ↦
      rw (e, lossy_from)
        (ap (λ t. (read ++ b ∷ []) ++ t) (lossy_from-utf8_from [] [] s (rw (e, utf8_from) at h))
          ∙ append_assoc read (b ∷ []) s)
  | inr e ↦ let bad = rw (e, utf8_from) at h in cc
]
lossy_from-utf8_from ((lo, hi) ∷ (r ∷ rs)) read (b ∷ s) h =
    elim (Bool-cases (leb lo b && leb b hi)) [
      | inl e ↦
          rw (e, lossy_from)
            (lossy_from-utf8_from (r ∷ rs) (read ++ b ∷ []) s (rw (e, utf8_from) at h)
              ∙ append_assoc read (b ∷ []) s)
      | inr e ↦ let bad = rw (e, utf8_from) at h in cc
    ]

-- A name that is UTF-8, is not empty and holds no zero is read back from the field that the kernel
-- pads with zeros, whatever their number.
pub comm_to_string-padded :
    (b n : ℕ) (s : Bytes)
    → NonZero (b ∷ s)
    → from_utf8 (b ∷ s) ≡ true
    → comm_to_string ((b ∷ s) ++ replicate n 0) ≡ some (b ∷ s)
unfolding comm_to_string from_utf8_lossy from_utf8
comm_to_string-padded b n s h utf8 =
    ap non_empty (before_zero-padded (b ∷ s) n h)
    ∙ ap some (lossy_from-utf8_from [] [] (b ∷ s) utf8)
