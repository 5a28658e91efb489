-- ===== src/Keys/Decode.antt =====
-- What `decode_key` of keys.rs reads back, and from which keys.
use heimwatch.Prelude.{
  ℕ, ◌+◌, ◌≤◌, true, ◌≡◌, ◌≢◌, refl, ap, ◌∙◌, List, [], ◌∷◌, ◌++◌, arith, Bytes, codes, length, All,
  ◌==◌, if◌then◌else◌, u64_max, eq_bytes_iff, Bool-cases, inl, inr,
}
use heimwatch.Core.Metrics.{MetricType, prefix}
use heimwatch.Keys.{colon, encode_key, decode_key, decode_parts, type_of_prefix}
use heimwatch.Error.{StorageError, invalid_key, unknown_prefix, part_count, Result, ok, err, ◌>>=◌}
use heimwatch.Keys.Decimal.{zero_padded, zero_padded-fixed, length-fixed}
use heimwatch.Keys.Std.{
  from_utf8, from_utf8-append, split, split-append, split-count, length-split, count, Lacks,
  parse_u64, parsed, join, join-split, scan, scan-fixed, IsDigit-fixed, IsAscii,
}

-- The type that the prefix of a type is read as.
abbrev pub readable : MetricType → Result StorageError MetricType
readable MetricType.gpu_proc = err (invalid_key (unknown_prefix (codes "gpc")))
readable mt = ok mt

type_of_prefix-prefix : (mt : MetricType) → type_of_prefix (prefix mt) ≡ readable mt
unfolding type_of_prefix prefix
type_of_prefix-prefix MetricType.net = refl
type_of_prefix-prefix mt = refl

-- Digits are neither colons nor beyond ASCII.
digits-Lacks : (s : Bytes) → All (λ c. (b'0' ≤ c) × (c ≤ b'9')) s → Lacks colon s × All IsAscii s
digits-Lacks [] h = (tt, tt)
digits-Lacks (c ∷ s) (hc, hs) =
    let (l, a) = digits-Lacks s hs in ((omega arith, l), (omega arith, a))

zero_padded-digits :
    (n : ℕ) → n ≤ u64_max → Lacks colon (zero_padded n) × All IsAscii (zero_padded n)
zero_padded-digits n h = rw (zero_padded-fixed n h) (digits-Lacks _ (IsDigit-fixed 20 n [] tt))

parse_u64-cons : (c : ℕ) (s : Bytes) → (b'0' ≤ c) → parse_u64 (c ∷ s) ≡ scan 0 (c ∷ s)
unfolding parse_u64
parse_u64-cons c [] h = refl
parse_u64-cons c (d ∷ s) h = ground arith

parse_u64-digits :
    (s : Bytes) → All (λ c. (b'0' ≤ c) × (c ≤ b'9')) s → s ≢ [] → parse_u64 s ≡ scan 0 s
parse_u64-digits [] h ne = absurd (ne refl)
parse_u64-digits (c ∷ s) (hc, hs) ne = parse_u64-cons c s hc.0

-- A `u64` is read back from its padded print.
pub parse_u64-zero_padded : (n : ℕ) → n ≤ u64_max → parse_u64 (zero_padded n) ≡ parsed n
parse_u64-zero_padded n h = rw (zero_padded-fixed n h) (
    parse_u64-digits _ (IsDigit-fixed 20 n [] tt)
      (λ e. absurd (omega (arith, length-fixed 20 n [], ap length e)))
    ∙ scan-fixed 20 n [] (omega arith) h
    ∙ (unfold scan in refl))

prefix-plain : (mt : MetricType) → Lacks colon (prefix mt) × All IsAscii (prefix mt)
unfolding prefix
prefix-plain MetricType.net = omega arith
prefix-plain mt = omega arith

-- The parts of a key.
split-encode_key :
    (mt : MetricType) (ts : ℕ) (app : Bytes)
    → ts ≤ u64_max
    → split colon (encode_key mt ts app) ≡ prefix mt ∷ zero_padded ts ∷ split colon app
unfolding encode_key
split-encode_key mt ts app h = rw (
  split-append colon (prefix mt) _ (prefix-plain mt).0,
  split-append colon (zero_padded ts) app (zero_padded-digits ts h).0,
)

from_utf8-encode_key :
    (mt : MetricType) (ts : ℕ) (app : Bytes)
    → ts ≤ u64_max
    → from_utf8 (encode_key mt ts app) ≡ from_utf8 app
unfolding encode_key
from_utf8-encode_key mt ts app h =
    from_utf8-append (prefix mt) _ (prefix-plain mt).1
    ∙ from_utf8-append (colon ∷ []) _ (omega arith)
    ∙ from_utf8-append (zero_padded ts) _ (zero_padded-digits ts h).1
    ∙ from_utf8-append (colon ∷ []) app (omega arith)

decode_parts-colons :
    (p t : Bytes) (parts : List Bytes)
    → 2 ≤ length parts
    → decode_parts (p ∷ t ∷ parts) ≡ err (invalid_key (part_count (length parts + 2)))
unfolding decode_parts
decode_parts-colons p t [] h = absurd (omega arith)
decode_parts-colons p t (a ∷ []) h = absurd (omega arith)
decode_parts-colons p t (a ∷ b ∷ parts) h = ground arith

-- For a timestamp in `u64` and a name that is UTF-8, `decode_key` of the encoded key gives back
-- the type, the timestamp and the name; it fails with the number of parts if the name holds a
-- colon, and with an unknown prefix if the type is `GpuProc`.
pub decode_key-encode_key :
    (mt : MetricType) (ts : ℕ) (app : Bytes)
    → ts ≤ u64_max
    → from_utf8 app ≡ true
    → decode_key (encode_key mt ts app) ≡ (
        if count colon app == 0
        then (do ty ← readable mt; ok (ty, ts, app))
        else err (invalid_key (part_count (count colon app + 3))))
unfolding decode_key
decode_key-encode_key mt ts app h utf8 =
    rw (from_utf8-encode_key mt ts app h, utf8, split-encode_key mt ts app h)
      (elim (Bool-cases (count colon app == 0)) [
        | inl e ↦
            rw (e, split-count colon app (ground arith))
              (unfold decode_parts in rw (type_of_prefix-prefix mt, parse_u64-zero_padded ts h))
        | inr e ↦
            let l = length-split colon app in
            rw
              (e, decode_parts-colons (prefix mt) (zero_padded ts) (split colon app) (ground arith))
              (ground arith)
      ])

type_of_prefix_sound : (p : Bytes) (mt : MetricType) → type_of_prefix p ≡ ok mt → p ≡ prefix mt
unfolding type_of_prefix prefix
type_of_prefix_sound p mt h = ground (
  arith,
  eq_bytes_iff p (codes "net"),
  eq_bytes_iff p (codes "pwr"),
  eq_bytes_iff p (codes "foc"),
  eq_bytes_iff p (codes "cpu"),
  eq_bytes_iff p (codes "mem"),
  eq_bytes_iff p (codes "dsk"),
  eq_bytes_iff p (codes "gpu"),
)

-- A text of the parts that `decode_key` accepted.
abbrev pub Spells : Bytes → MetricType → ℕ → Bytes → Type 0
Spells raw mt ts app =
    (t : Bytes) × (raw ≡ prefix mt ++ (colon ∷ (t ++ (colon ∷ app)))) × (parse_u64 t ≡ parsed ts)

decode_parts_sound :
    (parts : List Bytes) (mt : MetricType) (ts : ℕ) (app : Bytes)
    → decode_parts parts ≡ ok (mt, ts, app)
    → Spells (join colon parts) mt ts app
unfolding decode_parts
decode_parts_sound [] mt ts app h = cc
decode_parts_sound (p ∷ []) mt ts app h = cc
decode_parts_sound (p ∷ t ∷ []) mt ts app h = cc
decode_parts_sound (p ∷ t ∷ a ∷ []) mt ts app h =
    (t, ground (arith, type_of_prefix_sound p mt), ground arith)
decode_parts_sound (p ∷ t ∷ a ∷ b ∷ parts) mt ts app h = cc

-- What `decode_key` accepts spells a type, a `u64` and a name, and these are its result.
pub decode_key_sound :
    (raw : Bytes) (mt : MetricType) (ts : ℕ) (app : Bytes)
    → decode_key raw ≡ ok (mt, ts, app)
    → Spells raw mt ts app
unfolding decode_key
decode_key_sound raw mt ts app h = elim (Bool-cases (from_utf8 raw)) [
  | inl e ↦ rw join-split at (decode_parts_sound (split colon raw) mt ts app (rw e at h))
  | inr e ↦ cc
]
