-- ===== src/Keys/Range.antt =====
-- The order of the keys, and which keys a range scan of keys.rs takes.
use heimwatch.Prelude.{
  ℕ, ◌≤◌, Bool, true, false, ◌&&◌, ◌||◌, ◌≡◌, refl, [], ◌∷◌, ◌++◌, arith, Bytes, codes, ltb, leb,
  ◌==◌, if◌then◌else◌, u64_max, le_bytes, le_bytes_refl, le_bytes_antisym,
}
use heimwatch.Core.Metrics.{MetricType, prefix}
use heimwatch.Keys.{colon, encode_key, range_start, range_end}
use heimwatch.Keys.Decimal.{zero_padded, zero_padded-fixed, fixed-append, le_bytes-fixed}

-- The place of a type's prefix in the alphabetical order of the prefixes.
abbrev pub rank : MetricType → ℕ
rank MetricType.cpu = 0
rank MetricType.dsk = 1
rank MetricType.foc = 2
rank MetricType.gpu_proc = 3
rank MetricType.gpu = 4
rank MetricType.mem = 5
rank MetricType.net = 6
rank MetricType.pwr = 7

le_bytes-prefix :
    (p q : MetricType) (x y : Bytes)
    → le_bytes (prefix p ++ x) (prefix q ++ y)
      ≡ (if ltb (rank p) (rank q) then true else if rank p == rank q then le_bytes x y else false)
unfolding prefix
le_bytes-prefix MetricType.net MetricType.net x y = refl
le_bytes-prefix MetricType.pwr MetricType.net x y = refl
le_bytes-prefix MetricType.foc MetricType.net x y = refl
le_bytes-prefix MetricType.cpu MetricType.net x y = refl
le_bytes-prefix MetricType.mem MetricType.net x y = refl
le_bytes-prefix MetricType.dsk MetricType.net x y = refl
le_bytes-prefix MetricType.gpu MetricType.net x y = refl
le_bytes-prefix MetricType.gpu_proc MetricType.net x y = refl
le_bytes-prefix p q x y = refl

-- A timestamp and an application, in the order of the keys of one type.
abbrev pub le_stamp : ℕ → Bytes → ℕ → Bytes → Bool
le_stamp a x b y = if ltb a b then true else if a == b then le_bytes x y else false

le_bytes-padded :
    (a b : ℕ) (x y : Bytes)
    → a ≤ u64_max
    → b ≤ u64_max
    → le_bytes (zero_padded a ++ (colon ∷ x)) (zero_padded b ++ (colon ∷ y)) ≡ le_stamp a x b y
le_bytes-padded a b x y ha hb =
    rw (zero_padded-fixed a ha, zero_padded-fixed b hb, fixed-append 20 a, fixed-append 20 b)
      (le_bytes-fixed 20 a b (colon ∷ x) (colon ∷ y) (omega arith) (omega arith))

-- For timestamps in `u64`, the byte order of two encoded keys is the order by type, then by time,
-- then by the bytes of the name.
pub le_bytes-encode_key :
    (p q : MetricType) (a b : ℕ) (x y : Bytes)
    → a ≤ u64_max
    → b ≤ u64_max
    → le_bytes (encode_key p a x) (encode_key q b y) ≡ (
        if ltb (rank p) (rank q)
        then true
        else if rank p == rank q
        then le_stamp a x b y
        else false)
unfolding encode_key
le_bytes-encode_key p q a b x y ha hb = rw (le_bytes-prefix p q, le_bytes-padded a b x y ha hb)

pub range_start-encode_key : (mt : MetricType) (t : ℕ) → range_start mt t ≡ encode_key mt t []
unfolding range_start encode_key
range_start-encode_key mt t = refl

pub range_end-encode_key : (mt : MetricType) (t : ℕ) → range_end mt t ≡ encode_key mt t (codes "~")
unfolding range_end encode_key
range_end-encode_key mt t = refl

-- Whether a scan `tree.range(range_start(..)..=range_end(..))` takes a key.
abbrev pub in_range : MetricType → ℕ → ℕ → Bytes → Bool
in_range mt start end key = le_bytes (range_start mt start) key && le_bytes key (range_end mt end)

abbrev pub same_type : MetricType → MetricType → Bool
same_type p q = rank p == rank q

-- For timestamps in `u64`, the key of a record lies between `range_start` and `range_end` exactly
-- when the types agree and the timestamp is in the range; at the end timestamp itself only if the
-- name does not sort after `~`.
pub in_range-encode_key :
    (mt p : MetricType) (start end ts : ℕ) (app : Bytes)
    → start ≤ u64_max
    → end ≤ u64_max
    → ts ≤ u64_max
    → in_range mt start end (encode_key p ts app)
      ≡ (same_type mt p && leb start ts && (ltb ts end || (ts == end && le_bytes app (codes "~"))))
in_range-encode_key mt p start end ts app hs he ht =
    rw
      (
        range_start-encode_key mt start,
        range_end-encode_key mt end,
        le_bytes-encode_key mt p start ts [] app hs ht,
        le_bytes-encode_key p mt ts end app (codes "~") ht he,
      )
      (ground arith)

pub rank-injective : (p q : MetricType) → rank p ≡ rank q → p ≡ q
rank-injective MetricType.net q h = ground arith
rank-injective p q h = ground arith

-- For timestamps in `u64`, two records share a key only if they agree in type, timestamp and name,
-- whatever the name holds.
encode_key-injective :
    (p q : MetricType) (a b : ℕ) (x y : Bytes)
    → a ≤ u64_max
    → b ≤ u64_max
    → encode_key p a x ≡ encode_key q b y
    → (p ≡ q) × (a ≡ b) × (x ≡ y)
encode_key-injective p q a b x y ha hb e =
    let there : le_bytes (encode_key p a x) (encode_key q b y) ≡ true =
      rw e (le_bytes_refl (encode_key q b y)) in
    let back : le_bytes (encode_key q b y) (encode_key p a x) ≡ true =
      rw e (le_bytes_refl (encode_key q b y)) in
    let l = rw (le_bytes-encode_key p q a b x y ha hb) at there in
    let r = rw (le_bytes-encode_key q p b a y x hb ha) at back in
    (
      rank-injective p q (ground arith),
      ground arith,
      le_bytes_antisym x y (ground arith) (ground arith),
    )
