-- ===== src/Keys.antt =====
-- crates/heimwatch-storage/src/keys.rs: the keys of the sled trees,
-- `{prefix}:{timestamp:020}:{app_name}`. A key and an application name are their bytes.
pub mod Decimal
pub mod Std
pub mod Decode
pub mod Range
use heimwatch.Prelude.{ℕ, ◌+◌, List, [], ◌∷◌, ◌++◌, Bytes, codes, length, eq_bytes, if◌then◌else◌}
use heimwatch.Core.Metrics.{MetricType, prefix}
use heimwatch.Keys.Decimal.{zero_padded}
use heimwatch.Error.{
  StorageError, invalid_key, invalid_utf8, part_count, unknown_prefix, invalid_timestamp, Result,
  ok, err, ◌>>=◌,
}
use heimwatch.Keys.Std.{from_utf8, split, parse_u64, Parsed, parsed, refused}

abbrev pub colon : ℕ
colon = b':'

unfoldable pub encode_key : MetricType → ℕ → Bytes → Bytes
encode_key metric_type timestamp app_name =
    prefix metric_type ++ (colon ∷ (zero_padded timestamp ++ (colon ∷ app_name)))

-- The least key of a type at a timestamp.
unfoldable pub range_start : MetricType → ℕ → Bytes
range_start metric_type timestamp =
    prefix metric_type ++ (colon ∷ (zero_padded timestamp ++ (colon ∷ [])))

-- The upper bound of a scan: the application name `~`.
unfoldable pub range_end : MetricType → ℕ → Bytes
range_end metric_type timestamp =
    prefix metric_type ++ (colon ∷ (zero_padded timestamp ++ (colon ∷ codes "~")))

-- The types that `decode_key` matches: `gpc` is not among them.
unfoldable pub type_of_prefix : Bytes → Result StorageError MetricType
type_of_prefix p =
    if eq_bytes p (codes "net")
    then ok MetricType.net
    else if eq_bytes p (codes "pwr")
    then ok MetricType.pwr
    else if eq_bytes p (codes "foc")
    then ok MetricType.foc
    else if eq_bytes p (codes "cpu")
    then ok MetricType.cpu
    else if eq_bytes p (codes "mem")
    then ok MetricType.mem
    else if eq_bytes p (codes "dsk")
    then ok MetricType.dsk
    else if eq_bytes p (codes "gpu")
    then ok MetricType.gpu
    else err (invalid_key (unknown_prefix p))

abbrev timestamp_of : Parsed → Result StorageError ℕ
timestamp_of (parsed n) = ok n
timestamp_of (refused e) = err (invalid_key (invalid_timestamp e))

unfoldable pub decode_parts : List Bytes → Result StorageError (MetricType × ℕ × Bytes)
decode_parts (p ∷ t ∷ app_name ∷ []) = do
  metric_type ← type_of_prefix p
  timestamp ← timestamp_of (parse_u64 t)
  ok (metric_type, timestamp, app_name)
decode_parts parts = err (invalid_key (part_count (length parts)))

unfoldable pub decode_key : Bytes → Result StorageError (MetricType × ℕ × Bytes)
unfolding decode_parts
decode_key raw =
    if from_utf8 raw then decode_parts (split colon raw) else err (invalid_key invalid_utf8)
