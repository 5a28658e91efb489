-- ===== src/Tests/Keys.antt =====
-- Keys at concrete records: a window's, and one of the network.
use heimwatch.Prelude.{
  ◌+◌, ◌≡◌, refl, true, false, ◌&&◌, ◌||◌, arith, Bytes, codes, le_bytes, ltb, leb, ◌==◌,
  if◌then◌else◌,
}
use heimwatch.Error.{ok, err, ◌>>=◌, invalid_key, part_count}
use heimwatch.Core.Metrics.{MetricType}
use heimwatch.Keys.{encode_key, decode_key, type_of_prefix, colon}
use heimwatch.Keys.Decimal.{zero_padded}
use heimwatch.Keys.Std.{from_utf8, split, count, parse_u64, parsed}
use heimwatch.Keys.Range.{
  rank, le_stamp, in_range, same_type, le_bytes-encode_key, in_range-encode_key,
}
use heimwatch.Keys.Decode.{
  readable, decode_key-encode_key, Spells, decode_key_sound, parse_u64-zero_padded,
}

abbrev firefox : Bytes
firefox = codes "firefox"

le_bytes-encode_key_example :
    le_bytes (encode_key MetricType.foc 99 firefox) (encode_key MetricType.foc 100 (codes "code"))
    ≡ (if ltb (rank MetricType.foc) (rank MetricType.foc)
        then true
        else if rank MetricType.foc == rank MetricType.foc
        then le_stamp 99 firefox 100 (codes "code")
        else false)
le_bytes-encode_key_example =
    le_bytes-encode_key MetricType.foc MetricType.foc 99 100 firefox (codes "code") (omega arith)
      (omega arith)

in_range-encode_key_example :
    in_range MetricType.net 10 20 (encode_key MetricType.net 20 firefox) ≡ (
      same_type MetricType.net MetricType.net
      && leb 10 20
      && (ltb 20 20 || (20 == 20 && le_bytes firefox (codes "~"))))
in_range-encode_key_example =
    in_range-encode_key MetricType.net MetricType.net 10 20 20 firefox (omega arith) (omega arith)
      (omega arith)

firefox_utf8 : from_utf8 firefox ≡ true
unfolding from_utf8
firefox_utf8 = refl

decode_key-encode_key_example : decode_key (encode_key MetricType.foc 1700000000 firefox) ≡ (
    if count colon firefox == 0
    then (do ty ← readable MetricType.foc; ok (ty, 1700000000, firefox))
    else err (invalid_key (part_count (count colon firefox + 3))))
decode_key-encode_key_example =
    decode_key-encode_key MetricType.foc 1700000000 firefox (omega arith) firefox_utf8

parse_u64-zero_padded_example : parse_u64 (zero_padded 42) ≡ parsed 42
parse_u64-zero_padded_example = parse_u64-zero_padded 42 (omega arith)

decoded : decode_key (codes "net:+5:code") ≡ ok (MetricType.net, 5, codes "code")
unfolding decode_key from_utf8 split type_of_prefix parse_u64
decoded = refl

decode_key_sound_example : Spells (codes "net:+5:code") MetricType.net 5 (codes "code")
decode_key_sound_example =
    decode_key_sound (codes "net:+5:code") MetricType.net 5 (codes "code") decoded
