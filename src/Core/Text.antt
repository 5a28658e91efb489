-- ===== src/Core/Text.antt =====
-- What the readers of /proc and /sys use of `str`: lines, words, trimming and the parsing of numbers,
-- over UTF-8.
use heimwatch.Prelude.{
  ℕ, zero, suc, ◌+◌, ◌*◌, ◌-◌, Bool, true, false, ◌&&◌, ◌||◌, List, [], ◌∷◌, ◌++◌, Option, none,
  some, Bytes, codes, eq_bytes, ltb, leb, ◌==◌, if◌then◌else◌, u32_max, ◌≡◌, refl,
}
use heimwatch.Prelude.Int.{ℤ, pos, negsuc}
use heimwatch.Keys.Std.{split, parse_u64, Parsed}

-- The bytes of the `White_Space` character at the start, or 0.
abbrev pub white_third : ℕ → ℕ → ℕ → ℕ
white_third b c d =
    if b == 0xe1 && c == 0x9a && d == 0x80
      || b == 0xe2 && c == 0x80 && (leb 0x80 d && leb d 0x8a || d == 0xa8 || d == 0xa9 || d == 0xaf)
      || b == 0xe2 && c == 0x81 && d == 0x9f
      || b == 0xe3 && c == 0x80 && d == 0x80
    then 3
    else 0

abbrev pub white_len : Bytes → ℕ
white_len [] = 0
white_len (b ∷ []) = if leb 9 b && leb b 13 || b == 32 then 1 else 0
white_len (b ∷ c ∷ s) =
    if leb 9 b && leb b 13 || b == 32
    then 1
    else if b == 0xc2 && (c == 0x85 || c == 0xa0)
    then 2
    else (elim s [ [] ↦ 0 | d ∷ r ↦ white_third b c d ])

abbrev pub flush_word : Bytes → List Bytes → List Bytes
flush_word [] rest = rest
flush_word (b ∷ s) rest = (b ∷ s) ∷ rest

-- `split_whitespace`, with the bytes of a white character that are still to be passed over, and the
-- word so far.
unfoldable pub words_from : ℕ → Bytes → Bytes → List Bytes
words_from skip word [] = flush_word word []
words_from (suc skip) word (b ∷ s) = words_from skip word s
words_from zero word (b ∷ s) = elim (white_len (b ∷ s)) [
  | zero ↦ words_from zero (word ++ b ∷ []) s
  | suc more ↦ flush_word word (words_from more [] s)
]

unfoldable pub split_whitespace : Bytes → List Bytes
unfolding words_from
split_whitespace = words_from 0 []

unfoldable pub trim_start_from : ℕ → Bytes → Bytes
trim_start_from skip [] = []
trim_start_from (suc skip) (b ∷ s) = trim_start_from skip s
trim_start_from zero (b ∷ s) = elim (white_len (b ∷ s)) [
  | zero ↦ b ∷ s
  | suc more ↦ trim_start_from more s
]

-- `str::strip_prefix`
unfoldable pub strip_prefix : Bytes → Bytes → Option Bytes
strip_prefix [] s = some s
strip_prefix (p ∷ ps) [] = none
strip_prefix (p ∷ ps) (c ∷ s) = let rest = strip_prefix ps s in if p == c then rest else none

abbrev pub is_empty : Bytes → Bool
is_empty [] = true
is_empty (b ∷ s) = false

abbrev pub and_before : ℕ → Option Bytes → Option Bytes
and_before b none = none
and_before b (some s) = some (b ∷ s)

-- `str::strip_suffix`
unfoldable pub strip_suffix : Bytes → Bytes → Option Bytes
strip_suffix suffix [] = if is_empty suffix then some [] else none
strip_suffix suffix (b ∷ s) =
    let rest = strip_suffix suffix s in
    if eq_bytes suffix (b ∷ s) then some [] else and_before b rest

-- Whether a text is what is left of the pattern, and then the pattern any number of times.
unfoldable pub repeats : Bytes → Bytes → Bytes → Bool
repeats pattern left [] = is_empty left
repeats pattern (p ∷ left) (b ∷ s) = p == b && repeats pattern left s
repeats [] [] (b ∷ s) = false
repeats (p ∷ ps) [] (b ∷ s) = p == b && repeats (p ∷ ps) ps s

-- `str::trim_end_matches`
unfoldable pub trim_end_matches : Bytes → Bytes → Bytes
unfolding repeats
trim_end_matches pattern [] = []
trim_end_matches pattern (b ∷ s) =
    let rest = b ∷ trim_end_matches pattern s in if repeats pattern [] (b ∷ s) then [] else rest

-- `str::contains_char` of a character of one byte
unfoldable pub contains_char : ℕ → Bytes → Bool
contains_char c [] = false
contains_char c (b ∷ s) = b == c || contains_char c s

unfoldable pub trim_end : Bytes → Bytes
unfolding trim_start_from
trim_end [] = []
trim_end (b ∷ s) =
    let rest = b ∷ trim_end s in if is_empty (trim_start_from 0 (b ∷ s)) then [] else rest

unfoldable pub trim : Bytes → Bytes
unfolding trim_start_from trim_end
trim s = trim_end (trim_start_from 0 s)

-- A line without the `\r` that ends it.
unfoldable pub strip_return : Bytes → Bytes
strip_return [] = []
strip_return (b ∷ []) = if b == 13 then [] else b ∷ []
strip_return (b ∷ c ∷ s) = b ∷ strip_return (c ∷ s)

-- The parts between the `\n`, but for an empty one at the end.
unfoldable pub complete_lines : List Bytes → List Bytes
complete_lines [] = []
complete_lines (p ∷ []) = flush_word p []
complete_lines (p ∷ q ∷ ps) = strip_return p ∷ complete_lines (q ∷ ps)

-- `str::lines`
unfoldable pub lines : Bytes → List Bytes
unfolding complete_lines strip_return
lines s = complete_lines (split 10 s)

unfoldable pub parse_nat : Bytes → Option ℕ
unfolding parse_u64
parse_nat s = elim (parse_u64 s) [ Parsed.parsed n ↦ some n | Parsed.refused e ↦ none ]

-- `parse::<u32>`
unfoldable pub parse_u32 : Bytes → Option ℕ
unfolding parse_nat
parse_u32 s = elim (parse_nat s) [ none ↦ none | some n ↦ if leb n u32_max then some n else none ]

abbrev pub negative : ℕ → Option ℤ
negative zero = some (pos 0)
negative (suc n) = if leb (suc n) 0x8000000000000000 then some (negsuc n) else none

-- `parse::<i64>`: the sign `-` is followed by digits alone.
unfoldable pub parse_i64 : Bytes → Option ℤ
unfolding parse_nat
parse_i64 [] = none
parse_i64 (c ∷ s) =
    if c == b'-'
    then (elim s [
      | [] ↦ none
      | d ∷ r ↦
          if d == b'+'
          then none
          else (elim (parse_nat (d ∷ r)) [ none ↦ none | some n ↦ negative n ])
    ])
    else (elim (parse_nat (c ∷ s)) [
      | none ↦ none
      | some n ↦ if ltb n 0x8000000000000000 then some (pos n) else none
    ])

abbrev pub hex_digit : ℕ → Option ℕ
hex_digit c =
    if leb b'0' c && leb c b'9'
    then some (c - b'0')
    else if leb b'a' c && leb c b'f'
    then some (c - b'a' + 10)
    else if leb b'A' c && leb c b'F'
    then some (c - b'A' + 10)
    else none

unfoldable pub hex_from : ℕ → Bytes → Option ℕ
hex_from n [] = some n
hex_from n (c ∷ s) = elim (hex_digit c) [
  | none ↦ none
  | some d ↦ elim (leb (n * 16 + d) u32_max) [ true ↦ hex_from (n * 16 + d) s | false ↦ none ]
]

-- `u32::from_str_radix(s, 16)`
unfoldable pub from_hex : Bytes → Option ℕ
unfolding hex_from
from_hex [] = none
from_hex (c ∷ []) = hex_from 0 (c ∷ [])
from_hex (c ∷ d ∷ s) = if c == b'+' then hex_from 0 (d ∷ s) else hex_from 0 (c ∷ d ∷ s)

status_words :
    split_whitespace (codes "VmRSS:\t  1234 kB") ≡ codes "VmRSS:" ∷ codes "1234" ∷ codes "kB" ∷ []
unfolding split_whitespace
status_words = refl

two_lines : lines (codes "a\r\nbc\n") ≡ codes "a" ∷ codes "bc" ∷ []
unfolding lines split
two_lines = refl

trimmed : trim (codes "  Mains \n") ≡ codes "Mains"
unfolding trim
trimmed = refl

megahertz : trim_end_matches (codes "Mhz") (codes "500MhzMhz") ≡ codes "500"
unfolding trim_end_matches
megahertz = refl

nanoseconds : strip_suffix (codes " ns") (codes "5 ns") ≡ some (codes "5")
unfolding strip_suffix
nanoseconds = refl
