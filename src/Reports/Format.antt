-- ===== src/Reports/Format.antt =====
-- How crates/heimwatch-daemon/src/snapshot.rs formats names, bytes and times, with what is used of
-- `format!` and `println!`. A text is its bytes; `none` is a panic.
use heimwatch.Prelude.{
  ℕ, zero, suc, ◌+◌, ◌-◌, Bool, ◌&&◌, List, [], ◌∷◌, ◌++◌, Option, none, some, Bytes, codes, ltb,
  leb, if◌then◌else◌,
}
use heimwatch.Keys.Decimal.{to_decimal}
use heimwatch.Core.Floats.{Floats}
use heimwatch.Core.Text.{and_before}

-- Whether a byte goes on with the character before it.
abbrev pub continues : ℕ → Bool
continues b = leb 0x80 b && ltb b 0xc0

-- The number of characters.
abbrev pub chars : Bytes → ℕ
chars [] = 0
chars (b ∷ s) = if continues b then chars s else chars s + 1

abbrev pub repeated : ℕ → Bytes → Bytes
repeated zero s = []
repeated (suc n) s = s ++ repeated n s

abbrev pub spaces : ℕ → Bytes
spaces n = repeated n (b' ' ∷ [])

-- `{:>width}` and `{:<width}`
unfoldable pub right : ℕ → Bytes → Bytes
right width s = spaces (width - chars s) ++ s

unfoldable pub left : ℕ → Bytes → Bytes
left width s = s ++ spaces (width - chars s)

-- `"─".repeat(n)`
abbrev pub rule : ℕ → Bytes
rule n = repeated n (0xe2 ∷ 0x94 ∷ 0x80 ∷ [])

abbrev pub joined : List Bytes → Bytes
joined [] = []
joined (s ∷ rest) = s ++ joined rest

-- What one `println!` writes.
abbrev pub line : Bytes → Option Bytes
line s = some (s ++ 10 ∷ [])

abbrev pub then_printed : Option Bytes → Option Bytes → Option Bytes
then_printed none rest = none
then_printed (some s) none = none
then_printed (some s) (some t) = some (s ++ t)

-- What several print, one after the other.
unfoldable pub printed : List (Option Bytes) → Option Bytes
printed [] = some []
printed (p ∷ ps) = then_printed p (printed ps)

-- `for r in records { .. }`
unfoldable pub each : {R : Type 0} → (R → Option Bytes) → List R → Option Bytes
each row [] = some []
each row (r ∷ rs) = then_printed (row r) (each row rs)

-- `&name[..name.len().min(max_len)]`, which panics inside a character.
unfoldable pub format_app_name : Bytes → ℕ → Option Bytes
format_app_name [] max_len = some []
format_app_name (b ∷ s) zero = if continues b then none else some []
format_app_name (b ∷ s) (suc max_len) = and_before b (format_app_name s max_len)

-- A line that starts with the name.
abbrev pub named_line : Option Bytes → (Bytes → Bytes) → Option Bytes
named_line none text = none
named_line (some name) text = line (text name)

-- The digits of a float, rounded to so many after the point: `{:.1}` and the like.
pub record FloatFormat (fl : Floats) : Type 0 where
  pub fixed_f32 : ℕ → fl.F32 → Bytes
  pub fixed_f64 : ℕ → fl.F64 → Bytes

module _ (fl : Floats) (ff : FloatFormat fl) where
  open fl use {F32, F64}

  abbrev pub kib : F64
  kib = fl.f64_of_u64 1024

  unfoldable pub fmt_bytes : ℕ → Bytes
  unfolding right
  fmt_bytes b =
      if leb b 1023
      then right 3 (to_decimal b) ++ codes " B"
      else if leb b 1048575
      then right 6 (ff.fixed_f64 1 (fl.div_f64 (fl.f64_of_u64 b) kib)) ++ codes " KB"
      else if leb b 1073741823
      then right 6 (ff.fixed_f64 1 (fl.div_f64 (fl.f64_of_u64 b) (fl.mul_f64 kib kib)))
        ++ codes " MB"
      else right 6
          (ff.fixed_f64 1 (fl.div_f64 (fl.f64_of_u64 b) (fl.mul_f64 (fl.mul_f64 kib kib) kib)))
        ++ codes " GB"

  -- `1.0 / n`
  abbrev pub one_over : ℕ → F64
  one_over n = fl.div_f64 (fl.f64_of_u64 1) (fl.f64_of_u64 n)

  abbrev pub secs : ℕ → F64
  secs ns = fl.mul_f64 (fl.f64_of_u64 ns) (one_over 1000000000)

  unfoldable pub fmt_cpu_time_ns : ℕ → Bytes
  unfolding right
  fmt_cpu_time_ns ns =
      if leb ns 999999
      then right 6 (ff.fixed_f64 0 (fl.mul_f64 (fl.f64_of_u64 ns) (one_over 1000))) ++ codes " us"
      else if leb ns 999999999
      then right 6 (ff.fixed_f64 1 (fl.mul_f64 (fl.f64_of_u64 ns) (one_over 1000000)))
        ++ codes " ms"
      else if leb ns 59999999999
      then right 6 (ff.fixed_f64 1 (secs ns)) ++ codes " s"
      else if leb ns 3599999999999
      then right 6 (ff.fixed_f64 1 (fl.div_f64 (secs ns) (fl.f64_of_u64 60))) ++ codes " m"
      else right 6 (ff.fixed_f64 2 (fl.div_f64 (secs ns) (fl.f64_of_u64 3600))) ++ codes " h"

  abbrev pub quotient : ℕ → ℕ → F64
  quotient ms unit = fl.div_f64 (fl.f64_of_u64 ms) (fl.f64_of_u64 unit)

  unfoldable pub fmt_duration_ms : ℕ → Bytes
  unfolding right
  fmt_duration_ms ms =
      if leb ms 999
      then right 4 (to_decimal ms) ++ codes " ms"
      else if leb ms 59999
      then right 6 (ff.fixed_f64 1 (quotient ms 1000)) ++ codes " s"
      else if leb ms 3599999
      then right 6 (ff.fixed_f64 1 (quotient ms 60000)) ++ codes " m"
      else right 6 (ff.fixed_f64 2 (quotient ms 3600000)) ++ codes " h"

  unfoldable pub format_optional_percentage : Option F32 → Bytes
  unfolding right
  format_optional_percentage none = codes "   N/A"
  format_optional_percentage (some v) = right 6 (ff.fixed_f32 1 v) ++ codes "%"
