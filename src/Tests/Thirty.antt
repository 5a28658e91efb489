-- ===== src/Tests/Thirty.antt =====
-- A calendar with months of thirty days for the witnesses, and that it has the laws that the crate
-- chrono documents.
use heimwatch.Prelude.{
  ℕ, ◌+◌, ◌-◌, ◌*◌, ◌/◌, ◌%◌, ◌<◌, ◌≤◌, ◌≡◌, refl, true, false, ◌&&◌, sym, ap, Bool-cases, inl, inr,
  Option, none, some, arith, leb, ltb, ◌^◌, if◌then◌else◌,
}
use heimwatch.Prelude.Int.{ℤ, pos, negsuc}
use heimwatch.Aggregation.Bucket.{Chrono, Civil, month_index, months_later}

-- Dates as days since the epoch.
abbrev date_at : ℤ → Option ℤ
date_at (pos t) = some (pos (t / 86400))
date_at (negsuc t) = none

abbrev year : ℤ → ℤ
year (pos d) = pos (d / 360)
year (negsuc d) = negsuc (d / 360)

abbrev month : ℤ → ℕ
month (pos d) = d % 360 / 30 + 1
month (negsuc d) = (359 - d % 360) / 30 + 1

abbrev day : ℤ → ℕ
day (pos d) = d % 30 + 1
day (negsuc d) = (359 - d % 360) % 30 + 1

abbrev from_ymd_opt : ℤ → ℕ → ℕ → Option ℤ
from_ymd_opt (pos y) m d =
    if leb 1 m && leb m 12 && leb 1 d && leb d 30
    then some (pos (y * 360 + (m - 1) * 30 + (d - 1)))
    else none
from_ymd_opt (negsuc y) m d = none

-- Times after the range of `i64` have no date.
abbrev midnight : ℤ → Option ℤ
midnight (pos d) = if ltb (d * 86400) (2 ^ 63) then some (pos (d * 86400)) else none
midnight (negsuc d) = some (negsuc (d * 86400 + 86399))

abbrev checked_sub_months : ℤ → ℕ → Option ℤ
checked_sub_months (pos d) m =
    some (if leb (m * 30) d then pos (d - m * 30) else negsuc (m * 30 - d - 1))
checked_sub_months (negsuc d) m = some (negsuc (d + m * 30))

abbrev pub thirty : Chrono
thirty = record {
  NaiveDate = ℤ;
  date_at = date_at;
  year = year;
  month = month;
  from_ymd_opt = from_ymd_opt;
  midnight = midnight;
  checked_sub_months = checked_sub_months;
}

some_pos : (a b : ℕ) → some (pos a) ≡ some (pos b) → a ≡ b
some_pos a b h = cc

some_eq : {A : Type 0} {a b : A} → some a ≡ some b → a ≡ b
some_eq h = cc

month_pos : (d : ℤ) → 1 ≤ month d
month_pos (pos d) = omega arith
month_pos (negsuc d) = omega arith

midnight_date :
    (d : ℤ) (x : ℕ)
    → midnight d ≡ some (pos x)
    → (x < 2 ^ 63) × (x % 86400 ≡ 0) × (date_at (pos x) ≡ some d)
midnight_date (pos d) x h = elim (Bool-cases (ltb (d * 86400) (2 ^ 63))) [
  | inl c ↦
      let at = some_pos (d * 86400) x (rw c at h) in
      (ground arith, omega arith, ap (λ n. some (pos n)) (omega arith))
  | inr c ↦ absurd (refuted (rw c at h))
]
  where
    refuted : {x : ℕ} → ¬ (none ≡ some (pos x))
    refuted h = cc
midnight_date (negsuc d) x h = cc

midnight_before :
    (t : ℕ) (d : ℤ)
    → t < 2 ^ 63
    → date_at (pos t) ≡ some d
    → (x : ℕ) × (midnight d ≡ some (pos x)) × (x ≤ t)
midnight_before t d fits e =
    let c : ltb (t / 86400 * 86400) (2 ^ 63) ≡ true = ground arith in
    (t / 86400 * 86400, rw (sym (some_eq e), c) refl, omega arith)

ymd :
    (y : ℤ) (m k : ℕ) (f : ℤ)
    → from_ymd_opt y m k ≡ some f
    → (year f ≡ y) × (month f ≡ m) × (day f ≡ k)
ymd (pos y) m k f e = elim (Bool-cases (leb 1 m && leb m 12 && leb 1 k && leb k 30)) [
  | inl c ↦ rw (sym (some_eq (rw c at e))) (ap pos (ground arith), ground arith, ground arith)
  | inr c ↦ absurd (refuted (rw c at e))
]
  where
    refuted : {f : ℤ} → ¬ (none ≡ some f)
    refuted h = cc
ymd (negsuc y) m k f e = cc

first_before :
    (t : ℕ) (d : ℤ) (m : ℕ)
    → t < 2 ^ 63
    → date_at (pos t) ≡ some d
    → 1 ≤ m
    → m ≤ month d
    → (f : ℤ) × (from_ymd_opt (year d) m 1 ≡ some f)
      × (x : ℕ) × (midnight f ≡ some (pos x))
      × (x ≤ t)
first_before t d m fits e one up =
    let n = t / 86400 in
    let up' : m ≤ n % 360 / 30 + 1 = rw (sym (some_eq e)) at up in
    let first = n / 360 * 360 + (m - 1) * 30 + (1 - 1) in
    let valid : (leb 1 m && leb m 12 && leb 1 1 && leb 1 30) ≡ true = ground arith in
    let c : ltb (first * 86400) (2 ^ 63) ≡ true = ground arith in
    (pos first, rw (sym (some_eq e), valid) refl, first * 86400, rw c refl, omega arith)

-- the months before the year 0 of a day before the epoch
months_back : (d : ℕ) → d / 360 * 12 + 12 - ((359 - d % 360) / 30 + 1 - 1) - 1 ≡ d / 30
months_back d = omega arith

sub_months :
    (d e : ℤ) (n : ℕ)
    → checked_sub_months d n ≡ some e
    → (months_later (month_index (year e) (month e)) n ≡ month_index (year d) (month d))
      × (day d ≤ 28 → day e ≡ day d)
sub_months (pos d) e n h = elim (Bool-cases (leb (n * 30) d)) [
  | inl c ↦ rw (sym (some_eq h), c) (ap pos (ground arith), λ l. ground arith)
  | inr c ↦
      let later : leb n ((n * 30 - d - 1) / 30) ≡ false = ground arith in
      rw (sym (some_eq h), c, months_back (n * 30 - d - 1), later)
        (ap pos (ground arith), λ l. ground arith)
]
sub_months (negsuc d) e n h =
    let later : leb n ((d + n * 30) / 30) ≡ true = ground arith in
    rw (sym (some_eq h), months_back (d + n * 30), months_back d, later)
      (ap negsuc (ground arith), λ l. ground arith)

pub thirty_civil : Civil thirty
thirty_civil = record {
  day = day;
  month_pos = month_pos;
  midnight_date = midnight_date;
  midnight_before = midnight_before;
  ymd = ymd;
  first_before = first_before;
  sub_months = sub_months;
}
