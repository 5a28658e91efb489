-- ===== src/Aggregation/Bucket.antt =====
-- The calendar functions of crates/heimwatch-storage/src/aggregation.rs. The crate chrono is an
-- interface; each function falls back on arithmetic where chrono gives no date.
use heimwatch.Prelude.{
  ℕ, ◌+◌, ◌-◌, ◌*◌, ◌/◌, ◌%◌, ◌^◌, ◌<◌, ◌≤◌, ◌≡◌, Option, none, some, leb, if◌then◌else◌,
}
use heimwatch.Prelude.Int.{ℤ, pos, negsuc, as_i64, as_u64}

-- The months from the January of the year 0 to a month, and `n` months more.
abbrev pub month_index : ℤ → ℕ → ℤ
month_index (pos y) m = pos (y * 12 + (m - 1))
month_index (negsuc y) m = negsuc (y * 12 + 12 - (m - 1) - 1)

abbrev pub months_later : ℤ → ℕ → ℤ
months_later (pos i) n = pos (i + n)
months_later (negsuc i) n = if leb n i then negsuc (i - n) else pos (n - i - 1)

pub record Chrono : Type 1 where
  pub NaiveDate : Type 0
  -- `DateTime::from_timestamp(secs, 0)`, then `date_naive()`
  pub date_at : ℤ → Option NaiveDate
  pub year : NaiveDate → ℤ
  pub month : NaiveDate → ℕ
  pub from_ymd_opt : ℤ → ℕ → ℕ → Option NaiveDate
  -- `date.and_hms_opt(0, 0, 0)`, then `and_utc().timestamp()`
  pub midnight : NaiveDate → Option ℤ
  pub checked_sub_months : NaiveDate → ℕ → Option NaiveDate

module _ (ch : Chrono) where
  open ch use {NaiveDate, date_at, year, month, from_ymd_opt, midnight, checked_sub_months}

  infixl 5 ◌>>=◌
  abbrev pub ◌>>=◌ : {A B : Type 0} → Option A → (A → Option B) → Option B
  none >>= f = none
  some a >>= f = f a

  abbrev pub or_fallback : Option ℤ → ℕ → ℕ
  or_fallback none n = n
  or_fallback (some t) n = as_u64 t

  -- the timestamp that chrono gives, on each of the four ways
  abbrev pub chrono_day : ℕ → Option ℤ
  chrono_day ts = do date ← date_at (as_i64 ts); midnight date

  abbrev pub chrono_month : ℕ → Option ℤ
  chrono_month ts = do
    date ← date_at (as_i64 ts)
    first ← from_ymd_opt (year date) (month date) 1
    midnight first

  abbrev pub chrono_year : ℕ → Option ℤ
  chrono_year ts = do date ← date_at (as_i64 ts); jan1 ← from_ymd_opt (year date) 1 1; midnight jan1

  abbrev pub chrono_sub : ℕ → ℕ → Option ℤ
  chrono_sub ts months = do
    date ← date_at (as_i64 ts)
    new_date ← checked_sub_months date months
    midnight new_date

  unfoldable pub day_bucket : ℕ → ℕ
  day_bucket ts = or_fallback (chrono_day ts) (ts / 86400 * 86400)

  unfoldable pub month_bucket : ℕ → ℕ
  month_bucket ts =
      let days_since_epoch = ts / 86400 in
      or_fallback (chrono_month ts) (days_since_epoch / 30 * 30 * 86400)

  unfoldable pub year_bucket : ℕ → ℕ
  year_bucket ts =
      let days_since_epoch = ts / 86400 in
      or_fallback (chrono_year ts) (days_since_epoch / 365 * 365 * 86400)

  unfoldable pub subtract_months : ℕ → ℕ → ℕ
  subtract_months ts months = or_fallback (chrono_sub ts months) (ts - months * 30 * 86400)

  -- What chrono documents of its dates, for seconds in `i64`: the midnight of a date is a start of a
  -- day of that date; `from_ymd_opt` gives the date asked for; the dates of a year before that of a
  -- time after 1970 exist and are not later; and months are subtracted in the calendar, keeping the
  -- day of the month where every month has it.
  pub record Civil : Type 0 where
    pub day : NaiveDate → ℕ
    pub month_pos : (d : NaiveDate) → 1 ≤ month d
    pub midnight_date :
        (d : NaiveDate) (x : ℕ)
        → midnight d ≡ some (pos x)
        → (x < 2 ^ 63) × (x % 86400 ≡ 0) × (date_at (pos x) ≡ some d)
    pub midnight_before :
        (t : ℕ) (d : NaiveDate)
        → t < 2 ^ 63
        → date_at (pos t) ≡ some d
        → (x : ℕ) × (midnight d ≡ some (pos x)) × (x ≤ t)
    pub ymd :
        (y : ℤ) (m k : ℕ) (f : NaiveDate)
        → from_ymd_opt y m k ≡ some f
        → (year f ≡ y) × (month f ≡ m) × (day f ≡ k)
    pub first_before :
        (t : ℕ) (d : NaiveDate) (m : ℕ)
        → t < 2 ^ 63
        → date_at (pos t) ≡ some d
        → 1 ≤ m
        → m ≤ month d
        → (f : NaiveDate) × (from_ymd_opt (year d) m 1 ≡ some f)
          × (x : ℕ) × (midnight f ≡ some (pos x))
          × (x ≤ t)
    pub sub_months :
        (d e : NaiveDate) (n : ℕ)
        → checked_sub_months d n ≡ some e
        → (months_later (month_index (year e) (month e)) n ≡ month_index (year d) (month d))
          × (day d ≤ 28 → day e ≡ day d)
