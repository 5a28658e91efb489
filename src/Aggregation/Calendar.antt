-- ===== src/Aggregation/Calendar.antt =====
-- The buckets of crates/heimwatch-storage/src/aggregation.rs, read back as dates, and where
-- `subtract_months` leaves the range of timestamps.
use heimwatch.Prelude.{
  ℕ, ◌-◌, ◌*◌, ◌%◌, ◌^◌, ◌<◌, ◌≤◌, ◌≡◌, refl, ◌↔◌, ◌⊎◌, none, some, arith, inl, inr, Option-cases,
}
use heimwatch.Prelude.Int.{ℤ, pos, negsuc, as_i64}
use heimwatch.Aggregation.Bucket.{
  Chrono, Civil, day_bucket, month_bucket, year_bucket, subtract_months, chrono_sub, month_index,
  months_later,
}

as_i64_small : (n : ℕ) → n < 2 ^ 63 → as_i64 n ≡ pos n
as_i64_small n h = ground arith

some_inj : {A : Type 0} {a b : A} → some a ≡ some b → a ≡ b
some_inj h = cc

module _ (ch : Chrono) (civil : Civil ch) where
  open ch use {NaiveDate, date_at, year, month, from_ymd_opt, midnight, checked_sub_months}

  -- A time that is not later, at the start of a day, with the year, month and day of the month.
  abbrev pub Starts : ℕ → ℕ → ℤ → ℕ → ℕ → Type 0
  Starts ts start y m k =
      (start ≤ ts)
      × (start % 86400 ≡ 0)
      × (f : NaiveDate) × (date_at (pos start) ≡ some f)
      × (year f ≡ y)
      × (month f ≡ m)
      × (civil.day f ≡ k)

  -- what a timestamp is cast to and back
  midnight_cast : (d : NaiveDate) (x : ℕ) → midnight d ≡ some (pos x) → x % 2 ^ 64 ≡ x
  midnight_cast d x h = let (small, _, _) = civil.midnight_date d x h in omega arith

  Starts-midnight :
      (ts : ℕ) (f : NaiveDate) (x : ℕ)
      → midnight f ≡ some (pos x)
      → x ≤ ts
      → Starts ts x (year f) (month f) (civil.day f)
  Starts-midnight ts f x h before =
      let (small, start, date) = civil.midnight_date f x h in
      (before, start, f, date, refl, refl, refl)

  Starts-ymd :
      (ts : ℕ) (y : ℤ) (m k : ℕ) (f : NaiveDate) (x : ℕ)
      → from_ymd_opt y m k ≡ some f
      → midnight f ≡ some (pos x)
      → x ≤ ts
      → Starts ts x y m k
  Starts-ymd ts y m k f x e h before =
      let (small, start, date) = civil.midnight_date f x h in
      let (same_year, same_month, same_day) = civil.ymd y m k f e in
      (before, start, f, date, same_year, same_month, same_day)

  module _ (ts : ℕ) (fits : ts < 2 ^ 63) (d : NaiveDate) (at : date_at (pos ts) ≡ some d) where
    day_bucket_lem : (midnight d ≡ some (pos (day_bucket ch ts))) × (day_bucket ch ts ≤ ts)
    unfolding day_bucket
    day_bucket_lem =
        let (x, h, before) = civil.midnight_before ts d fits at in
        rw (as_i64_small ts fits, at, h, midnight_cast d x h) (refl, before)

    -- the midnight of the first of the month, and of the year
    month_bucket_lem :
        (f : NaiveDate) × (from_ymd_opt (year d) (month d) 1 ≡ some f)
        × (midnight f ≡ some (pos (month_bucket ch ts)))
        × (month_bucket ch ts ≤ ts)
    unfolding month_bucket
    month_bucket_lem =
        let (f, e, x, h, before) =
          civil.first_before ts d (month d) fits at (civil.month_pos d) (omega arith) in
        let past : (midnight f ≡ some (pos (month_bucket ch ts))) × (month_bucket ch ts ≤ ts) =
          rw (as_i64_small ts fits, at, e, h, midnight_cast f x h) (refl, before) in
        (f, e, past.0, past.1)

    year_bucket_lem :
        (f : NaiveDate) × (from_ymd_opt (year d) 1 1 ≡ some f)
        × (midnight f ≡ some (pos (year_bucket ch ts)))
        × (year_bucket ch ts ≤ ts)
    unfolding year_bucket
    year_bucket_lem =
        let (f, e, x, h, before) =
          civil.first_before ts d 1 fits at (omega arith) (civil.month_pos d) in
        let past : (midnight f ≡ some (pos (year_bucket ch ts))) × (year_bucket ch ts ≤ ts) =
          rw (as_i64_small ts fits, at, e, h, midnight_cast f x h) (refl, before) in
        (f, e, past.0, past.1)

    day_bucket-Starts : Starts ts (day_bucket ch ts) (year d) (month d) (civil.day d)
    day_bucket-Starts =
        let (h, before) = day_bucket_lem in Starts-midnight ts d (day_bucket ch ts) h before

    month_bucket-Starts : Starts ts (month_bucket ch ts) (year d) (month d) 1
    month_bucket-Starts =
        let (f, e, h, before) = month_bucket_lem in
        Starts-ymd ts (year d) (month d) 1 f (month_bucket ch ts) e h before

    year_bucket-Starts : Starts ts (year_bucket ch ts) (year d) 1 1
    year_bucket-Starts =
        let (f, e, h, before) = year_bucket_lem in
        Starts-ymd ts (year d) 1 1 f (year_bucket ch ts) e h before

  -- Times in `i64` that have a date are in one bucket of days, months or years exactly if they have
  -- the same date, the same year and month, or the same year, with what chrono documents. Read back
  -- as a date, the buckets are starts of days that are not later: of the same day, of the first of
  -- the same month, and of the first of January of the same year.
  pub buckets_group :
      (ts ts' : ℕ) (d d' : NaiveDate)
      → ts < 2 ^ 63
      → ts' < 2 ^ 63
      → date_at (pos ts) ≡ some d
      → date_at (pos ts') ≡ some d'
      → ((day_bucket ch ts ≡ day_bucket ch ts' ↔ d ≡ d')
          × (month_bucket ch ts ≡ month_bucket ch ts' ↔ ((year d ≡ year d') × (month d ≡ month d')))
          × (year_bucket ch ts ≡ year_bucket ch ts' ↔ year d ≡ year d'))
        × (Starts ts (day_bucket ch ts) (year d) (month d) (civil.day d)
            × Starts ts (month_bucket ch ts) (year d) (month d) 1
            × Starts ts (year_bucket ch ts) (year d) 1 1)
  buckets_group ts ts' d d' fits fits' at at' = (
    (same_day, same_month, same_year),
    (
      day_bucket-Starts ts fits d at,
      month_bucket-Starts ts fits d at,
      year_bucket-Starts ts fits d at,
    ),
  )
    where
      -- the dates at one time are one date
      one_date :
          (f f' : NaiveDate) (x x' : ℕ)
          → midnight f ≡ some (pos x)
          → midnight f' ≡ some (pos x')
          → x ≡ x'
          → f ≡ f'
      one_date f f' x x' h h' same =
          let (_, _, date) = civil.midnight_date f x h in
          let (_, _, date') = civil.midnight_date f' x' h' in cc

      one_time :
          (f f' : NaiveDate) (x x' : ℕ)
          → midnight f ≡ some (pos x)
          → midnight f' ≡ some (pos x')
          → f ≡ f'
          → x ≡ x'
      one_time f f' x x' h h' same = cc

      same_day : day_bucket ch ts ≡ day_bucket ch ts' ↔ d ≡ d'
      same_day =
          let (h, _) = day_bucket_lem ts fits d at in
          let (h', _) = day_bucket_lem ts' fits' d' at' in
          (one_date d d' _ _ h h', one_time d d' _ _ h h')

      same_month :
          month_bucket ch ts ≡ month_bucket ch ts' ↔ ((year d ≡ year d') × (month d ≡ month d'))
      same_month =
          let (f, e, h, _) = month_bucket_lem ts fits d at in
          let (f', e', h', _) = month_bucket_lem ts' fits' d' at' in
          let (y, m, _) = civil.ymd (year d) (month d) 1 f e in
          let (y', m', _) = civil.ymd (year d') (month d') 1 f' e' in
          (
            λ same. let one = one_date f f' _ _ h h' same in (cc, cc),
            λ (same, same'). one_time f f' _ _ h h' (cc),
          )

      same_year : year_bucket ch ts ≡ year_bucket ch ts' ↔ year d ≡ year d'
      same_year =
          let (f, e, h, _) = year_bucket_lem ts fits d at in
          let (f', e', h', _) = year_bucket_lem ts' fits' d' at' in
          let (y, _, _) = civil.ymd (year d) 1 1 f e in
          let (y', _, _) = civil.ymd (year d') 1 1 f' e' in
          (λ same. let one = one_date f f' _ _ h h' same in cc, λ same. one_time f f' _ _ h h' (cc))

  -- The date is `n` months before, on the same day of the month if every month has that day.
  abbrev pub IsMonthsBefore : ℕ → NaiveDate → NaiveDate → Type 0
  IsMonthsBefore n d e =
      (months_later (month_index (year e) (month e)) n ≡ month_index (year d) (month d))
      × (civil.day d ≤ 28 → civil.day e ≡ civil.day d)

  module _ (ts : ℕ) (fits : ts < 2 ^ 63) (months : ℕ) where
    -- Where the cast leaves the midnight of a date.
    abbrev pub Cast : NaiveDate → Type 0
    Cast e =
        ((subtract_months ch ts months % 86400 ≡ 0)
          × (date_at (pos (subtract_months ch ts months)) ≡ some e))
        ⊎ ((k : ℕ) × (midnight e ≡ some (negsuc k))
            × (subtract_months ch ts months ≡ 2 ^ 64 - 1 - k % 2 ^ 64))

    Cast-midnight :
        (d e : NaiveDate) (t : ℤ)
        → date_at (pos ts) ≡ some d
        → checked_sub_months d months ≡ some e
        → midnight e ≡ some t
        → Cast e
    unfolding subtract_months
    Cast-midnight d e (pos x) at h h' =
        let (small, start, date) = civil.midnight_date e x h' in
        inl (rw (as_i64_small ts fits, at, h, h', midnight_cast e x h') (start, date))
    Cast-midnight d e (negsuc k) at h h' = inr (k, h', rw (as_i64_small ts fits, at, h, h') refl)

    abbrev pub WithoutDate : Type 0
    WithoutDate =
        (chrono_sub ch ts months ≡ none) × (subtract_months ch ts months ≡ ts - months * 30 * 86400)

    without_date : chrono_sub ch ts months ≡ none → WithoutDate
    unfolding subtract_months
    without_date h = (h, rw h refl)

    -- For a time in `i64`, and with what chrono documents, there are three ways. If chrono has the
    -- time's date and the one `months` months before it, and the latter is not before 1970, then
    -- `subtract_months` gives a start of a day that reads back as that date: in the month that is
    -- `months` months before, on the same day of the month up to the 28th. If that date is before
    -- 1970, its negative timestamp -(k + 1) is cast to 2^64 - 1 - k modulo 2^64. If chrono has no
    -- date, 30 days are subtracted for each month, down to 0.
    pub subtract_months_lem :
        ((d e : NaiveDate) × (date_at (pos ts) ≡ some d) × IsMonthsBefore months d e × Cast e)
        ⊎ WithoutDate
    subtract_months_lem = elim (Option-cases (date_at (pos ts))) [
      | inl at ↦ inr (without_date (rw (as_i64_small ts fits, at) refl))
      | inr (d, at) ↦ elim (Option-cases (checked_sub_months d months)) [
        | inl h ↦ inr (without_date (rw (as_i64_small ts fits, at, h) refl))
        | inr (e, h) ↦ elim (Option-cases (midnight e)) [
          | inl h' ↦ inr (without_date (rw (as_i64_small ts fits, at, h, h') refl))
          | inr (t, h') ↦ inl (d, e, at, civil.sub_months d e months h, Cast-midnight d e t at h h')
        ]
      ]
    ]
