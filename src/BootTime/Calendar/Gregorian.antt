-- ===== src/BootTime/Calendar/Gregorian.antt =====
-- src/sys/boottime.c: the seconds of a date, which the code counts in loops over the years and the
-- months, by the closed formula of the Gregorian calendar.
use edge_os.Prelude.{
  ℕ, zero, suc, Bool, ◌+◌, ◌-◌, ◌*◌, ◌/◌, ◌%◌, ◌≡◌, refl, ap, ◌≤◌, ◌<◌, arith, ◌==◌, if◌then◌else◌,
  leb, not, ◌&&◌, ◌||◌,
}
use edge_os.BootTime.Calendar.{is_leap, year_days, years_days, months_days, ymd_hms_to_unix}

-- a year of 366 days: each fourth, but of the years at the turn of a century each fourth only
abbrev pub has_leap_day : ℕ → Bool
has_leap_day y = (y % 4 == 0) && not ((y % 400 == 100) || ((y % 400 == 200) || (y % 400 == 300)))

-- The number of a day, where the first day of the year 1 has the number 1. Up to the month, the
-- formula counts February as if it had 30 days, which the last term takes back.
abbrev pub day_number : ℕ → ℕ → ℕ → ℕ
day_number y mon day =
    365 * (y - 1)
    + (y - 1) / 4
    + (y - 1) / 400
    + (367 * mon - 362) / 12
    + day
    - (y - 1) / 100
    - (if leb mon 2 then 0 else if has_leap_day y then 1 else 2)

-- the day of 1970-01-01
abbrev pub epoch_day : ℕ
epoch_day = 719163

same_leap : (y : ℕ) → is_leap y ≡ has_leap_day y
unfolding is_leap
same_leap y = ground arith

-- The days before a year, from the year 1 on.
abbrev days_before_year : ℕ → ℕ
days_before_year y = 365 * (y - 1) + (y - 1) / 4 + (y - 1) / 400 - (y - 1) / 100

next_year : (y : ℕ) → 0 < y → days_before_year (y + 1) ≡ days_before_year y + year_days y
unfolding is_leap
next_year y lo = ground arith

-- The loop over the years.
years-number : (n : ℕ) → years_days n + 719162 ≡ days_before_year (1970 + n)
unfolding years_days
years-number zero = refl
years-number (suc n) =
    let same : 1970 + suc n ≡ 1970 + n + 1 = omega arith in
    omega (arith, years-number n, next_year (1970 + n) (omega arith), ap days_before_year same)

abbrev taken_back : ℕ → ℕ → ℕ
taken_back y mon = if leb mon 2 then 0 else if has_leap_day y then 1 else 2

-- The loop over the months.
months-number :
    (y n : ℕ) → n < 12 → months_days y n + taken_back y (n + 1) ≡ (367 * (n + 1) - 362) / 12
unfolding months_days
months-number y zero h = ground arith
months-number y (suc zero) h = ground arith
months-number y (suc (suc zero)) h = ground (arith, same_leap y)
months-number y (suc (suc (suc zero))) h = ground (arith, same_leap y)
months-number y (suc (suc (suc (suc zero)))) h = ground (arith, same_leap y)
months-number y (suc (suc (suc (suc (suc zero))))) h = ground (arith, same_leap y)
months-number y (suc (suc (suc (suc (suc (suc zero)))))) h = ground (arith, same_leap y)
months-number y (suc (suc (suc (suc (suc (suc (suc zero))))))) h = ground (arith, same_leap y)
months-number y (suc (suc (suc (suc (suc (suc (suc (suc zero)))))))) h = ground (arith, same_leap y)
months-number y (suc (suc (suc (suc (suc (suc (suc (suc (suc zero))))))))) h =
    ground (arith, same_leap y)
months-number y (suc (suc (suc (suc (suc (suc (suc (suc (suc (suc zero)))))))))) h =
    ground (arith, same_leap y)
months-number y (suc (suc (suc (suc (suc (suc (suc (suc (suc (suc (suc zero))))))))))) h =
    ground (arith, same_leap y)
months-number y (suc (suc (suc (suc (suc (suc (suc (suc (suc (suc (suc (suc n)))))))))))) h =
    absurd (omega arith)

module _ (y mon day : ℕ) (since : 1970 ≤ y) (before : y < 9999) (month_low : 1 ≤ mon)
    (month_high : mon ≤ 12) (day_low : 1 ≤ day) (day_high : day ≤ 31) where
  days-number :
      years_days (y - 1970) + months_days y (mon - 1) + (day - 1) ≡ day_number y mon day - epoch_day
  days-number =
      let year_is : 1970 + (y - 1970) ≡ y = omega arith in
      let month_is : mon - 1 + 1 ≡ mon = omega arith in
      omega (
        arith,
        years-number (y - 1970),
        ap days_before_year year_is,
        months-number y (mon - 1) (omega arith),
        ap (taken_back y) month_is,
        month_is,
      )

  number_bound : day_number y mon day < 4000000
  number_bound = omega arith

  -- For every date from 1970 on and before the year 9999, `ymd_hms_to_unix` gives the seconds that
  -- the closed formula of the Gregorian calendar gives: those of the days since 1970-01-01, and
  -- those of the time of the day. The day may be up to 31 in each month.
  pub ymd_hms_to_unix-gregorian :
      (h m s : ℕ)
      → h < 24
      → m < 60
      → s < 60
      → ymd_hms_to_unix y mon day h m s
        ≡ (day_number y mon day - epoch_day) * 86400 + ((h * 60 + m) * 60 + s)
  unfolding ymd_hms_to_unix
  ymd_hms_to_unix-gregorian h m s hour minute second =
      omega (arith, days-number, number_bound, hour, minute, second)
