-- ===== src/BootTime/Calendar.antt =====
-- src/sys/boottime.c: the date of the real-time clock as seconds since 1970.
pub mod Gregorian
use edge_os.Prelude.{
  ℕ, zero, suc, Bool, true, false, ◌+◌, ◌-◌, ◌*◌, ◌/◌, ◌%◌, List, [], ◌∷◌, ◌==◌, if◌then◌else◌, not,
  ◌&&◌, ◌||◌, get_or,
}

unfoldable pub bcd_to_bin : ℕ → ℕ
bcd_to_bin v = (v % 16 + v / 16 * 10) % 256

unfoldable pub is_leap : ℕ → Bool
is_leap y = ((y % 4 == 0) && not (y % 100 == 0)) || (y % 400 == 0)

-- `is_leap(yy) ? 366 : 365`
abbrev pub year_days : ℕ → ℕ
year_days y = if is_leap y then 366 else 365

-- the days of the first `n` years from 1970 on
unfoldable pub years_days : ℕ → ℕ
years_days zero = 0
years_days (suc n) = years_days n + year_days (1970 + n)

abbrev pub mdays : List ℕ
mdays = 31 ∷ 28 ∷ 31 ∷ 30 ∷ 31 ∷ 30 ∷ 31 ∷ 31 ∷ 30 ∷ 31 ∷ 30 ∷ 31 ∷ []

-- the days of the first `n` months of the year; the month that the loop adds is `n + 1`
unfoldable pub months_days : ℕ → ℕ → ℕ
months_days y zero = 0
months_days y (suc n) =
    months_days y n + get_or mdays n 0 + (if (suc n == 2) && is_leap y then 1 else 0)

-- `uint64_t`; `day` is at least 1
unfoldable pub ymd_hms_to_unix : ℕ → ℕ → ℕ → ℕ → ℕ → ℕ → ℕ
ymd_hms_to_unix y mon day h m s =
    let days = years_days (y - 1970) + months_days y (mon - 1) + (day - 1) in
    (days * 86400 + h * 3600 + m * 60 + s) % 18446744073709551616

-- the registers of the clock, read while it is not updating them
pub record Rtc : Type 0 where
  pub sec : ℕ
  pub min : ℕ
  pub hour : ℕ
  pub day : ℕ
  pub mon : ℕ
  pub year : ℕ
  pub regb : ℕ

-- `regb & 0x04`: the numbers are binary, not in BCD
abbrev pub is_binary : ℕ → Bool
is_binary regb = (regb / 4) % 2 == 1

abbrev pub one_if_zero : ℕ → ℕ
one_if_zero n = if n == 0 then 1 else n

-- The test for a year before 1970 is never true of 2000 and an unsigned byte.
unfoldable pub rtc_unix_seconds : Rtc → ℕ
rtc_unix_seconds r =
    let read : ℕ → ℕ = λ v. if is_binary r.regb then v else bcd_to_bin v in
    ymd_hms_to_unix (2000 + read r.year) (one_if_zero (read r.mon)) (one_if_zero (read r.day))
      (read (r.hour % 128)) (read r.min) (read r.sec)
