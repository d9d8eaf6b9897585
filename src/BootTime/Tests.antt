-- ===== src/BootTime/Tests.antt =====
-- src/sys/boottime.c: the last day of February of a leap year, and three readings of the timer.
use edge_os.Prelude.{◌+◌, ◌-◌, ◌*◌, ◌≡◌, refl, false, List, [], ◌∷◌, arith}
use edge_os.BootTime.Calendar.{ymd_hms_to_unix}
use edge_os.BootTime.Calendar.Gregorian.{day_number, epoch_day, ymd_hms_to_unix-gregorian}
use edge_os.BootTime.Clock.{Clock, Reading}
use edge_os.BootTime.Clock.Monotonic.{times, Rising, times-Rising}

ymd_hms_to_unix-gregorian_example :
    ymd_hms_to_unix 2024 2 29 8 30 59
    ≡ (day_number 2024 2 29 - epoch_day) * 86400 + ((8 * 60 + 30) * 60 + 59)
ymd_hms_to_unix-gregorian_example =
    ymd_hms_to_unix-gregorian 2024 2 29 (omega arith) (omega arith) (omega arith) (omega arith)
      (omega arith) (omega arith) 8 30 59 (omega arith) (omega arith) (omega arith)

-- 2000-03-01, after a leap day, is the day 11017 after the first of 1970.
leap_century_test : day_number 2000 3 1 ≡ epoch_day + 11017
leap_century_test = refl

abbrev by_timer : Clock
by_timer = record {
  boot_realtime_us = 0;
  last_monotonic_us = 0;
  last_pit_counter = 60000;
  fallback_pit_counts = 0;
  boot_tsc = 0;
  tsc_hz = 0;
  tsc_ready = false;
}

abbrev readings : List Reading
readings =
    record { tsc = 0; pit = 50000 }
    ∷ record { tsc = 0; pit = 100 }
    ∷ record { tsc = 0; pit = 65000 }
    ∷ []

times-Rising_example : Rising 0 (times by_timer readings)
times-Rising_example = times-Rising by_timer readings
