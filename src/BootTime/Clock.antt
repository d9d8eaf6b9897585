-- ===== src/BootTime/Clock.antt =====
-- src/sys/boottime.c: the time since boot, from the time stamp counter once it is calibrated and
-- from the interval timer otherwise. What the hardware answers is an argument.
pub mod Monotonic
use edge_os.Prelude.{
  ℕ, zero, suc, Bool, true, false, ◌+◌, ◌-◌, ◌*◌, ◌/◌, ◌%◌, Option, none, some, List, [], ◌∷◌, ◌==◌,
  if◌then◌else◌, ltb, leb, ◌&&◌, ◌||◌,
}
use edge_os.BootTime.Calendar.{Rtc, rtc_unix_seconds}

-- `uint64_t` and `uint16_t`
abbrev pub wrap64 : ℕ → ℕ
wrap64 n = n % 18446744073709551616

abbrev pub minus64 : ℕ → ℕ → ℕ
minus64 a b = wrap64 (a + 18446744073709551616 - b)

abbrev pub minus16 : ℕ → ℕ → ℕ
minus16 a b = (a + 65536 - b) % 65536

abbrev pub pit_hz : ℕ
pit_hz = 1193182

-- the static variables
pub record Clock : Type 0 where
  pub boot_realtime_us : ℕ
  pub last_monotonic_us : ℕ
  pub last_pit_counter : ℕ
  pub fallback_pit_counts : ℕ
  pub boot_tsc : ℕ
  pub tsc_hz : ℕ
  pub tsc_ready : Bool

-- The wait for enough counts of the timer: `pit i` is its `i`-th answer, `n` turns are left
-- before `++spins > 10000000u`.
unfoldable pub calibrate_wait : ℕ → (ℕ → ℕ) → ℕ → ℕ → Option ℕ
calibrate_wait zero pit i start =
    if leb 40000 (minus16 start (pit i)) then some (minus16 start (pit i)) else none
calibrate_wait (suc n) pit i start =
    let rest = calibrate_wait n pit (i + 1) start in
    if leb 40000 (minus16 start (pit i)) then some (minus16 start (pit i)) else rest

-- The frequency, and whether the calibration succeeded; where the wait or the counter fails, the
-- frequency stays.
unfoldable pub boottime_calibrate_tsc : (ℕ → ℕ) → ℕ → ℕ → ℕ → ℕ × Bool
boottime_calibrate_tsc pit start_tsc end_tsc tsc_hz = elim (calibrate_wait 10000000 pit 1 (pit 0)) [
  | none ↦ (tsc_hz, false)
  | some elapsed ↦
      let hz = wrap64 (minus64 end_tsc start_tsc * pit_hz) / elapsed in
      if leb end_tsc start_tsc || (elapsed == 0) then (tsc_hz, false) else (hz, leb 1000000 hz)
]

-- What the devices answer at boot: the first reading of the timer and the later ones, the clock,
-- and the counter at the start and at the end of the calibration, and after it.
pub record BootInputs : Type 0 where
  pub first_pit : ℕ
  pub pit : ℕ → ℕ
  pub rtc : Rtc
  pub start_tsc : ℕ
  pub end_tsc : ℕ
  pub boot_tsc : ℕ

unfoldable pub boottime_init : Clock → BootInputs → Clock
boottime_init c i =
    let (hz, good) = boottime_calibrate_tsc i.pit i.start_tsc i.end_tsc 0 in
    record {
      boot_realtime_us = wrap64 (rtc_unix_seconds i.rtc * 1000000);
      last_monotonic_us = 0;
      last_pit_counter = i.first_pit;
      fallback_pit_counts = 0;
      boot_tsc = if good then i.boot_tsc else c.boot_tsc;
      tsc_hz = hz;
      tsc_ready = good;
    }

-- one reading of the counter or of the timer, whichever the clock uses
pub record Reading : Type 0 where
  pub tsc : ℕ
  pub pit : ℕ

abbrev pub uses_tsc : Clock → Bool
uses_tsc c = c.tsc_ready && ltb 0 c.tsc_hz

-- `now_us` before the comparison, and the state of the fallback
unfoldable pub raw_us : Clock → Reading → ℕ × Clock
raw_us c r =
    let counts = wrap64 (c.fallback_pit_counts + minus16 c.last_pit_counter r.pit) in
    if uses_tsc c then (wrap64 (minus64 r.tsc c.boot_tsc * 1000000) / c.tsc_hz, c) else (
      wrap64 (counts * 1000000) / pit_hz,
      record c { last_pit_counter = r.pit; fallback_pit_counts = counts },
    )

unfoldable pub boottime_monotonic_us : Clock → Reading → ℕ × Clock
boottime_monotonic_us c r =
    let (now, c1) = raw_us c r in
    if ltb now c1.last_monotonic_us
    then (c1.last_monotonic_us, c1)
    else (now, record c1 { last_monotonic_us = now })

unfoldable pub boottime_realtime_us : Clock → Reading → ℕ × Clock
boottime_realtime_us c r =
    let (now, c1) = boottime_monotonic_us c r in (wrap64 (c1.boot_realtime_us + now), c1)

-- `uint32_t`
unfoldable pub boottime_now_us : Clock → Reading → ℕ × Clock
boottime_now_us c r = let (now, c1) = boottime_monotonic_us c r in (now % 4294967296, c1)
