-- ===== src/BootTime/Clock/Monotonic.antt =====
-- src/sys/boottime.c: the time since boot never goes back.
use edge_os.Prelude.{pick, ℕ, ◌≡◌, refl, ◌≤◌, List, [], ◌∷◌, arith, ltb}
use edge_os.BootTime.Clock.{Clock, Reading, raw_us, uses_tsc, boottime_monotonic_us}

-- the times that a sequence of calls returns, whatever the hardware answers
abbrev pub times : Clock → List Reading → List ℕ
times c [] = []
times c (r ∷ rs) = (boottime_monotonic_us c r).0 ∷ times (boottime_monotonic_us c r).1 rs

-- each time is at least the one before, and the first at least `low`
abbrev pub Rising : ℕ → List ℕ → Type 0
Rising low [] = Unit {0}
Rising low (t ∷ ts) = (low ≤ t) × Rising t ts

raw_us-last : (c : Clock) (r : Reading) → (raw_us c r).1.last_monotonic_us ≡ c.last_monotonic_us
unfolding raw_us
raw_us-last c r =
    pick (λ (z : ℕ × Clock). z.1.last_monotonic_us ≡ c.last_monotonic_us) (uses_tsc c) _ _
      (λ e. refl) (λ e. refl)

-- one call: the time is the stored one, and no less than that before
step :
    (c : Clock) (r : Reading)
    → (c.last_monotonic_us ≤ (boottime_monotonic_us c r).0)
      × ((boottime_monotonic_us c r).1.last_monotonic_us ≡ (boottime_monotonic_us c r).0)
unfolding boottime_monotonic_us
step c r =
    let last = raw_us-last c r in
    pick (λ (z : ℕ × Clock). (c.last_monotonic_us ≤ z.0) × (z.1.last_monotonic_us ≡ z.0))
      (ltb (raw_us c r).0 (raw_us c r).1.last_monotonic_us) _ _ (λ back. (omega arith, refl))
      (λ on. (ground arith, refl))

-- Whatever the counter and the timer answer, the times that the calls of `boottime_monotonic_us`
-- return never go back, from the last one that the clock has stored on.
pub times-Rising : (c : Clock) (rs : List Reading) → Rising c.last_monotonic_us (times c rs)
times-Rising c [] = tt
times-Rising c (r ∷ rs) =
    let s = step c r in
    let rest = times-Rising (boottime_monotonic_us c r).1 rs in (s.0, rw (s.1) at rest)
