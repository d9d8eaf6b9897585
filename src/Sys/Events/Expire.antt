-- ===== src/Sys/Events/Expire.antt =====
-- src/sys/syscall.c: what the reads of a timer add up to.
use edge_os.Prelude.{
  ℕ, true, false, ◌+◌, ◌-◌, ◌*◌, ◌/◌, ◌≤◌, ◌<◌, ◌≡◌, refl, ap, ◌∙◌, sym, List, [], ◌∷◌, ltb, not,
  ◌&&◌, arith, Bool-cases, inl, inr,
}
use native.Mathlib.Nat.{add-mul-div_right, div-eq_of_lt-le, div-le_self, zero-div, div-mul-le_self}
use edge_os.Sys.User.{wrap64}
use edge_os.Sys.Objects.{TimerFd}
use edge_os.Sys.Events.{timerfd_expire_count, expired, expirations}

-- Looks at a timer at times, one after the other: how often it expired in all, and the timer then.
unfoldable pub expire_all : List ℕ → TimerFd → ℕ × TimerFd
expire_all [] t = (0, t)
expire_all (now ∷ times) t =
    let r = timerfd_expire_count true now t in
    let rest = expire_all times r.1 in (r.0 + rest.0, rest.1)

module _ (t : TimerFd) (is_used : t.used ≡ true) (is_active : t.active ≡ true) where
  early : (now : ℕ) → now < t.next_us → timerfd_expire_count true now t ≡ (0, t)
  unfolding timerfd_expire_count
  early now lt =
      let q : ltb now t.next_us ≡ true = ground (arith, lt) in
      let p : (not (t.used && t.active)) ≡ false = ground (arith, is_used, is_active) in
      rw (p, q) refl

  module _ (some_interval : 0 < t.interval_us) where
    abbrev steps : ℕ → ℕ
    steps now = (now - t.next_us) / t.interval_us

    one_more : (s i : ℕ) → (1 + s) * i ≡ i + s * i
    one_more s i = grind arith

    counted :
        (now : ℕ)
        → t.next_us ≤ now
        → now + t.interval_us < 18446744073709551616
        → expirations now t ≡ 1 + steps now
    counted now le w = elim (Bool-cases (ltb t.next_us now)) [
      | inl q ↦
          let r : (ltb 0 t.interval_us && ltb t.next_us now) ≡ true =
            ground (arith, q, some_interval) in
          rw r (omega (arith, div-le_self (now - t.next_us) t.interval_us, w, some_interval))
      | inr q ↦
          let r : (ltb 0 t.interval_us && ltb t.next_us now) ≡ false = ground (arith, q) in
          let z : now - t.next_us ≡ 0 = ground (arith, q) in
          let none_more : steps now ≡ 0 =
            ap (λ (x : ℕ). x / t.interval_us) z ∙ zero-div t.interval_us in
          rw r (omega (arith, none_more))
    ]

    periodic :
        (now : ℕ)
        → t.next_us ≤ now
        → now + t.interval_us < 18446744073709551616
        → timerfd_expire_count true now t
          ≡ (1 + steps now, record t { next_us = t.next_us + (1 + steps now) * t.interval_us })
    unfolding timerfd_expire_count
    periodic now le w =
        let i = t.interval_us in
        let p : (not (t.used && t.active)) ≡ false = ground (arith, is_used, is_active) in
        let q : ltb now t.next_us ≡ false = ground (arith, le) in
        let r : ltb 0 t.interval_us ≡ true = ground (arith, some_interval) in
        let small = div-mul-le_self (now - t.next_us) i in
        let next : wrap64 (t.next_us + wrap64 ((1 + steps now) * i))
            ≡ t.next_us + (1 + steps now) * i =
          omega (arith, one_more (steps now) i, small, le, w) in
        rw (p, q)
          (ap (λ (c : ℕ). expired true c now t) (counted now le w)
            ∙ (unfold expired in
                rw r (ap (λ (x : ℕ). (1 + steps now, record t { next_us = x })) next)))

  one_shot :
      (now : ℕ)
      → t.interval_us ≡ 0
      → t.next_us ≤ now
      → timerfd_expire_count true now t ≡ (1, record t { active = false })
  unfolding timerfd_expire_count expired
  one_shot now z le =
      let p : (not (t.used && t.active)) ≡ false = ground (arith, is_used, is_active) in
      let q : ltb now t.next_us ≡ false = ground (arith, le) in
      let r : ltb 0 t.interval_us ≡ false = ground (arith, z) in rw (p, q, r) refl

stopped :
    (t : TimerFd) (now : ℕ)
    → (not (t.used && t.active)) ≡ true
    → timerfd_expire_count true now t ≡ (0, t)
unfolding timerfd_expire_count
stopped t now p = rw p refl

-- A second look, after one that counted some.
then_look : ℕ → ℕ × TimerFd → ℕ × TimerFd
then_look b (n, t) = (n + (timerfd_expire_count true b t).0, (timerfd_expire_count true b t).1)

nothing_first : (b : ℕ) (t : TimerFd) → then_look b (0, t) ≡ timerfd_expire_count true b t
unfolding then_look
nothing_first b t = let r = timerfd_expire_count true b t in ap (λ (x : ℕ). (x, r.1)) (omega arith)

nothing_second :
    (n b : ℕ) (t : TimerFd) → timerfd_expire_count true b t ≡ (0, t) → then_look b (n, t) ≡ (n, t)
unfolding then_look
nothing_second n b t h =
    let e : n + 0 ≡ n = omega arith in
    ap (λ (r : ℕ × TimerFd). (n + r.0, r.1)) h ∙ ap (λ (x : ℕ). (x, t)) e

module _ (t : TimerFd) (is_used : t.used ≡ true) (is_active : t.active ≡ true)
    (some_interval : 0 < t.interval_us) (a b : ℕ) (le : a ≤ b) (due : t.next_us ≤ a)
    (w : b + t.interval_us < 18446744073709551616) where
  abbrev s : ℕ
  s = (a - t.next_us) / t.interval_us

  abbrev later : TimerFd
  later = record t { next_us = t.next_us + (1 + s) * t.interval_us }

  still : b < later.next_us → then_look b (1 + s, later) ≡ timerfd_expire_count true b t
  still before =
      let i = t.interval_us in
      let same : (b - t.next_us) / i ≡ s =
        div-eq_of_lt-le i (omega (arith, div-mul-le_self (a - t.next_us) i, le, due))
          (omega (arith, before, due, le, plus_one s i)) in
      nothing_second (1 + s) b later (early later is_used is_active b before)
      ∙ (ap (λ (x : ℕ). (1 + x, record t { next_us = t.next_us + (1 + x) * i })) (sym same)
          ∙ sym (periodic t is_used is_active some_interval b (omega arith) w))
    where
      plus_one : (x i : ℕ) → (x + 1) * i ≡ (1 + x) * i
      plus_one x i = grind arith

  again : later.next_us ≤ b → then_look b (1 + s, later) ≡ timerfd_expire_count true b t
  unfolding then_look
  again due_later =
      let i = t.interval_us in
      let s' = (b - later.next_us) / i in
      let more : (b - t.next_us) / i ≡ s' + (1 + s) =
        ap (λ (x : ℕ). x / i) (omega (arith, due_later, due, le))
        ∙ add-mul-div_right (b - later.next_us) (1 + s) some_interval in
      ap (λ (r : ℕ × TimerFd). (1 + s + r.0, r.1))
        (periodic later is_used is_active some_interval b due_later w)
      ∙ (ap (λ (x : ℕ). (x, record t { next_us = later.next_us + (1 + s') * i })) (omega arith)
          ∙ (ap (λ (x : ℕ). (1 + (s' + (1 + s)), record t { next_us = x }))
                (spread t.next_us s s' i)
              ∙ (ap (λ (x : ℕ). (1 + x, record t { next_us = t.next_us + (1 + x) * i })) (sym more)
                  ∙ sym (periodic t is_used is_active some_interval b (omega (arith, due, le)) w))))
    where
      spread : (n s s' i : ℕ) → n + (1 + s) * i + (1 + s') * i ≡ n + (1 + (s' + (1 + s))) * i
      spread n s s' i = grind arith

-- Two looks count what one at the later time counts, and leave the timer the same.
two_looks :
    (t : TimerFd) (a b : ℕ)
    → a ≤ b
    → b + t.interval_us < 18446744073709551616
    → then_look b (timerfd_expire_count true a t) ≡ timerfd_expire_count true b t
two_looks t a b le w = elim (Bool-cases (not (t.used && t.active))) [
  | inl p ↦ ap (then_look b) (stopped t a p) ∙ nothing_first b t
  | inr p ↦
      let is_used : t.used ≡ true = ground arith in
      let is_active : t.active ≡ true = ground arith in
      elim (Bool-cases (ltb a t.next_us)) [
        | inl q ↦
            ap (then_look b) (early t is_used is_active a (ground (arith, q))) ∙ nothing_first b t
        | inr q ↦
            let due : t.next_us ≤ a = ground (arith, q) in
            elim (Bool-cases (ltb 0 t.interval_us)) [
              | inl r ↦
                  let some_interval : 0 < t.interval_us = ground (arith, r) in
                  let first =
                    periodic t is_used is_active some_interval a due (omega (arith, le, w)) in
                  ap (then_look b) first
                  ∙ elim (Bool-cases
                      (ltb b (later t is_used is_active some_interval a b le due w).next_us)) [
                        | inl early_look ↦
                            still t is_used is_active some_interval a b le due w
                              (ground (arith, early_look))
                        | inr late_look ↦
                            again t is_used is_active some_interval a b le due w
                              (ground (arith, late_look))
                      ]
              | inr r ↦
                  let z : t.interval_us ≡ 0 = ground (arith, r) in
                  let off = record t { active = false } in
                  ap (then_look b) (one_shot t is_used is_active a z due)
                  ∙ (nothing_second 1 b off (stopped off b (ground arith))
                      ∙ sym (one_shot t is_used is_active b z (omega (arith, due, le))))
            ]
      ]
]

-- Times that do not go back, and the last of them.
abbrev pub Rising : ℕ → List ℕ → Type 0
Rising now [] = Unit
Rising now (x ∷ xs) = (now ≤ x) × Rising x xs

unfoldable pub latest : ℕ → List ℕ → ℕ
latest now [] = now
latest now (x ∷ xs) = latest x xs

latest-bound : (now : ℕ) (times : List ℕ) → Rising now times → now ≤ latest now times
unfolding latest
latest-bound now [] r = omega arith
latest-bound now (x ∷ xs) r = omega (arith, r.0, latest-bound x xs r.1)

keeps_interval :
    (now : ℕ) (t : TimerFd) → (timerfd_expire_count true now t).1.interval_us ≡ t.interval_us
unfolding timerfd_expire_count expired
keeps_interval now t = ground arith

-- However often a timer is looked at, at times that do not go back, the expirations that are counted
-- add up to what a single look at the last of the times counts, and the timer is the same
-- afterwards, as long as the last time and the interval together stay below 2^64: none is lost, and
-- none is counted twice.
pub expire_all-latest :
    (t : TimerFd) (now : ℕ) (times : List ℕ)
    → Rising now times
    → latest now times + t.interval_us < 18446744073709551616
    → expire_all (now ∷ times) t ≡ timerfd_expire_count true (latest now times) t
unfolding expire_all latest
expire_all-latest t now [] r w =
    let look = timerfd_expire_count true now t in ap (λ (x : ℕ). (x, look.1)) (omega arith)
expire_all-latest t now (x ∷ xs) r w =
    let look = timerfd_expire_count true now t in
    let bound : latest x xs + look.1.interval_us < 18446744073709551616 =
      omega (arith, w, keeps_interval now t) in
    ap (λ (q : ℕ × TimerFd). (look.0 + q.0, q.1)) (expire_all-latest look.1 x xs r.1 bound)
    ∙ (unfold then_look in
        two_looks t now (latest x xs) (omega (arith, r.0, latest-bound x xs r.1)) w)
