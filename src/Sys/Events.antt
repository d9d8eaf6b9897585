-- ===== src/Sys/Events.antt =====
-- src/sys/syscall.c: event and timer descriptors: their creation, and the parts of `do_sys_fd_read`
-- and `do_sys_fd_write` for them. The clocks are parameters: the time at each look at a timer.
pub mod Expire
use edge_os.Prelude.{
  ℕ, zero, suc, Bool, true, false, ◌+◌, ◌-◌, ◌*◌, ◌/◌, ◌%◌, Option, none, some, List, [], ◌∷◌, ◌==◌,
  if◌then◌else◌, ltb, not, ◌&&◌, ◌||◌,
}
use edge_os.Prelude.Int.{ℤ, pos, negsuc}
use edge_os.Sys.Errno.{fails, eintr, eagain, ebadf, enomem, efault, einval}
use edge_os.Sys.User.{Memory, wrap64, word_at, bytes_of, copy_from_user, copy_to_user}
use edge_os.Sys.Objects.{
  EventFd, eventfd_alloc_obj, eventfd_drop_ref, TimerFd, timerfd_alloc_obj, timerfd_drop_ref,
}
use edge_os.Sys.Fds.{Files, fd_eventfd, fd_timerfd}
use edge_os.Sys.Fds.Ops.{alloc_special_fd}

abbrev has_flag : ℕ → ℕ → Bool
has_flag flags b = flags / b % 2 == 1

abbrev kept_flag : ℕ → ℕ → ℕ
kept_flag flags b = if has_flag flags b then b else 0

abbrev o_nonblock : ℕ
o_nonblock = 0x800

abbrev o_cloexec : ℕ
o_cloexec = 0x80000

-- The end of `do_sys_eventfd2` and `do_sys_timerfd_create`: without a descriptor the object is
-- dropped again.
unfoldable pub or_dropped : (Files → Files) → ℤ × Files → ℤ × Files
or_dropped drop (pos f, k) = (pos f, k)
or_dropped drop (negsuc e, k) = (negsuc e, drop k)

unfoldable pub eventfd_of : ℕ → ℕ → Option ℕ × (ℕ → EventFd) → Files → ℤ × Files
unfolding or_dropped
eventfd_of pid flags (none, t) k = (fails enomem, k)
eventfd_of pid flags (some id, t) k =
    or_dropped (λ j. record j { eventfds = eventfd_drop_ref (pos id) j.eventfds })
      (alloc_special_fd pid fd_eventfd (pos id) (kept_flag flags o_nonblock)
        (has_flag flags o_cloexec) (record k { eventfds = t }))

unfoldable pub do_sys_eventfd2 : ℕ → ℕ → ℕ → Files → ℤ × Files
unfolding eventfd_of
do_sys_eventfd2 pid initval flags k =
    if flags == kept_flag flags 1 + kept_flag flags o_nonblock + kept_flag flags o_cloexec
    then eventfd_of pid flags
        (eventfd_alloc_obj (initval % 4294967296) (has_flag flags 1) k.eventfds) k
    else (fails einval, k)

unfoldable pub timerfd_of : ℕ → ℕ → Option ℕ × (ℕ → TimerFd) → Files → ℤ × Files
unfolding or_dropped
timerfd_of pid flags (none, t) k = (fails enomem, k)
timerfd_of pid flags (some id, t) k =
    or_dropped (λ j. record j { timerfds = timerfd_drop_ref (pos id) j.timerfds })
      (alloc_special_fd pid fd_timerfd (pos id) (kept_flag flags o_nonblock)
        (has_flag flags o_cloexec) (record k { timerfds = t }))

-- CLOCK_REALTIME is 0, CLOCK_MONOTONIC 1.
unfoldable pub do_sys_timerfd_create : ℕ → ℕ → ℕ → Files → ℤ × Files
unfolding timerfd_of
do_sys_timerfd_create pid clockid flags k =
    if ltb clockid 2 && (flags == kept_flag flags o_nonblock + kept_flag flags o_cloexec)
    then timerfd_of pid flags (timerfd_alloc_obj clockid k.timerfds) k
    else (fails einval, k)

-- How often a timer has expired at the time `now`; with `consume` the timer goes on to the next
-- time that lies ahead, or stops.
unfoldable pub expired : Bool → ℕ → ℕ → TimerFd → ℕ × TimerFd
expired consume cnt now t = (
  cnt,
  if consume
      then if ltb 0 t.interval_us
        then record t { next_us = wrap64 (t.next_us + wrap64 (cnt * t.interval_us)) }
        else record t { active = false }
      else t,
)

abbrev pub expirations : ℕ → TimerFd → ℕ
expirations now t =
    if ltb 0 t.interval_us && ltb t.next_us now
    then wrap64 (1 + (now - t.next_us) / t.interval_us)
    else 1

unfoldable pub timerfd_expire_count : Bool → ℕ → TimerFd → ℕ × TimerFd
unfolding expired
timerfd_expire_count consume now t =
    if not (t.used && t.active)
    then (0, t)
    else if ltb now t.next_us
    then (0, t)
    else expired consume (expirations now t) now t

-- The result of a call, `none` while it sleeps; the object; user memory.
pub record Done (A : Type 0) : Type 0 where
  pub result : Option ℤ
  pub object : A
  pub memory : Memory

abbrev done : {A : Type 0} → ℤ → A → Memory → Done A
done r x m = record { result = some r; object = x; memory = m }

-- One turn of a loop that waits for a timer: the time at the next look, and whether a signal is
-- pending before it.
pub record TimerTurn : Type 0 where
  pub signal : Bool
  pub now : ℕ

-- The 8 bytes of a value are copied to the user, who may have given a bad address.
unfoldable pub give_word : {A : Type 0} → ℕ → ℕ → Memory → A → Done A
give_word buf v m x = elim (copy_to_user m buf (bytes_of v)) [
  | none ↦ done (fails efault) x m
  | some m' ↦ done (pos 8) x m'
]

unfoldable pub timer_loop : Bool → List TimerTurn → ℕ → Memory → ℕ × TimerFd → Done TimerFd
timer_loop nonblock [] buf m (suc n, t) = give_word buf (suc n) m t
timer_loop nonblock (turn ∷ turns) buf m (suc n, t) = give_word buf (suc n) m t
timer_loop nonblock [] buf m (zero, t) =
    if nonblock then done (fails eagain) t m else record { result = none; object = t; memory = m }
timer_loop nonblock (turn ∷ turns) buf m (zero, t) =
    let later = timer_loop nonblock turns buf m (timerfd_expire_count true turn.now t) in
    if nonblock
    then done (fails eagain) t m
    else if turn.signal
    then done (fails eintr) t m
    else later

-- `do_sys_fd_read` for a timer descriptor; `now` is the time of the first look.
unfoldable pub timerfd_read : Bool → ℕ → List TimerTurn → ℕ → ℕ → Memory → TimerFd → Done TimerFd
unfolding timer_loop
timerfd_read nonblock now turns buf len m t =
    if ltb len 8
    then done (fails einval) t m
    else if t.used
    then timer_loop nonblock turns buf m (timerfd_expire_count true now t)
    else done (fails ebadf) t m

-- One turn of a loop that waits for an event object: whether a signal is pending, and what the other
-- processes make of the object while the caller sleeps.
pub record EventTurn : Type 0 where
  pub signal : Bool
  pub others : EventFd → EventFd

-- The loops that wait while the object is `blocked`, and then go on with `go`.
unfoldable pub event_wait :
    (EventFd → Bool)
    → (EventFd → Done EventFd)
    → Bool
    → List EventTurn
    → Memory
    → EventFd
    → Done EventFd
event_wait blocked go nonblock [] m e =
    if not (blocked e)
    then go e
    else if nonblock
    then done (fails eagain) e m
    else record { result = none; object = e; memory = m }
event_wait blocked go nonblock (turn ∷ turns) m e =
    let later = event_wait blocked go nonblock turns m (turn.others e) in
    if not (blocked e)
    then go e
    else if nonblock
    then done (fails eagain) e m
    else if turn.signal
    then done (fails eintr) e m
    else later

-- A semaphore gives 1, another event object all it has.
unfoldable pub take_event : ℕ → Memory → EventFd → Done EventFd
take_event buf m e =
    if e.semaphore
    then give_word buf 1 m (record e { counter = e.counter - 1 })
    else give_word buf e.counter m (record e { counter = 0 })

unfoldable pub eventfd_read : Bool → List EventTurn → ℕ → ℕ → Memory → EventFd → Done EventFd
unfolding take_event event_wait
eventfd_read nonblock turns buf len m e =
    if ltb len 8
    then done (fails einval) e m
    else if e.used
    then event_wait (λ x. x.counter == 0) (take_event buf m) nonblock turns m e
    else done (fails ebadf) e m

-- `UINT64_MAX - 1 - ev->counter < v`
abbrev pub too_full : ℕ → EventFd → Bool
too_full v e = ltb (wrap64 (36893488147419103230 - e.counter)) v

unfoldable pub add_event : ℕ → Memory → EventFd → Done EventFd
add_event v m e = done (pos 8) (record e { counter = wrap64 (e.counter + v) }) m

unfoldable pub eventfd_write : Bool → List EventTurn → ℕ → ℕ → Memory → EventFd → Done EventFd
unfolding add_event event_wait
eventfd_write nonblock turns buf len m e =
    if ltb len 8
    then done (fails einval) e m
    else if not e.used
    then done (fails ebadf) e m
    else elim (copy_from_user m buf 8) [
      | none ↦ done (fails efault) e m
      | some bs ↦
          if word_at m buf == 18446744073709551615
          then done (fails einval) e m
          else event_wait (too_full (word_at m buf)) (add_event (word_at m buf) m) nonblock turns m
              e
    ]
