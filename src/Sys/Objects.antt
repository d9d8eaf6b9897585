-- ===== src/Sys/Objects.antt =====
-- src/sys/syscall.c: the tables of the objects that descriptors stand for, with their reference
-- counts: event, timer and signal descriptors, epoll sets and the file references. An id that is
-- negative or beyond the table is passed over.
use edge_os.Prelude.{
  ℕ, zero, suc, Bool, true, false, ◌+◌, ◌-◌, Option, none, some, ◌==◌, if◌then◌else◌, ltb, leb, not,
  ◌&&◌,
}
use edge_os.Prelude.Int.{ℤ, pos}
use edge_os.Prelude.Maps.{upd}

-- A table of a kind of objects: how many there are, and whether a slot is used.
module _ {A : Type 0} (size : ℕ) (in_use : A → Bool) where
  -- The search for a free slot from `i` on, with `n` slots left, and what is put there.
  unfoldable pub claim_from : ℕ → ℕ → A → (ℕ → A) → Option ℕ × (ℕ → A)
  claim_from i zero fresh t = (none, t)
  claim_from i (suc n) fresh t =
      let rest = claim_from (i + 1) n fresh t in
      if in_use (t i) then rest else (some i, upd t i fresh)

  -- What is done to the object of an id, if it is used.
  unfoldable pub with_object : (A → A) → ℤ → (ℕ → A) → ℕ → A
  with_object f (pos i) t = if ltb i size && in_use (t i) then upd t i (f (t i)) else t
  with_object f other t = t

-- `edge_eventfd_t`
pub record EventFd : Type 0 where
  pub used : Bool
  pub refs : ℕ
  pub counter : ℕ
  pub semaphore : Bool

abbrev pub no_eventfd : EventFd
no_eventfd = record { used = false; refs = 0; counter = 0; semaphore = false }

abbrev pub edge_max_eventfds : ℕ
edge_max_eventfds = 64

unfoldable pub eventfd_alloc_obj : ℕ → Bool → (ℕ → EventFd) → Option ℕ × (ℕ → EventFd)
eventfd_alloc_obj initval semaphore t =
    claim_from edge_max_eventfds (λ (e : EventFd). e.used) 0 edge_max_eventfds
      (record { used = true; refs = 1; counter = initval; semaphore = semaphore }) t

unfoldable pub eventfd_add_ref : ℤ → (ℕ → EventFd) → ℕ → EventFd
eventfd_add_ref id t =
    with_object edge_max_eventfds (λ (e : EventFd). e.used) (λ e. record e { refs = e.refs + 1 }) id
      t

unfoldable pub eventfd_drop_ref : ℤ → (ℕ → EventFd) → ℕ → EventFd
eventfd_drop_ref id t =
    with_object edge_max_eventfds (λ (e : EventFd). e.used)
      (λ e. if leb e.refs 1 then no_eventfd else record e { refs = e.refs - 1 }) id t

-- `edge_timerfd_t`
pub record TimerFd : Type 0 where
  pub used : Bool
  pub refs : ℕ
  pub clockid : ℕ
  pub active : Bool
  pub next_us : ℕ
  pub interval_us : ℕ

abbrev pub no_timerfd : TimerFd
no_timerfd = record {
  used = false;
  refs = 0;
  clockid = 0;
  active = false;
  next_us = 0;
  interval_us = 0;
}

abbrev pub edge_max_timerfds : ℕ
edge_max_timerfds = 64

unfoldable pub timerfd_alloc_obj : ℕ → (ℕ → TimerFd) → Option ℕ × (ℕ → TimerFd)
timerfd_alloc_obj clockid t =
    claim_from edge_max_timerfds (λ (e : TimerFd). e.used) 0 edge_max_timerfds
      (record no_timerfd { used = true; refs = 1; clockid = clockid }) t

unfoldable pub timerfd_add_ref : ℤ → (ℕ → TimerFd) → ℕ → TimerFd
timerfd_add_ref id t =
    with_object edge_max_timerfds (λ (e : TimerFd). e.used) (λ e. record e { refs = e.refs + 1 }) id
      t

unfoldable pub timerfd_drop_ref : ℤ → (ℕ → TimerFd) → ℕ → TimerFd
timerfd_drop_ref id t =
    with_object edge_max_timerfds (λ (e : TimerFd). e.used)
      (λ e. if leb e.refs 1 then no_timerfd else record e { refs = e.refs - 1 }) id t

-- `edge_signalfd_t`
pub record SignalFd : Type 0 where
  pub used : Bool
  pub refs : ℕ
  pub mask : ℕ

abbrev pub no_signalfd : SignalFd
no_signalfd = record { used = false; refs = 0; mask = 0 }

abbrev pub edge_max_signalfds : ℕ
edge_max_signalfds = 64

unfoldable pub signalfd_alloc_obj : ℕ → (ℕ → SignalFd) → Option ℕ × (ℕ → SignalFd)
signalfd_alloc_obj mask t =
    claim_from edge_max_signalfds (λ (e : SignalFd). e.used) 0 edge_max_signalfds
      (record { used = true; refs = 1; mask = mask }) t

unfoldable pub signalfd_add_ref : ℤ → (ℕ → SignalFd) → ℕ → SignalFd
signalfd_add_ref id t =
    with_object edge_max_signalfds (λ (e : SignalFd). e.used) (λ e. record e { refs = e.refs + 1 })
      id t

unfoldable pub signalfd_drop_ref : ℤ → (ℕ → SignalFd) → ℕ → SignalFd
signalfd_drop_ref id t =
    with_object edge_max_signalfds (λ (e : SignalFd). e.used)
      (λ e. if leb e.refs 1 then no_signalfd else record e { refs = e.refs - 1 }) id t

-- `edge_epoll_watch_t` and `edge_epoll_t`
pub record Watch : Type 0 where
  pub fd : ℤ
  pub events : ℕ
  pub word : ℕ

pub record Epoll : Type 0 where
  pub used : Bool
  pub refs : ℕ
  pub nwatch : ℕ
  pub watch : ℕ → Watch

abbrev pub no_epoll : Epoll
no_epoll = record {
  used = false;
  refs = 0;
  nwatch = 0;
  watch = λ i. record { fd = pos 0; events = 0; word = 0 };
}

abbrev pub edge_max_epolls : ℕ
edge_max_epolls = 32

unfoldable pub epoll_alloc_obj : (ℕ → Epoll) → Option ℕ × (ℕ → Epoll)
epoll_alloc_obj t =
    claim_from edge_max_epolls (λ (e : Epoll). e.used) 0 edge_max_epolls
      (record no_epoll { used = true; refs = 1 }) t

unfoldable pub epoll_add_ref : ℤ → (ℕ → Epoll) → ℕ → Epoll
epoll_add_ref id t =
    with_object edge_max_epolls (λ (e : Epoll). e.used) (λ e. record e { refs = e.refs + 1 }) id t

unfoldable pub epoll_drop_ref : ℤ → (ℕ → Epoll) → ℕ → Epoll
epoll_drop_ref id t =
    with_object edge_max_epolls (λ (e : Epoll). e.used)
      (λ e. if leb e.refs 1 then no_epoll else record e { refs = e.refs - 1 }) id t

-- `edge_file_ref_t`
pub record FileRef : Type 0 where
  pub used : Bool
  pub refs : ℕ

abbrev pub edge_max_file_refs : ℕ
edge_max_file_refs = 1024

-- The first free reference; the slot 0 is not given, and the result 0 says that none is free.
unfoldable pub file_ref_from : ℕ → ℕ → (ℕ → FileRef) → ℕ × (ℕ → FileRef)
file_ref_from i zero t = (0, t)
file_ref_from i (suc n) t =
    let rest = file_ref_from (i + 1) n t in
    if (t i).used then rest else (i, upd t i (record { used = true; refs = 1 }))

unfoldable pub file_ref_alloc : (ℕ → FileRef) → ℕ × (ℕ → FileRef)
file_ref_alloc t = file_ref_from 1 (edge_max_file_refs - 1) t

abbrev pub is_held : ℕ → (ℕ → FileRef) → Bool
is_held id t = (ltb 0 id && ltb id edge_max_file_refs) && ((t id).used && ltb 0 (t id).refs)

-- `none` is the result -1.
unfoldable pub file_ref_get : ℕ → (ℕ → FileRef) → Option (ℕ → FileRef)
file_ref_get id t =
    if is_held id t then some (upd t id (record (t id) { refs = (t id).refs + 1 })) else none

unfoldable pub file_ref_put : ℕ → (ℕ → FileRef) → ℕ → FileRef
file_ref_put id t =
    if is_held id t
    then upd t id (record { used = not ((t id).refs == 1); refs = (t id).refs - 1 })
    else t
