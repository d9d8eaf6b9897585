-- ===== src/Sched/Queue/Moves.antt =====
-- src/sys/scheduler.c: what a push at the tail and a pop of the head write, field by field.
use edge_os.Prelude.{ℕ, ◌≡◌, ◌≢◌, true, false, arith, ◌==◌, if◌then◌else◌}
use edge_os.Dll.{pv_erase, nx_erase, pv_snoc, nx_snoc}
use edge_os.Task.{Kernel}
use edge_os.Sched.Queue.{rq_link_tail, rq_push_tail_locked, rq_pop_head_locked}
use edge_os.Sched.Queue.Links.{pv, nx, on, core, SameRest}

abbrev pub tail_of : Kernel → ℕ → ℕ
tail_of k c = (k.cpus c).rq_tail

module _ (k : Kernel) (c t : ℕ) (t_ne : t ≢ tail_of k c) where
  pub prev-rq_link_tail :
      (a : ℕ) → pv (rq_link_tail k c t) a ≡ pv_snoc (pv k) (nx k) t (tail_of k c) a
  unfolding rq_link_tail
  prev-rq_link_tail a = ground arith

  pub next-rq_link_tail :
      (a : ℕ) → a ≢ 0 → nx (rq_link_tail k c t) a ≡ nx_snoc (pv k) (nx k) t (tail_of k c) a
  unfolding rq_link_tail
  next-rq_link_tail a h = ground arith

module _ (k : Kernel) (c t : ℕ) where
  pub on-rq_link_tail : (a : ℕ) → on (rq_link_tail k c t) a ≡ (if a == t then true else on k a)
  unfolding rq_link_tail
  on-rq_link_tail a = ground arith

  pub core-rq_link_tail : (a : ℕ) → core ((rq_link_tail k c t).tasks a) ≡ core (k.tasks a)
  unfolding rq_link_tail
  core-rq_link_tail a = ground arith

  pub rest-rq_link_tail : SameRest k (rq_link_tail k c t)
  unfolding rq_link_tail
  rest-rq_link_tail = ground arith

  pub cpus-rq_link_tail :
      (d : ℕ)
      → (rq_link_tail k c t).cpus d ≡ (
          if d == c
          then record (k.cpus c) {
            rq_head = if tail_of k c == 0 then t else (k.cpus c).rq_head;
            rq_tail = t;
          }
          else k.cpus d)
  unfolding rq_link_tail
  cpus-rq_link_tail d = ground arith

pub rq_push_tail_locked-eq :
    (k : Kernel) (c t : ℕ) → t ≢ 0 → on k t ≡ false → rq_push_tail_locked k c t ≡ rq_link_tail k c t
unfolding rq_push_tail_locked
rq_push_tail_locked-eq k c t t_ne off = ground arith

abbrev pub popped : Kernel → ℕ → Kernel
popped k c = (rq_pop_head_locked k c).1

module _ (k : Kernel) (c : ℕ) (t : ℕ) (head : (k.cpus c).rq_head ≡ t) (t_ne : t ≢ 0) where
  pub fst-rq_pop_head_locked : (rq_pop_head_locked k c).0 ≡ t
  unfolding rq_pop_head_locked
  fst-rq_pop_head_locked = ground arith

  pub prev-rq_pop_head_locked :
      (a : ℕ) → a ≢ 0 → pv k t ≡ 0 → pv (popped k c) a ≡ pv_erase (pv k) (nx k) t a
  unfolding rq_pop_head_locked
  prev-rq_pop_head_locked a h p = ground arith

  pub next-rq_pop_head_locked :
      (a : ℕ) → a ≢ 0 → pv k t ≡ 0 → nx (popped k c) a ≡ nx_erase (pv k) (nx k) t a
  unfolding rq_pop_head_locked
  next-rq_pop_head_locked a h p = ground arith

  pub on-rq_pop_head_locked : (a : ℕ) → on (popped k c) a ≡ (if a == t then false else on k a)
  unfolding rq_pop_head_locked
  on-rq_pop_head_locked a = ground arith

  pub core-rq_pop_head_locked : (a : ℕ) → core ((popped k c).tasks a) ≡ core (k.tasks a)
  unfolding rq_pop_head_locked
  core-rq_pop_head_locked a = ground arith

  pub rest-rq_pop_head_locked : SameRest k (popped k c)
  unfolding rq_pop_head_locked
  rest-rq_pop_head_locked = ground arith

  pub cpus-rq_pop_head_locked :
      (d : ℕ)
      → (popped k c).cpus d ≡ (
          if d == c
          then record (k.cpus c) {
            rq_head = nx k t;
            rq_tail = if nx k t == 0 then 0 else tail_of k c;
          }
          else k.cpus d)
  unfolding rq_pop_head_locked
  cpus-rq_pop_head_locked d = ground arith
