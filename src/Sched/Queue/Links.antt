-- ===== src/Sched/Queue/Links.antt =====
-- src/sys/scheduler.c: what the three queue functions write, field by field.
use edge_os.Prelude.{ℕ, ◌≡◌, ◌∙◌, ap, ◌≢◌, Bool, true, false, arith, ◌==◌, if◌then◌else◌}
use edge_os.Dll.{pv_erase, nx_erase}
use edge_os.Task.{Task, Kernel}
use edge_os.Sched.Queue.{rq_remove_locked}

abbrev pub pv : Kernel → ℕ → ℕ
pv k a = (k.tasks a).rq_prev

abbrev pub nx : Kernel → ℕ → ℕ
nx k a = (k.tasks a).rq_next

abbrev pub on : Kernel → ℕ → Bool
on k a = (k.tasks a).on_runqueue

-- the task without what a queue writes in it
abbrev pub core : Task → Task
core t = record t { rq_prev = 0; rq_next = 0; on_runqueue = false }

-- all of the kernel but the tasks and the CPUs
abbrev pub SameRest : Kernel → Kernel → Type 0
SameRest k k' = record k' { tasks = k.tasks; cpus = k.cpus } ≡ k

module _ (k : Kernel) (c t : ℕ) (t_ne : t ≢ 0) (queued : on k t ≡ true) where
  pub prev-rq_remove_locked :
      (a : ℕ) → a ≢ 0 → pv k t ≢ t → pv (rq_remove_locked k c t) a ≡ pv_erase (pv k) (nx k) t a
  unfolding rq_remove_locked
  prev-rq_remove_locked a h p = ground arith

  pub next-rq_remove_locked :
      (a : ℕ) → a ≢ 0 → nx (rq_remove_locked k c t) a ≡ nx_erase (pv k) (nx k) t a
  unfolding rq_remove_locked
  next-rq_remove_locked a h = ground arith

  pub on-rq_remove_locked :
      (a : ℕ) → on (rq_remove_locked k c t) a ≡ (if a == t then false else on k a)
  unfolding rq_remove_locked
  on-rq_remove_locked a = ground arith

  pub core-rq_remove_locked : (a : ℕ) → core ((rq_remove_locked k c t).tasks a) ≡ core (k.tasks a)
  unfolding rq_remove_locked
  core-rq_remove_locked a = ground arith

  pub rest-rq_remove_locked : SameRest k (rq_remove_locked k c t)
  unfolding rq_remove_locked
  rest-rq_remove_locked = ground arith

  pub cpus-rq_remove_locked :
      (d : ℕ)
      → pv k t ≢ t
      → (rq_remove_locked k c t).cpus d ≡ (
          if d == c
          then record (k.cpus c) {
            rq_head = if pv k t == 0 then nx k t else (k.cpus c).rq_head;
            rq_tail = if nx k t == 0 then pv k t else (k.cpus c).rq_tail;
          }
          else k.cpus d)
  unfolding rq_remove_locked
  cpus-rq_remove_locked d p = ground arith

pub SameRest-trans : {k l : Kernel} (m : Kernel) → SameRest k l → SameRest l m → SameRest k m
SameRest-trans {k} m p q = ap (λ (z : Kernel). record z { tasks = k.tasks; cpus = k.cpus }) q ∙ p
