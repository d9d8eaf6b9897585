-- ===== src/Sched/Switch/RoundRobin.antt =====
-- src/sys/scheduler.c: a series of calls serves the queue of a CPU in turn.
use edge_os.Prelude.{
  ℕ, ◌≡◌, refl, ◌∙◌, Bool, List, [], ◌∷◌, ◌++◌, Option, none, some, length, arith,
}
use mathlib.Core.List.{append_assoc}
use edge_os.Task.{Kernel}
use edge_os.Sched.Rep.{Queues}
use edge_os.Sched.Inv.{Inv}
use edge_os.Sched.Switch.{schedule_common}
use edge_os.Sched.Switch.Dispatch.{Runs}
use edge_os.Sched.Switch.Turn.{Turn, running-Turn}

-- `n + 1` calls, each by a tick or by a yield
unfoldable pub schedules : List Bool → Kernel → Option Kernel
schedules [] k = some k
schedules (m ∷ ms) k = elim (schedule_common m k) [ none ↦ none | some k' ↦ schedules ms k' ]

-- what a series leaves, where only `c` is looked at
pub record Series (c p : ℕ) (xs : List ℕ) (out : Option Kernel) : Type 0 where
  pub after : Kernel
  pub queues : Queues
  pub returns : out ≡ some after
  pub inv : Inv after queues
  pub runs : Runs after c p
  pub waits : queues c ≡ xs

step-Series :
    {k : Kernel} {q : Queues} (c p : ℕ) (xs : List ℕ) (m : Bool) (ms : List Bool) {y : ℕ}
    {ys : List ℕ} (t : Turn k q c y ys (schedule_common m k))
    → Series c p xs (schedules ms t.after)
    → Series c p xs (schedules (m ∷ ms) k)
unfolding schedules
step-Series c p xs m ms t s = record {
  after = s.after;
  queues = s.queues;
  returns = rw (t.returns, schedules) s.returns;
  inv = s.inv;
  runs = s.runs;
  waits = s.waits;
}

-- While no task blocks, the task at place `n` of the queue runs after `n + 1` calls, and behind it
-- wait those that were behind it, then the task that ran, then those that were before it: every
-- task that waits gets the CPU within as many calls as tasks wait.
pub schedules-Series :
    (m : Bool) (ms : List Bool) {k : Kernel} {q : Queues} (v : Inv k q) (c p : ℕ) (r : Runs k c p)
    (front : List ℕ) (y : ℕ) (back : List ℕ)
    → length ms ≡ length front
    → q c ≡ front ++ (y ∷ back)
    → Series c y (back ++ (p ∷ front)) (schedules (m ∷ ms) k)
schedules-Series m [] v c p r [] y back l e =
    let t = running-Turn v c p r m (y ∷ back) y (back ++ (p ∷ [])) e refl in
    step-Series c y (back ++ (p ∷ [])) m [] t (
      unfold schedules in
      record {
        after = t.after;
        queues = t.queues;
        returns = refl;
        inv = t.inv;
        runs = t.runs;
        waits = t.waits;
      })
schedules-Series m [] v c p r (a ∷ front) y back l e = absurd (omega arith)
schedules-Series m (m' ∷ ms) v c p r [] y back l e = absurd (omega arith)
schedules-Series m (m' ∷ ms) v c p r (a ∷ front) y back l e =
    let t =
      running-Turn v c p r m (a ∷ (front ++ (y ∷ back))) a ((front ++ (y ∷ back)) ++ (p ∷ [])) e
        refl in
    let s =
      schedules-Series m' ms t.inv c a t.runs front y (back ++ (p ∷ [])) (omega arith)
        (t.waits ∙ append_assoc front (y ∷ back) (p ∷ [])) in
    rw (← append_assoc back (p ∷ []) (a ∷ front))
      (step-Series c y ((back ++ (p ∷ [])) ++ (a ∷ front)) m (m' ∷ ms) t s)
