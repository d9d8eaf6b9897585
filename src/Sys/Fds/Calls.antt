-- ===== src/Sys/Fds/Calls.antt =====
-- src/sys/syscall.c: the calls on descriptors keep the counts of the file references right, in any
-- order.
use edge_os.Prelude.{
  ℕ, Bool, ◌≢◌, Bool-cases, inl, inr, if◌then◌else◌, ◌==◌, Option, none, some, List, [], ◌∷◌, arith,
}
use edge_os.Prelude.Int.{ℤ}
use edge_os.Sys.Fds.{FdKind, Files, fd_proc_for_pid, fd_proc_create}
use edge_os.Sys.Fds.Ops.{do_sys_close, fcntl_dupfd, do_sys_dup2, alloc_special_fd}
use edge_os.Sys.Fds.Keep.{Counted}
use edge_os.Sys.Fds.Fork.{fd_proc_release, fd_clone_after_fork, clone_slot, clone_to, do_sys_pipe}
use edge_os.Sys.Fds.Release.{release-Counted}
use edge_os.Sys.Fds.Piped.{pipe-Counted}
use edge_os.Sys.Fds.Clone.{with_lost, clone_to-Counted}
use edge_os.Sys.Fds.Single.{
  create-Found, close-Counted, dupfd-Counted, special-Counted, dup2-Counted, Found,
}

-- A call on descriptors, by a process; `exit` is what its end does, and `fork` what is done for the
-- child with this pid.
pub data FdCall : Type 0 where
  close : ℤ → FdCall
  dupfd : ℤ → ℕ → Bool → FdCall
  dup2 : ℤ → ℤ → FdCall
  special : FdKind → ℤ → ℕ → Bool → FdCall
  pipe : ℕ → ℕ → FdCall
  exit : FdCall
  fork : ℕ → FdCall

unfoldable pub run_call : ℕ → FdCall → Files → Files
run_call pid (close fd) k = (do_sys_close pid fd k).1
run_call pid (dupfd fd minfd cloexec) k = (fcntl_dupfd pid fd minfd cloexec k).1
run_call pid (dup2 oldfd newfd) k = (do_sys_dup2 pid oldfd newfd k).1
run_call pid (special kind id flags cloexec) k = (alloc_special_fd pid kind id flags cloexec k).1
run_call pid (pipe pipefd flags) k = (do_sys_pipe pid pipefd flags k).files
run_call pid exit k = fd_proc_release pid k
run_call pid (fork child) k = fd_clone_after_fork pid child k

unfoldable pub run_calls : List (ℕ × FdCall) → Files → Files
run_calls [] k = k
run_calls ((pid, c) ∷ cs) k = run_calls cs (run_call pid c k)

-- The references that the standard descriptors of the child of a fork had, before it is given those
-- of the parent: these stay counted, and none holds them.
lost_found : (ℕ → ℕ) → Option ℕ × Files → ℕ → ℕ
lost_found extra (none, k) = extra
lost_found extra (some c, k) = with_lost extra c k

lost_slot : (ℕ → ℕ) → ℕ → Option ℕ → Files → ℕ → ℕ
unfolding lost_found
lost_slot extra child none k = extra
lost_slot extra child (some p) k = lost_found extra (fd_proc_create child k)

lost_call : (ℕ → ℕ) → ℕ → FdCall → Files → ℕ → ℕ
unfolding lost_slot
lost_call extra pid (fork child) k =
    if child == 0 then extra else lost_slot extra child (fd_proc_for_pid pid k) k
lost_call extra pid other k = extra

-- How often each reference is counted and held by none, after calls from a state where `extra` says
-- it: only forks add to it.
unfoldable pub lost : (ℕ → ℕ) → List (ℕ × FdCall) → Files → ℕ → ℕ
unfolding lost_call
lost extra [] k = extra
lost extra ((pid, c) ∷ cs) k = lost (lost_call extra pid c k) cs (run_call pid c k)

abbrev pub AllLive : List (ℕ × FdCall) → Type 0
AllLive [] = Unit
AllLive ((pid, c) ∷ cs) = (pid ≢ 0) × AllLive cs

clone_found-Counted :
    (extra : ℕ → ℕ) (p child : ℕ) (r : Option ℕ × Files)
    → child ≢ 0
    → Found extra child r
    → Counted (lost_found extra r) (clone_to p r)
unfolding lost_found
clone_found-Counted extra p child (none, k) live c = unfold clone_to in c
clone_found-Counted extra p child (some c, k) live a = clone_to-Counted extra p child c k a live

clone_slot-Counted :
    (extra : ℕ → ℕ) (child : ℕ) (o : Option ℕ) (k : Files)
    → child ≢ 0
    → Counted extra k
    → Counted (lost_slot extra child o k) (clone_slot child o k)
unfolding lost_slot clone_slot
clone_slot-Counted extra child none k live c = c
clone_slot-Counted extra child (some p) k live c =
    clone_found-Counted extra p child _ live (create-Found extra child live k c)

fork-Counted :
    (extra : ℕ → ℕ) (pid child : ℕ) (k : Files)
    → Counted extra k
    → Counted (lost_call extra pid (fork child) k) (fd_clone_after_fork pid child k)
unfolding lost_call fd_clone_after_fork
fork-Counted extra pid child k c = elim (Bool-cases (child == 0)) [
  | inl q ↦ rw q c
  | inr q ↦ rw q (clone_slot-Counted extra child _ k (λ e. ground (arith, e, q)) c)
]

run_call-Counted :
    (extra : ℕ → ℕ) (pid : ℕ) (c : FdCall) (k : Files)
    → pid ≢ 0
    → Counted extra k
    → Counted (lost_call extra pid c k) (run_call pid c k)
unfolding run_call lost_call
run_call-Counted extra pid (close fd) k live c = close-Counted _ pid live fd k c
run_call-Counted extra pid (dupfd fd minfd cloexec) k live c =
    dupfd-Counted _ pid live fd minfd cloexec k c
run_call-Counted extra pid (dup2 oldfd newfd) k live c = dup2-Counted _ pid live oldfd newfd k c
run_call-Counted extra pid (special kind id flags cloexec) k live c =
    special-Counted _ pid live kind id flags cloexec k c
run_call-Counted extra pid (pipe pipefd flags) k live c = pipe-Counted _ pid pipefd flags k live c
run_call-Counted extra pid exit k live c = release-Counted _ pid k c
run_call-Counted extra pid (fork child) k live c = fork-Counted extra pid child k c

-- Whatever sequence of `close`, `fcntl` with F_DUPFD, `dup2`, `pipe`, allocations of descriptors for
-- objects, forks and ends processes with pids other than 0 make, failed calls included: from a state
-- where the count of each file reference is the number of the descriptors that hold it, and `extra`
-- more, they lead to a state where it is the number of those that hold it, and `lost extra` more,
-- to which only forks add.
pub run_calls-Counted :
    (extra : ℕ → ℕ) (cs : List (ℕ × FdCall)) (k : Files)
    → AllLive cs
    → Counted extra k
    → Counted (lost extra cs k) (run_calls cs k)
unfolding run_calls lost
run_calls-Counted extra [] k live c = c
run_calls-Counted extra ((pid, call) ∷ cs) k live c =
    run_calls-Counted (lost_call extra pid call k) cs (run_call pid call k) live.1
      (run_call-Counted extra pid call k live.0 c)
