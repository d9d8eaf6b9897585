-- ===== src/Sys/Fds/Tests.antt =====
-- src/sys/syscall.c: the theorems on descriptors at inputs, and tests.
use edge_os.Prelude.{ℕ, true, false, ◌≡◌, refl, List, [], ◌∷◌, arith, if◌then◌else◌, leb, ◌&&◌}
use edge_os.Prelude.Int.{pos, neg_one}
use edge_os.Prelude.Maps.{upd}
use edge_os.Sys.Objects.{
  no_eventfd, no_timerfd, no_signalfd, no_epoll, file_ref_alloc, file_ref_from, file_ref_get,
}
use edge_os.Sys.Pipe.{no_pipe}
use edge_os.Sys.Fds.{
  Fd, fd_console, fd_proc_for_pid, fd_proc_create, slot_or_new, find_proc, new_proc,
  fd_ensure_stdio, then_ensure, ensure_one, put_fd, add_object, Files, no_proc, no_fd, fd_eventfd,
}
use edge_os.Sys.Fds.Counts.{count_refs, count_fds, sum, none_held, sum_zero}
use edge_os.Sys.Fds.Keep.{Counted}
use edge_os.Sys.Fds.Calls.{
  FdCall, close, dupfd, dup2, special, pipe, exit, fork, lost, run_calls, run_calls-Counted,
}
use edge_os.Sys.Fds.Fork.{
  fd_clone_after_fork, clone_slot, clone_to, clone_from, clone_one, clone_ref,
}

-- The state at the start: no process has a descriptor.
abbrev no_files : Files
no_files = record {
  procs = λ s. no_proc;
  refs = λ id. record { used = false; refs = 0 };
  pipes = λ i. no_pipe;
  eventfds = λ i. no_eventfd;
  timerfds = λ i. no_timerfd;
  signalfds = λ i. no_signalfd;
  epolls = λ i. no_epoll;
  calls = [];
  fb_console_hold_count = 0;
  fb_present = true;
}

no_files-Counted : Counted (λ id. 0) no_files
unfolding count_refs
no_files-Counted = record {
  counts = λ id lo hi. omega (
    arith,
    sum_zero 64 (λ s. count_fds id no_proc.fds) (λ s. none_held id no_proc.fds (λ f. refl)),
  );
  unused = record { idle = λ id u. refl };
  vacant = λ s f h. refl;
}

-- A process makes an event descriptor, copies it over its standard output, closes it, and closes a
-- descriptor that is not there; another one copies its standard input; a third one makes a pipe,
-- forks, and ends.
abbrev some_calls : List (ℕ × FdCall)
some_calls =
    (5, special fd_eventfd (pos 0) 0 false)
    ∷ (5, dup2 (pos 3) (pos 1))
    ∷ (5, close (pos 3))
    ∷ (5, close (pos 40))
    ∷ (6, dupfd (pos 0) 10 true)
    ∷ (7, pipe 0x500000 0x800)
    ∷ (7, fork 8)
    ∷ (7, exit)
    ∷ []

run_calls-Counted_example :
    Counted (lost (λ id. 0) some_calls no_files) (run_calls some_calls no_files)
run_calls-Counted_example =
    run_calls-Counted (λ id. 0) some_calls no_files (omega arith) no_files-Counted

-- A process with its standard descriptors only.
abbrev console : ℕ → Fd
console ref = record no_fd { used = true; kind = fd_console; file_ref = ref; pipe_id = neg_one }

abbrev parent_ready : Files
parent_ready = record no_files {
  procs = upd no_files.procs 0 (record no_proc {
    pid = 5;
    fds = upd (upd (upd no_proc.fds 0 (console 1)) 1 (console 2)) 2 (console 3);
  });
  refs = λ id.
      if leb 1 id && leb id 3
      then record { used = true; refs = 1 }
      else record { used = false; refs = 0 };
}

abbrev after_fork : Files
after_fork = fd_clone_after_fork 5 6 parent_ready

-- After a fork by that process the reference 1 is held by parent and child, but the reference 4,
-- which was taken for the standard input of the child before its descriptors were cleared, is
-- counted and held by none.
fork_test :
    ((after_fork.refs 1).refs ≡ 2)
    × (count_refs 1 after_fork.procs ≡ 2)
    × ((after_fork.refs 4).refs ≡ 1)
    × (count_refs 4 after_fork.procs ≡ 0)
unfolding fd_clone_after_fork clone_slot clone_to clone_from clone_one clone_ref fd_proc_for_pid
    fd_proc_create slot_or_new find_proc new_proc fd_ensure_stdio then_ensure ensure_one
    file_ref_alloc file_ref_from file_ref_get put_fd add_object count_refs count_fds sum
fork_test = (refl, refl, refl, refl)
