-- ===== src/Sys/Tests.antt =====
-- src/sys/syscall.c: the theorems on the system calls at inputs, and tests.
use edge_os.Prelude.{
  ℕ, ◌==◌, true, false, ◌+◌, ◌-◌, ◌≡◌, refl, some, List, [], ◌∷◌, ◌++◌, if◌then◌else◌, min, arith,
}
use edge_os.Prelude.Int.{pos}
use edge_os.Prelude.Maps.{upd}
use edge_os.Task.{UserVma, Space, no_vma}
use edge_os.Sys.Errno.{fails, eagain, epipe}
use edge_os.Sys.Objects.{EventFd, no_eventfd, TimerFd, no_timerfd}
use edge_os.Sys.Events.{
  Done, timerfd_expire_count, expired, eventfd_write, eventfd_read, event_wait, add_event,
  take_event, give_word,
}
use edge_os.Sys.Events.Expire.{latest, expire_all, expire_all-latest}
use edge_os.Sys.User.{
  Memory, page_align_up, read_bytes, write_bytes, le, copy_from_user, copy_to_user, user_range_ok,
}
use edge_os.Sys.Vma.{user_vma_find_free_slot, user_vma_find_topdown_gap, topdown_gap, scan_overlap}
use edge_os.Sys.Vma.Ranges.{total, holders}
use edge_os.Sys.Vma.Remove.{within}
use edge_os.Sys.Vma.Cleared.{Apart}
use edge_os.Sys.Vma.Gap.{Highest, find_topdown_gap-Highest}
use edge_os.Sys.Mmap.{Pages, absent, do_sys_mmap, do_sys_munmap}
use edge_os.Sys.Mmap.Apart.{do_sys_mmap-Apart, do_sys_munmap-exact}
use edge_os.Sys.Pipe.{
  Pipe, no_pipe, drop_reader, drop_writer, edge_pipe_size, moved, pipe_read, pipe_write,
}
use edge_os.Sys.Pipe.Ring.{IsRing, ring, contents}
use edge_os.Sys.Pipe.Fifo.{pipe_read-queue, pipe_write-queue}
use edge_os.Sys.Pipe.Ends.{closed_ends}

-- Two mappings with room between them, and free slots.
abbrev low_mapping : UserVma
low_mapping = record { start = 0x20400000; end = 0x20401000; prot = 3; flags = 0x22 }

abbrev high_mapping : UserVma
high_mapping = record { start = 0x20404000; end = 0x20408000; prot = 3; flags = 0x22 }

abbrev mappings : List UserVma
mappings = low_mapping ∷ no_vma ∷ high_mapping ∷ no_vma ∷ []

gap_test : user_vma_find_topdown_gap mappings 0x20400000 0x20408000 0x2000 ≡ 0x20402000
unfolding user_vma_find_topdown_gap topdown_gap scan_overlap
gap_test = refl

find_topdown_gap-Highest_example :
    Highest 0x20400000 0x20408000 0x2000 mappings
      (user_vma_find_topdown_gap mappings 0x20400000 0x20408000 0x2000)
find_topdown_gap-Highest_example =
    find_topdown_gap-Highest mappings 0x20400000 0x20408000 0x2000 (omega arith) (omega arith) refl
      (omega arith)

abbrev space : Space
space = record {
  user_stack_top = 0x20400000;
  user_heap_base = 0x20400000;
  user_brk = 0x20400000;
  user_heap_limit = 0x20408000;
  user_mmap_next = 0x20408000;
  user_vma_count = 2;
  user_vmas = mappings;
  fs_base = 0;
}

mappings-Apart : Apart mappings
unfolding holders total
mappings-Apart = record { once = λ a. ground arith }

-- Every page is there, for the user, and can be written.
abbrev all_pages : Pages
all_pages v = 7

abbrev no_memory : Memory
no_memory a = 0

do_sys_mmap-Apart_example :
    Apart (do_sys_mmap all_pages absent space no_memory 0 0x2000 3 0x22 0 0).space.user_vmas
do_sys_mmap-Apart_example =
    do_sys_mmap-Apart all_pages absent space no_memory 0 0x2000 3 0x22 0 0 mappings-Apart

do_sys_munmap-exact_example :
    ((do_sys_munmap space 0x20405000 0x1000).0 ≡ pos 0)
    × (holders 0x20405800 (do_sys_munmap space 0x20405000 0x1000).1.user_vmas ≡ (
        if within 0x20405000 (0x20405000 + page_align_up 0x1000) 0x20405800
        then 0
        else holders 0x20405800 space.user_vmas))
do_sys_munmap-exact_example =
    do_sys_munmap-exact space 0x20405000 0x1000 1 0x20405800 mappings-Apart
      (unfold user_vma_find_free_slot in refl) refl (omega arith) (omega arith) (omega arith)
      (omega arith)

-- A pipe that holds two bytes, at the end of the ring and at its start.
abbrev two_bytes : Pipe
two_bytes = record {
  used = true;
  readers = 1;
  writers = 1;
  rpos = 4095;
  wpos = 1;
  count = 2;
  buf = upd (upd (λ i. 0) 4095 65) 0 66;
}

two_bytes-IsRing : IsRing two_bytes
two_bytes-IsRing = record { start = omega arith; full = omega arith; end = refl }

contents_test : contents two_bytes ≡ 65 ∷ 66 ∷ []
unfolding contents ring
contents_test = refl

pipe_read-queue_example :
    ((pipe_read false [] 0x2000 1 no_memory two_bytes).result ≡ some (pos (min 1 2)))
    × (contents two_bytes
        ≡ read_bytes (pipe_read false [] 0x2000 1 no_memory two_bytes).memory 0x2000 (min 1 2)
          ++ contents (pipe_read false [] 0x2000 1 no_memory two_bytes).pipe)
    × IsRing (pipe_read false [] 0x2000 1 no_memory two_bytes).pipe
pipe_read-queue_example =
    pipe_read-queue false [] 0x2000 1 no_memory two_bytes two_bytes-IsRing refl (omega arith)
      (omega arith) (omega arith) (omega arith)

pipe_write-queue_example :
    ((pipe_write false [] 0x2000 3 no_memory two_bytes).result
      ≡ some (pos (min 3 (edge_pipe_size - 2))))
    × (contents (pipe_write false [] 0x2000 3 no_memory two_bytes).pipe
        ≡ contents two_bytes ++ read_bytes no_memory 0x2000 (min 3 (edge_pipe_size - 2)))
    × IsRing (pipe_write false [] 0x2000 3 no_memory two_bytes).pipe
pipe_write-queue_example =
    pipe_write-queue false [] 0x2000 3 no_memory two_bytes two_bytes-IsRing refl (omega arith)
      (omega arith) (omega arith) (omega arith) (omega arith)

abbrev empty_pipe : Pipe
empty_pipe = record no_pipe { used = true; readers = 1; writers = 1 }

closed_ends_example :
    (pipe_write true [] 0x2000 3 no_memory (drop_reader empty_pipe)
      ≡ moved (fails epipe) (drop_reader empty_pipe) no_memory)
    × (pipe_read true [] 0x2000 3 no_memory (drop_writer empty_pipe)
        ≡ moved (pos 0) (drop_writer empty_pipe) no_memory)
    × (drop_writer (drop_reader empty_pipe) ≡ no_pipe)
    × (drop_reader (drop_writer empty_pipe) ≡ no_pipe)
closed_ends_example = closed_ends true [] 0x2000 3 no_memory empty_pipe refl refl refl refl

-- A timer that is due at 1000, and then each 300.
abbrev timer : TimerFd
timer = record no_timerfd { used = true; active = true; next_us = 1000; interval_us = 300 }

abbrev looks : List ℕ
looks = 1100 ∷ 1900 ∷ 2000 ∷ []

expire_all-latest_example :
    expire_all (500 ∷ looks) timer ≡ timerfd_expire_count true (latest 500 looks) timer
unfolding latest
expire_all-latest_example = expire_all-latest timer 500 looks (omega arith) (omega arith)

timer_test : timerfd_expire_count true 2000 timer ≡ (4, record timer { next_us = 2200 })
unfolding timerfd_expire_count expired
timer_test = refl

-- Two writes to an event object, and a read that takes both.
abbrev event : EventFd
event = record no_eventfd { used = true; refs = 1 }

abbrev seven_at : ℕ → ℕ
seven_at a = if a == 0x500000 then 7 else 0

abbrev wrote : EventFd → Done EventFd
wrote e = eventfd_write true [] 0x500000 8 seven_at e

event_test :
    (wrote (wrote event).object).object.counter ≡ 14
    × ((eventfd_read true [] 0x500000 8 seven_at (wrote (wrote event).object).object).memory
          0x500000
        ≡ 14)
    × ((eventfd_read true [] 0x500000 8 seven_at event).result ≡ some (fails eagain))
unfolding eventfd_write event_wait add_event eventfd_read take_event give_word copy_from_user
    copy_to_user user_range_ok read_bytes write_bytes le
event_test = (refl, refl, refl)
