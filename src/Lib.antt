-- ===== src/Lib.antt =====
-- EdgeOS: a kernel for 64-bit PCs. This library models the parts of it that schedule processes,
-- keep the process table and the lists of children, end processes and wait for them, and that
-- copy the memory of a process in a fork; the system calls on the mappings of a process, on its
-- descriptors and on pipes; the loader of programs; the block layer; a part of the virtual file
-- system; the string functions; and the clock.
--
-- Files and code:
--   Task             include/sys/process.h, include/sys/scheduler.h: the task and CPU structures,
--                    and `Kernel`, the static variables of the two files below
--   Sched.Queue      src/sys/scheduler.c: the queue functions `rq_*` and the choice of the next
--                    task
--   Sched.Ops        src/sys/scheduler.c: the functions `scheduler_*` that change a task
--   Sched.Switch     src/sys/scheduler.c: `schedule_common`, `scheduler_tick`, `scheduler_yield`
--   Proc.Table       src/sys/process.c: the searches of the process table
--   Proc.Tree        src/sys/process.c: the lists of children and the adoption of orphans
--   Proc.Exit        src/sys/process.c: exit, kill and signals
--   Proc.Wait        src/sys/process.c: `process_wait_any` and `process_wait_pid`
--   Proc.Cred        src/sys/process.c: user and group ids
--   Proc.Session     src/sys/process.c: process groups and sessions
--   Proc.Memory      src/sys/process.c: the regions of user memory
--   Proc.Start       src/sys/process.c: the first process, fork and spawn
--   Sys.User         src/sys/syscall.c: user addresses, and the copies to and from user memory
--   Sys.Vma          src/sys/syscall.c: the array of mappings of a process, `user_vma_*`
--   Sys.Mmap         src/sys/syscall.c: brk, mmap, munmap and mprotect
--   Sys.Pipe         src/sys/syscall.c: pipes, and the read and write of their ends
--   Sys.Objects      src/sys/syscall.c: event, timer and signal objects and epoll sets
--   Sys.Fds          src/sys/syscall.c: descriptors and file references; close, dup, dup2, pipe,
--                    and what a fork and the end of a process do to descriptors
--   Sys.Events       src/sys/syscall.c: event and timer descriptors, their creation, reads and
--                    writes
--   Elf              src/elf/elf_loader.c: the load of a program and its interpreter
--   Block            src/block/block.c: the table of devices, and transfers in batches
--   Str              src/string.c: memory, strings and numbers
--   Vfs              src/vfs/vfs.c: paths, the choice of the mount, and the permission check
--   BootTime         src/sys/boottime.c: the calendar and the time since boot
--   Dll              the intrusive doubly linked lists that the scheduler and the process tree
--                    share; Prelude has the names, tests and lists that all files share
--
-- The process functions work on the state of the scheduler: the end of a process calls
-- `scheduler_task_set_zombie`, the notice to its parent `scheduler_task_make_runnable`, a wait
-- `scheduler_task_set_blocked`. Proc.Exit.Place says which parts of a task these calls leave
-- alone, so that the lists of children survive them. The memory calls change the mappings in the
-- `Space` of a task and user memory. A descriptor names a pipe or an object by its index, and the
-- calls of Sys.Fds count its ends through the functions of Sys.Pipe and Sys.Objects. The loader
-- writes the user memory of Sys.User.
--
-- Conventions: a `task_t *` is a number, 0 is NULL, `1 + i` is the slot `i` of the table and
-- `65 + i` the idle task of the CPU `i`. A section under a lock is one step. A function that
-- changes the kernel takes the state and gives the new one. `none` as the result of a loop means
-- that its fuel ran out: the walks along a list of children have one turn more than there are
-- slots, the choice of the next task one more than a queue can hold, and a transfer of the block
-- layer one more than the sectors and the largest batch together, and the results below that
-- claim an answer claim that the fuel was enough. The search for room among the 256 mappings has
-- the 260 turns of the source, the copy of a segment one turn for each byte. The loader reads the
-- table of dynamic entries up to an end mark that a bad program may not have: there the fuel is an
-- argument, and a loader that still reads has the result `unfinished`. Strings are lists of the
-- characters before the NUL; a region of user memory is a function from offsets to bytes, and user
-- memory is one from addresses. Machine integers keep their wrap-around where a value can leave
-- its range.
--
-- Parameters: the driver of a block device, as a function of the calls made before; the answers
-- of the timer, the time stamp counter and the clock; the result of the loader for a spawn, which
-- works on pages the model of a spawn does not have; the entries of the page tables; the file that
-- a path names and the bytes a read of it gives; what the other processes do to a pipe or an event
-- object while a caller sleeps; the time at each look at a timer descriptor. The calls of sockets
-- and pseudo terminals that the descriptors make are recorded.
--
-- Not modelled: the page tables of `task_build_address_space` (of which the model keeps the value
-- of CR3), the register switch and the other assembly, debug output, the drivers, the consoles,
-- the rest of the virtual file system and the file systems under it, the other system calls
-- (sockets, terminals, polling, the setting of timers, files and directories, signals, futexes)
-- and their dispatch, the loader's `edge_load_elf_from_buf`, which nothing calls, and
-- `elf_loader_probe`, which reads a file by `vfs_read_file`, the network glue and the user
-- programs. Pids and file references are counted without the bound of an `int`.
pub mod Block
pub mod BootTime
pub mod Dll
pub mod Elf
pub mod Prelude
pub mod Proc
pub mod Sched
pub mod Str
pub mod Sys
pub mod Task
pub mod Vfs
