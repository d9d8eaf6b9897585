-- ===== src/Sys.antt =====
-- src/sys/syscall.c: the system calls. The children model the access to user memory, the mappings
-- of a process, the descriptors, the pipes, and the event and timer descriptors.
pub mod Errno
pub mod User
pub mod Vma
pub mod Mmap
pub mod Pipe
pub mod Objects
pub mod Fds
pub mod Events
mod Tests
