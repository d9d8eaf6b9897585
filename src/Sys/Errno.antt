-- ===== src/Sys/Errno.antt =====
-- src/sys/syscall.c: the error numbers. A system call gives the negative error number as a
-- `uint64_t`; here its result is an integer.
use edge_os.Prelude.{ℕ, ◌-◌}
use edge_os.Prelude.Int.{ℤ, negsuc}

-- `(uint64_t)-e`, for an error number that is not 0
abbrev pub fails : ℕ → ℤ
fails e = negsuc (e - 1)

abbrev pub eintr : ℕ
eintr = 4

abbrev pub eio : ℕ
eio = 5

abbrev pub ebadf : ℕ
ebadf = 9

abbrev pub eagain : ℕ
eagain = 11

abbrev pub enomem : ℕ
enomem = 12

abbrev pub efault : ℕ
efault = 14

abbrev pub einval : ℕ
einval = 22

abbrev pub epipe : ℕ
epipe = 32

abbrev pub enosys : ℕ
enosys = 38
