-- ===== src/BootTime.antt =====
-- src/sys/boottime.c: the clock.
pub mod Calendar
pub mod Clock
mod Tests
