-- ===== src/Proc.antt =====
-- src/sys/process.c: the process table.
pub mod Table
pub mod Tree
pub mod Cred
pub mod Exit
pub mod Session
pub mod Wait
pub mod Memory
pub mod Start
mod Tests
