-- ===== src/Vfs.antt =====
-- src/vfs/vfs.c: paths, mounts and permissions of the virtual file system.
pub mod Paths
pub mod Mounts
pub mod Permission
mod Tests
