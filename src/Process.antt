-- ===== src/Process.antt =====
-- kernel/process.c: the foreground process.
pub mod Image
pub mod Syscall
