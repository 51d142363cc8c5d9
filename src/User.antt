-- ===== src/User.antt =====
-- The crates of syscall/, which programs in user space call the kernel with, and initproc/.
pub mod Raw
pub mod Calls
