-- ===== src/File.antt =====
-- idker/src/file/: paths and their navigation, the file systems, open files, and the file table
-- of a task. A `PathHandle` behind `dyn` is a parameter `H` with its operations.
pub mod Navigator
pub mod System
pub mod Handles
pub mod InitFs
pub mod ProcFs
pub mod Load
pub mod Storage
pub mod Syscalls
