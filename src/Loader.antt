-- ===== src/Loader.antt =====
-- Starting a program in an empty task: the ELF files of idker/src/context/elf.rs, and `exec` of
-- idker/src/context/syscall.rs.
pub mod Elf
pub mod Exec
pub mod Init
