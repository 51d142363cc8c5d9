-- ===== src/Paging.antt =====
-- idker/src/arch/x86_64/paging/: the frames handed out before the heap stands, and the memory of
-- thread-local data.
pub mod Frames
pub mod Tables
