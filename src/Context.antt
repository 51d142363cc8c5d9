-- ===== src/Context.antt =====
-- idker/src/context/: tasks, their registry, and switching between them, on one processor. Each
-- task stands behind the lock of its `Arc<RwLock<TaskContext>>`.
pub mod Lock
pub mod Regs
pub mod Task
pub mod Registry
pub mod Kernel
pub mod PageTable
pub mod Process
