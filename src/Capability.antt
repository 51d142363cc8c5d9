-- ===== src/Capability.antt =====
-- idker/src/capability/mod.rs: what a task may do. `CapabilityPerms` is the set of its three flags
-- and a physical address is its number.
pub mod Storage
pub mod Syscalls
mod Data
unfoldable pub use Data.*
