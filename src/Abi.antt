-- ===== src/Abi.antt =====
-- syscall/src/common.rs: the numbers of system calls and of errors, shared by kernel and user code.
mod Numbers
pub mod RoundTrip
unfoldable pub use Numbers.*
