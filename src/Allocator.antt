-- ===== src/Allocator.antt =====
-- idker/src/allocator/: the kernel heap (blocks of fixed sizes over a fallback heap), the linked
-- list allocator, and the rounding of addresses.
pub mod Align
pub mod FixedSizeBlock
pub mod LinkedList
pub mod HeapFrame
