-- ===== src/Tests.antt =====
-- Concrete tasks, files and heaps on which the theorems are applied.
mod Data
mod Processes
mod Capabilities
mod Files
mod Memory
mod Loader
mod Console
mod Ranges
mod System
mod User
mod Paging
