-- ===== src/Lib.antt =====
-- A model of the kernel idker: its tasks and their scheduling, the capabilities and open files of a
-- task, the system calls on these with their dispatch, the loading of programs, page tables, the
-- console, and the heap behind them.
--
-- How the parts interact. The dispatch finds the system call of the saved registers and writes its
-- answer back. A system call runs on the current task of the registry, takes that task's
-- lock, and works on its capability table or its file table; it returns a result or one of the
-- errors of the shared numbering, both of which leave a state. A program makes its calls through the
-- stubs of the system call library, which put the arguments into registers and read the answer. Processes are created into the
-- registry under their parent, and a switch saves the registers of one task and loads those of the
-- next, after which a hook releases the locks of both.
--
-- Which file models what:
-- - Abi: syscall/src/common.rs, the numbers of system calls and errors and their decoding.
-- - Capability.Data, Capability.Storage, Capability.Syscalls: idker/src/capability/mod.rs and
--   syscall.rs. `TaskCapabilityStorage` is `Storage`, its `get`, `get_mut` and `delete` are `lookup`,
--   `write_back` and `delete`; the calls keep their names (`clone`, `inspect`, `restrict`, `cdrop`,
--   `process_share_transfer`), and the part of a call under a lock is its `…_in`.
-- - File.Navigator, File.System: idker/src/file/system.rs, path steps and resolution.
-- - File.InitFs, File.ProcFs: idker/src/file/initfs.rs and procfs.rs, the two kinds of
--   `PathHandle`; what is mounted in the process file system is a handle of the built-in one.
-- - File.Handles, File.Load, File.Storage, File.Syscalls: the two kinds of `FileHandle` of
--   idker/src/file/initfs.rs and system.rs, `read_file_to_memory` of idker/src/file/mod.rs, and
--   `TaskFileStorage` with its system calls of idker/src/file/syscall.rs.
-- - Context.Regs, Context.Task, Context.Registry: idker/src/context/switch.rs, task.rs and
--   registry.rs. `switch_task` follows the assembly register by register; what the
--   comparison of page tables leaves in the flags is a parameter, `flags_after`, kept in the state.
-- - Context.Kernel with Switching: idker/src/context/mod.rs, the static state and task switching.
-- - Context.Process.Fairness: rows of yields, each by the task that runs then.
-- - Context.Process: `mypid` and `spawn` of idker/src/context/syscall.rs, and exit and yield as
--   `on_symcall_1` of idker/src/syscalls/mod.rs has them.
-- - Dispatch: `on_symcall_1` of idker/src/syscalls/mod.rs on the registers of
--   idker/src/syscalls/asm.rs; `handle` is its match over the system calls.
-- - Loader.Elf: idker/src/context/elf.rs, where the body of the loop over the pages of
--   `mount_into` is `mount_pages`, and what a page holds then is `page_image`. Loader.Exec: `exec` and
--   `jmp_userspace` of idker/src/context/syscall.rs and `load_elf` of idker/src/context/task.rs.
-- - User.Raw: the functions that `create_syscall` of syscall/syscall_macros/src/lib.rs defines, and
--   the calls of syscall/src/raw.rs; `overwritten` is what the instruction `syscall` does to `rcx`
--   and `r11` before the kernel sees the registers. User.Calls: syscall/src/syscall.rs and initproc/src/main.rs.
-- - Boot: `run_executor` of idker/src/main.rs, its first tasks (`make_first_tasks`) and its loop
--   (`executor_round`). System: what the kernel gets to from its start, as a relation.
-- - Loader.Init: `start_initproc` of idker/src/syscalls/userspace.rs.
-- - Context.PageTable: idker/src/context/page_table.rs, a table as its entries; `drop_table` lists the
--   frames that dropping it gives back.
-- - Machine: the state of all system calls together, the kernel with page tables and frames.
-- - Console: idker/src/vga_framebuffer.rs, one function per method; Console.Fits, Painting and Cursor
--   hold the lemmas on the loops, on the buffer and on the cursor.
-- - Userspace: `check_addr_userspace` of idker/src/syscalls/userspace.rs.
-- - Allocator: `align_up` of idker/src/allocator/mod.rs, and the allocator of
--   idker/src/allocator/fixed_size_block.rs (FixedSizeBlock), linked_list.rs (LinkedList) and
--   heap_frame.rs (HeapFrame).
-- - MemorySize: the display of sizes of idker/src/memory.rs.
-- - Memory: `map_virt` and `map_phys` of idker/src/syscalls/memory.rs.
-- - Paging.Frames: `BootInfoFrameAllocator` of idker/src/arch/x86_64/paging/frame_allocator.rs.
--   Paging.Tables: the two walks over the page tables of idker/src/arch/x86_64/paging/mod.rs, on the
--   memory that holds the tables.
-- - Ranges: `explore_page_ranges` of idker/src/arch/x86_64/paging/debug.rs; each level of its walk is a
--   function, and `join` is the closure that it merges ranges with.
-- - The modules named Kept hold what each operation keeps of the state; Context.Kernel.Sound is the
--   invariant of the kernel, System.Soundness puts them together.
-- - Base holds what these share: lists, tables with handles, results, bit masks. Tests holds the
--   concrete runs.
--
-- Conventions. A stateful function is a step on its state that ends with a result (`ok`), an error
-- (`err`), a panic (`panic`) or not at all (`hang`). A number of the machine is a natural number; a
-- sum that overflows panics, as in a build with overflow checks, except where the source wraps. One
-- processor runs the kernel, so a lock that is held and wanted again is never released: `hang`. A
-- lock guard that the source drops at the end of a scope is released on each way out of it; one that
-- is leaked stays.
--
-- Parameters. The layout of headers of the crate goblin (Loader.Elf), the font of the crate font8x8
-- (Console) and what a system call takes from outside (`Environment` of Dispatch) are arguments. The
-- locks of the crate spin (Context.Lock) and `coalesce` of the crate itertools (Ranges) are interfaces
-- with their documented laws; the heap of the crate linked_list_allocator, and the addresses and page
-- tables of the crate x86_64 (Memory) are interfaces without laws. Whether memory is granted, which
-- numbers are physical addresses, the bytes of user memory, the test for UTF-8, the interleaving of names
-- with separators, and the processor's status flags in a switch are arguments of what uses them.
--
-- Bounds. Path resolution and the loops over a path run on a number of rounds, which the callers take
-- as one more than the path has bytes: each round that goes on leaves a shorter path. The loop that
-- reads a file takes its number of rounds as an argument; a model run out of rounds is `hang`.
--
-- Not modelled: the mapping of stacks (`mount_user_stack`, with its panics; the context of a task has the
-- frame of its table), the lock of
-- the registry itself and of the console (each held inside single operations only), the log line that
-- the dispatch prints, executors of futures, interrupts, and the code that sets up hardware and assembly stubs.

pub mod Base
pub mod Abi
pub mod Capability
pub mod File
pub mod Context
pub mod Userspace
pub mod Memory
pub mod Ranges
pub mod Console
pub mod MemorySize
pub mod Machine
pub mod Dispatch
pub mod Loader
pub mod Paging
pub mod User
pub mod Boot
pub mod System
pub mod Allocator
pub mod Tests
