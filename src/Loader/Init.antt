-- ===== src/Loader/Init.antt =====
-- idker/src/syscalls/userspace.rs: `start_initproc`, on the built-in directory `INIT_DIR`, which is
-- generated; `prepare_tcb` of idker/src/context/task.rs is the stack pointer that it returns.
use idkernel.Base.{
  ℕ, ◌+◌, ◌-◌, ◌*◌, [], ◌∷◌, Str, ok, panic, Prog, ◌>>=◌, ◌>>◌, pure, get, unwrap, must,
}
use idkernel.Context.Lock.{SpinRwLock}
use idkernel.Context.Kernel.{current_task, on_context}
use idkernel.File.InitFs.{InitDir, InitDirEntry, file, folder, find_entry}
use idkernel.Machine.{Machine, in_kernel, hold_write}
use idkernel.Memory.{Paging}
use idkernel.Loader.Elf.{ElfFormat, new}
use idkernel.Loader.Exec.{load_elf}

-- "initproc".
abbrev pub initproc : Str
initproc = 105 ∷ 110 ∷ 105 ∷ 116 ∷ 112 ∷ 114 ∷ 111 ∷ 99 ∷ []

-- `prepare_tcb`: `USERSPACE_STACK_ADDR + USER_STACK_SIZE - 128`.
abbrev pub user_stack_pointer : ℕ
user_stack_pointer = 0x40000000 + 64 * 1024 - 128

abbrev pub file_content : {S E : Type 0} → InitDirEntry → Prog S E Str
file_content (file x) s = ok x s
file_content (folder d) s = panic

-- The entry point and the stack pointer with which user space is entered.
unfoldable pub start_initproc :
    {E : Type 0}
    → ElfFormat
    → (paging : Paging) → SpinRwLock
    → InitDir
    → Prog (Machine paging) E (ℕ × ℕ)
start_initproc format paging sp init_dir = do
  x ← unwrap (find_entry initproc init_dir)
  init_proc ← file_content x
  elf ← must (new format init_proc)
  me ← in_kernel paging current_task
  hold_write paging sp me (do
    load_elf format paging me elf
    ctx ← in_kernel paging (on_context me get)
    pure (ctx.user_entry_point, user_stack_pointer))
