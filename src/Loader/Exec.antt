-- ===== src/Loader/Exec.antt =====
-- idker/src/context/syscall.rs: `exec` and `jmp_userspace`, and `load_elf` of
-- idker/src/context/task.rs.
pub mod Laws
pub mod Kept
use idkernel.Base.{
  ℕ, ◌+◌, ◌*◌, Bool, not, Option, none, some, List, ◌==◌, Str, Outcome, ok, err, panic, hang, Prog,
  ◌>>=◌, ◌>>◌, pure, get, modify, unwrap, ok_or, guard, fail_if, map_err, if◌then◌else◌,
}
use idkernel.Abi.{SyscallError, wrong_parameters, wrong_process, fs_not_executable}
use idkernel.Capability.Syscalls.{is_child_of}
use idkernel.Context.Lock.{SpinRwLock}
use idkernel.Context.Task.{TaskContext}
use idkernel.Context.Registry.{queue_for_execution}
use idkernel.Context.Kernel.{
  Kernel, cell_of, on_registry, current_task_id, current_task, read_context, on_context,
}
use idkernel.File.Load.{read_file_to_memory}
use idkernel.File.Storage.{on_handle}
use idkernel.File.Syscalls.{on_files}
use idkernel.Machine.{Machine, in_kernel, in_space, hold_write}
use idkernel.Memory.{Paging}
use idkernel.Loader.Elf.{ElfFormat, ElfError, Header, header, new, mount_into}

-- 1 GiB.
abbrev pub file_limit : ℕ
file_limit = 1024 * 1024 * 1024

-- `SyscallError::FsNotExecutable` for each error of `Elf::new`.
abbrev pub not_executable : ElfError → SyscallError
not_executable e = fs_not_executable

-- The file behind a descriptor of a task, read as far as the limit.
unfoldable pub read_program : ℕ → (ℕ → Bool) → ℕ → ℕ → Prog Kernel SyscallError Str
read_program rounds reserves me fd =
    on_context me (on_files (on_handle fd (read_file_to_memory rounds reserves file_limit)))

module _ (format : ElfFormat) (paging : Paging) where
  -- `load_elf` on the task `id`.
  unfoldable pub load_elf : {E : Type 0} → ℕ → Str → Prog (Machine paging) E (Unit {0})
  load_elf id elf = do
    task ← in_kernel paging (on_context id get)
    in_space paging (mount_into format paging task.page_table elf)
    entry ← unwrap (paging.virt_addr (header format elf).e_entry)
    in_kernel paging (on_context id (modify (λ c. record c { user_entry_point = entry })))

  -- The part of `exec` under the locks of both tasks.
  unfoldable pub exec_locked :
      ℕ → (ℕ → Bool) → ℕ → ℕ → TaskContext → ℕ → Prog (Machine paging) SyscallError (Unit {0})
  exec_locked rounds reserves me proc_id proc fd = do
    file ← in_kernel paging (read_program rounds reserves me fd)
    elf ← map_err not_executable (new format file)
    load_elf proc_id elf
    in_kernel paging (on_registry (queue_for_execution proc.id))

  module _ (sp : SpinRwLock) where
    unfoldable pub exec_child :
        ℕ → (ℕ → Bool) → ℕ → ℕ → Prog (Machine paging) SyscallError (Unit {0})
    exec_child rounds reserves proc_id fd = do
      proc ← in_kernel paging (on_context proc_id get)
      parent ← in_kernel paging current_task_id
      guard (is_child_of parent proc) wrong_process
      guard (proc.user_entry_point == 0) wrong_process
      me ← in_kernel paging current_task
      hold_write paging sp me (exec_locked rounds reserves me proc_id proc fd)

    unfoldable pub exec : ℕ → (ℕ → Bool) → ℕ → ℕ → Prog (Machine paging) SyscallError (Unit {0})
    exec rounds reserves proc_id fd = do
      fail_if (proc_id == 0) wrong_parameters
      m ← get
      _ ← ok_or (cell_of proc_id m.kernel) wrong_process
      hold_write paging sp proc_id (exec_child rounds reserves proc_id fd)

-- `jmp_userspace`: the entry point that `enter_userspace` is called with, if the task has one.
unfoldable pub jmp_userspace : {E : Type 0} → SpinRwLock → Prog Kernel E (Option ℕ)
jmp_userspace sp = do
  me ← current_task
  ctx ← read_context sp me
  pure (if ctx.user_entry_point == 0 then none else some ctx.user_entry_point)
