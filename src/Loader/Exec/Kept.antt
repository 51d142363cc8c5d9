-- ===== src/Loader/Exec/Kept.antt =====
-- The invariant of the whole state under `exec` of idker/src/context/syscall.rs.
use idkernel.Base.{
  ℕ, Bool, ◌==◌, Str, refl, Keeps, bind-Keeps, get-Keeps, unwrap-Keeps, ok_or-Keeps, guard-Keeps,
  fail_if-Keeps, map_err-Keeps, modify-Keeps, ltb, leb, ◌&&◌, ◌+◌, ◌*◌, ◌^◌, length, take, str_eq,
  pure-Keeps,
}
use idkernel.Abi.{wrong_parameters, wrong_process}
use idkernel.Capability.Syscalls.{is_child_of}
use idkernel.Context.Lock.{SpinRwLock}
use idkernel.Context.Task.{TaskContext}
use idkernel.Context.Kernel.{cell_of}
use idkernel.Context.Kernel.Kept.{
  current_task_id-Keeps, current_task-Keeps, on_context-Keeps, queue-Keeps,
}
use idkernel.Context.Kernel.Sound.{Sound}
use idkernel.Context.Kernel.Tables.{on_files-Keeps}
use idkernel.Context.Registry.Kept.{same-Fine}
use idkernel.File.Load.{read_file_to_memory}
use idkernel.File.Storage.Kept.{on_handle-Keeps}
use idkernel.Loader.Elf.{
  ElfFormat, Header, invalid_size, invalid_magic, invalid_program_headers, header, new, mount_into,
}
use idkernel.Loader.Exec.{
  file_limit, not_executable, read_program, load_elf, exec_locked, exec_child, exec,
}
use idkernel.Machine.Kept.{SoundMachine, in_kernel-Keeps, in_space-Keeps, hold_write-Keeps}
use idkernel.Memory.{Paging}

read_program-Keeps :
    {held : ℕ → Type 0} (rounds : ℕ) (reserves : ℕ → Bool) (me fd : ℕ)
    → Keeps (Sound held) (read_program rounds reserves me fd)
unfolding read_program
read_program-Keeps rounds reserves me fd =
    on_context-Keeps me
      (on_files-Keeps me (on_handle-Keeps fd (read_file_to_memory rounds reserves file_limit)))

pub new-Keeps :
    {S : Type 0} {I : S → Type 0} (format : ElfFormat) (bytes : Str) → Keeps I (new format bytes)
unfolding new
new-Keeps format bytes =
    let h : Header = header format bytes in
    let behind : ℕ = h.e_phoff + h.e_phnum * format.sizeof_phdr in
    bind-Keeps (fail_if-Keeps (leb (length bytes) format.sizeof_ehdr) invalid_size) λ _.
      bind-Keeps
        (guard-Keeps (str_eq (take (length format.elfmag) h.e_ident) format.elfmag) invalid_magic)
        λ _.
          bind-Keeps
            (guard-Keeps (ltb behind (2 ^ 64) && ltb behind (length bytes)) invalid_program_headers)
            λ _. pure-Keeps bytes

module _ (format : ElfFormat) (paging : Paging) where
  pub load_elf-Keeps :
      {held : ℕ → Type 0} {E : Type 0} (id : ℕ) (elf : Str)
      → Keeps {E = E} (SoundMachine paging held) (load_elf format paging id elf)
  unfolding load_elf
  load_elf-Keeps id elf =
      bind-Keeps (in_kernel-Keeps paging (on_context-Keeps id get-Keeps)) λ task.
        bind-Keeps (in_space-Keeps paging (mount_into format paging task.page_table elf)) λ _.
          bind-Keeps (unwrap-Keeps (paging.virt_addr (header format elf).e_entry)) λ entry.
            in_kernel-Keeps paging (
              on_context-Keeps id (
                modify-Keeps (λ c. record c { user_entry_point = entry })
                  λ c f. same-Fine c _ refl refl refl f))

  exec_locked-Keeps :
      {held : ℕ → Type 0} (rounds : ℕ) (reserves : ℕ → Bool) (me id : ℕ) (proc : TaskContext)
      (fd : ℕ)
      → Keeps (SoundMachine paging held) (exec_locked format paging rounds reserves me id proc fd)
  unfolding exec_locked
  exec_locked-Keeps rounds reserves me id proc fd =
      bind-Keeps (in_kernel-Keeps paging (read_program-Keeps rounds reserves me fd)) λ file.
        bind-Keeps (map_err-Keeps not_executable (new-Keeps format file)) λ elf.
          bind-Keeps (load_elf-Keeps id elf) λ _. in_kernel-Keeps paging (queue-Keeps proc.id)

  exec_child-Keeps :
      {held : ℕ → Type 0} (sp : SpinRwLock) (rounds : ℕ) (reserves : ℕ → Bool) (id fd : ℕ)
      → Keeps (SoundMachine paging held) (exec_child format paging sp rounds reserves id fd)
  unfolding exec_child
  exec_child-Keeps sp rounds reserves id fd =
      bind-Keeps (in_kernel-Keeps paging (on_context-Keeps id get-Keeps)) λ proc.
        bind-Keeps (in_kernel-Keeps paging current_task_id-Keeps) λ parent.
          bind-Keeps (guard-Keeps (is_child_of parent proc) wrong_process) λ _.
            bind-Keeps (guard-Keeps (proc.user_entry_point == 0) wrong_process) λ _.
              bind-Keeps (in_kernel-Keeps paging current_task-Keeps) λ me.
                hold_write-Keeps paging sp me (exec_locked-Keeps rounds reserves me id proc fd)

  pub exec-Keeps :
      {held : ℕ → Type 0} (sp : SpinRwLock) (rounds : ℕ) (reserves : ℕ → Bool) (id fd : ℕ)
      → Keeps (SoundMachine paging held) (exec format paging sp rounds reserves id fd)
  unfolding exec
  exec-Keeps sp rounds reserves id fd = bind-Keeps (fail_if-Keeps (id == 0) wrong_parameters) λ _.
      bind-Keeps get-Keeps λ m.
        bind-Keeps (ok_or-Keeps (cell_of id m.kernel) wrong_process)
          λ _. hold_write-Keeps paging sp id (exec_child-Keeps sp rounds reserves id fd)
