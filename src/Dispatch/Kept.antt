-- ===== src/Dispatch/Kept.antt =====
-- The invariant of the whole state under `on_symcall_1` of idker/src/syscalls/mod.rs.
use idkernel.Base.{
  ℕ, length, true, false, Option, none, some, Outcome, ok, err, panic, hang, Prog, Ends, Keeps,
  Ends-Keeps, bind-Keeps, pure-Keeps, fail-Keeps,
}
use idkernel.Abi.{SyscallCode, SyscallError, code_from, error_number, unknown_syscall}
use idkernel.Capability.Syscalls.Calls.{
  clone-Keeps, inspect-Keeps, restrict-Keeps, cdrop-Keeps, process_share_transfer-Keeps,
}
use idkernel.Context.Lock.{SpinRwLock}
use idkernel.Context.Kernel.{Kernel}
use idkernel.Context.Kernel.Sound.{Sound}
use idkernel.Context.Process.Kept.{mypid-Keeps, spawn-Keeps, exit-Keeps, yield-Keeps}
use idkernel.File.Syscalls.Calls.{open_file-Keeps, seek-Keeps, read-Keeps, close-Keeps}
use idkernel.Loader.Exec.Kept.{exec-Keeps}
use idkernel.Machine.{Machine}
use idkernel.Machine.Kept.{SoundMachine, in_kernel-Keeps, in_mapping-Keeps}
use idkernel.Memory.{Paging}
use idkernel.Memory.Kept.{map_virt-Keeps, map_phys-Keeps}
use idkernel.Dispatch.{
  AllSavedRegisters, Environment, returning, plain, handle, answer, on_symcall_1,
}

module _ (env : Environment) (paging : Paging) (sp : SpinRwLock) (held : ℕ → Type 0) where
  returning-Keeps :
      {A : Type 0} {prog : Prog (Machine paging) SyscallError A} (write : A → AllSavedRegisters)
      → Keeps (SoundMachine paging held) prog
      → Keeps (SoundMachine paging held) (returning env paging sp prog write)
  returning-Keeps write h = bind-Keeps h λ a. pure-Keeps (write a)

  plain-Keeps :
      {A : Type 0} {prog : Prog Kernel SyscallError A} (write : A → AllSavedRegisters)
      → Keeps (Sound held) prog
      → Keeps (SoundMachine paging held) (plain env paging sp prog write)
  plain-Keeps write h = returning-Keeps write (in_kernel-Keeps paging h)

  handle-Keeps :
      (code : SyscallCode) (r : AllSavedRegisters)
      → Keeps (SoundMachine paging held) (handle env paging sp code r)
  unfolding handle
  handle-Keeps SyscallCode.exit r = plain-Keeps (λ _. r) (exit-Keeps sp)
  handle-Keeps SyscallCode.yield r = plain-Keeps (λ _. r) (yield-Keeps sp)
  handle-Keeps SyscallCode.fs_open r =
      plain-Keeps (λ fd. record r { rdi = fd }) (open_file-Keeps sp env.outside r.rdi r.rsi r.rdx)
  handle-Keeps SyscallCode.fs_handle_seek r = plain-Keeps (λ _. r) (seek-Keeps sp r.rdi r.rsi)
  handle-Keeps SyscallCode.fs_handle_read r =
      plain-Keeps (λ bytes. record r { rdi = length bytes }) (read-Keeps sp r.rdi r.rsi r.rdx)
  handle-Keeps SyscallCode.fs_handle_close r = plain-Keeps (λ _. r) (close-Keeps sp r.rdi)
  handle-Keeps SyscallCode.capability_clone r =
      plain-Keeps (λ x. record r { rdi = x }) (clone-Keeps sp env.reserved r.rdi)
  handle-Keeps SyscallCode.capability_inspect r =
      plain-Keeps (λ x. record r { rdi = x.0; rsi = x.1 }) (inspect-Keeps sp r.rdi r.rsi)
  handle-Keeps SyscallCode.capability_restrict r =
      plain-Keeps (λ _. r) (restrict-Keeps sp env.try_new r.rdi r.rsi r.rdx)
  handle-Keeps SyscallCode.capability_drop r = plain-Keeps (λ _. r) (cdrop-Keeps sp r.rdi)
  handle-Keeps SyscallCode.process_my_pid r = plain-Keeps (λ x. record r { rdi = x }) mypid-Keeps
  handle-Keeps SyscallCode.process_spawn r =
      plain-Keeps (λ x. record r { rdi = x }) (spawn-Keeps sp env.mappings env.entry)
  handle-Keeps SyscallCode.process_cap_share r =
      plain-Keeps (λ _. r) (process_share_transfer-Keeps sp env.reserved r.rdi r.rsi false)
  handle-Keeps SyscallCode.process_cap_transfer r =
      plain-Keeps (λ _. r) (process_share_transfer-Keeps sp env.reserved r.rdi r.rsi true)
  handle-Keeps SyscallCode.process_exec r =
      returning-Keeps (λ _. r) (exec-Keeps env.format paging sp env.rounds env.reserves r.rdi r.rsi)
  handle-Keeps SyscallCode.memory_map_virt r =
      returning-Keeps (λ _. r)
        (in_mapping-Keeps paging (map_virt-Keeps paging sp r.rdi r.rsi r.rdx))
  handle-Keeps SyscallCode.memory_map_phys r =
      returning-Keeps (λ _. r)
        (in_mapping-Keeps paging (map_phys-Keeps paging sp r.rdi r.rsi r.rdx r.r10))
  handle-Keeps SyscallCode.memory_unmap r = pure-Keeps r
  handle-Keeps SyscallCode.fs_handle_write r = fail-Keeps unknown_syscall
  handle-Keeps SyscallCode.conversation_create_p2p r = fail-Keeps unknown_syscall
  handle-Keeps SyscallCode.conversation_create_public r = fail-Keeps unknown_syscall
  handle-Keeps SyscallCode.conversation_talk r = fail-Keeps unknown_syscall
  handle-Keeps SyscallCode.conversation_cap_share r = fail-Keeps unknown_syscall
  handle-Keeps SyscallCode.conversation_cap_transfer r = fail-Keeps unknown_syscall
  handle-Keeps SyscallCode.memory_edit_perms r = fail-Keeps unknown_syscall

  answer-Ends :
      (regs : AllSavedRegisters) (r : Outcome (Machine paging) SyscallError AllSavedRegisters)
      → Ends (λ _ t. SoundMachine paging held t) (SoundMachine paging held) r
      → Ends
          (λ _ t. SoundMachine paging held t)
          (SoundMachine paging held)
          (answer env paging sp regs r)
  answer-Ends regs (ok r m) s = s
  answer-Ends regs (err e m) s = s
  answer-Ends regs panic s = tt
  answer-Ends regs hang s = tt

  -- Every system call keeps the invariant, whatever it answers.
  pub on_symcall_1-Keeps :
      (regs : AllSavedRegisters)
      → Keeps (SoundMachine paging held) (on_symcall_1 env paging sp regs)
  unfolding on_symcall_1
  on_symcall_1-Keeps regs =
      Ends-Keeps (on_symcall_1 env paging sp regs) λ m s. go m s (code_from regs.rax)
    where
      go :
          (m : Machine paging)
          → SoundMachine paging held m
          → (o : Option SyscallCode)
          → Ends
              (λ _ t. SoundMachine paging held t)
              (SoundMachine paging held)
              (elim o [
                | none ↦ ok (record regs { rax = error_number unknown_syscall }) m
                | some sysnum ↦ answer env paging sp regs (handle env paging sp sysnum regs m)
              ])
      go m s none = s
      go m s (some code) = answer-Ends regs _ ((handle-Keeps code regs).keeps m s).ends
