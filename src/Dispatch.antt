-- ===== src/Dispatch.antt =====
-- idker/src/syscalls/mod.rs: `on_symcall_1`, which finds the system call of the saved registers
-- (idker/src/syscalls/asm.rs), runs it and writes its answer back. What the calls take from outside
-- comes in as an `Environment`. After a switch the state is the one in which the next task goes on,
-- and the registers are those that the caller finds when it goes on itself.
pub mod Laws
pub mod Kept
use idkernel.Base.{
  ℕ, length, Bool, true, false, Option, none, some, Outcome, ok, err, panic, hang, Prog, ◌>>=◌,
  ◌>>◌, pure, fail,
}
use idkernel.Abi.{SyscallCode, SyscallError, code_from, error_number, unknown_syscall}
use idkernel.Capability.Syscalls
use idkernel.Context.Lock.{SpinRwLock}
use idkernel.Context.Kernel.{Kernel}
use idkernel.Context.Process
use idkernel.Context.Task.{Mappings}
use idkernel.File.Syscalls.{Outside}
use idkernel.File.Syscalls as Files
use idkernel.Loader.Elf.{ElfFormat}
use idkernel.Loader.Exec.{exec}
use idkernel.Machine.{Machine, in_kernel, in_mapping}
use idkernel.Memory.{Paging, map_virt, map_phys}

pub record AllSavedRegisters : Type 0 where
  pub rflags : ℕ
  pub rax : ℕ
  pub rbx : ℕ
  pub rcx : ℕ
  pub rdx : ℕ
  pub rbp : ℕ
  pub rsi : ℕ
  pub rdi : ℕ
  pub r8 : ℕ
  pub r9 : ℕ
  pub r10 : ℕ
  pub r11 : ℕ
  pub r12 : ℕ
  pub r13 : ℕ
  pub r14 : ℕ
  pub r15 : ℕ

-- `reserved` and `reserves` are the answers of the allocator, `mappings` where it puts the stacks of
-- a new task, `entry` the address of `jmp_userspace`.
pub record Environment : Type 0 where
  pub outside : Outside
  pub format : ElfFormat
  pub try_new : ℕ → Option ℕ
  pub reserved : Bool
  pub reserves : ℕ → Bool
  pub mappings : Mappings
  pub entry : ℕ
  pub rounds : ℕ

module _ (env : Environment) (paging : Paging) (sp : SpinRwLock) where
  open env use {outside, format, try_new, reserved, reserves, mappings, entry, rounds}

  -- A call whose result goes to registers by `.map(…)`, and one without a result.
  abbrev pub returning :
      {A : Type 0}
      → Prog (Machine paging) SyscallError A
      → (A → AllSavedRegisters)
      → Prog (Machine paging) SyscallError AllSavedRegisters
  returning prog write = do a ← prog; pure (write a)

  abbrev pub plain :
      {A : Type 0}
      → Prog Kernel SyscallError A
      → (A → AllSavedRegisters)
      → Prog (Machine paging) SyscallError AllSavedRegisters
  plain prog write = returning (in_kernel paging prog) write

  -- The arms of the match, with the registers that the arm leaves.
  unfoldable pub handle :
      SyscallCode → AllSavedRegisters → Prog (Machine paging) SyscallError AllSavedRegisters
  handle SyscallCode.exit r = plain (Process.exit sp) (λ _. r)
  handle SyscallCode.yield r = plain (Process.yield sp) (λ _. r)
  handle SyscallCode.fs_open r =
      plain (Files.open_file outside sp r.rdi r.rsi r.rdx) (λ fd. record r { rdi = fd })
  handle SyscallCode.fs_handle_seek r = plain (Files.seek sp r.rdi r.rsi) (λ _. r)
  handle SyscallCode.fs_handle_read r =
      plain (Files.read sp r.rdi r.rsi r.rdx) (λ bytes. record r { rdi = length bytes })
  handle SyscallCode.fs_handle_close r = plain (Files.close sp r.rdi) (λ _. r)
  handle SyscallCode.capability_clone r =
      plain (Syscalls.clone sp reserved r.rdi) (λ x. record r { rdi = x })
  handle SyscallCode.capability_inspect r =
      plain (Syscalls.inspect sp r.rdi r.rsi) (λ x. record r { rdi = x.0; rsi = x.1 })
  handle SyscallCode.capability_restrict r =
      plain (Syscalls.restrict sp try_new r.rdi r.rsi r.rdx) (λ _. r)
  handle SyscallCode.capability_drop r = plain (Syscalls.cdrop sp r.rdi) (λ _. r)
  handle SyscallCode.process_my_pid r = plain Process.mypid (λ x. record r { rdi = x })
  handle SyscallCode.process_spawn r =
      plain (Process.spawn sp mappings entry) (λ x. record r { rdi = x })
  handle SyscallCode.process_cap_share r =
      plain (Syscalls.process_share_transfer sp reserved r.rdi r.rsi false) (λ _. r)
  handle SyscallCode.process_cap_transfer r =
      plain (Syscalls.process_share_transfer sp reserved r.rdi r.rsi true) (λ _. r)
  handle SyscallCode.process_exec r =
      returning (exec format paging sp rounds reserves r.rdi r.rsi) (λ _. r)
  handle SyscallCode.memory_map_virt r =
      returning (in_mapping paging (map_virt paging sp r.rdi r.rsi r.rdx)) (λ _. r)
  handle SyscallCode.memory_map_phys r =
      returning (in_mapping paging (map_phys paging sp r.rdi r.rsi r.rdx r.r10)) (λ _. r)
  handle SyscallCode.memory_unmap r = pure r
  handle _ r = fail unknown_syscall

  -- `.map(|_| 0).unwrap_or_else(|x| x as usize)`, into `rax`.
  abbrev pub answer :
      AllSavedRegisters
      → Outcome (Machine paging) SyscallError AllSavedRegisters
      → Outcome (Machine paging) ⊥ AllSavedRegisters
  answer regs (ok r m) = ok (record r { rax = 0 }) m
  answer regs (err e m) = ok (record regs { rax = error_number e }) m
  answer regs panic = panic
  answer regs hang = hang

  unfoldable pub on_symcall_1 : AllSavedRegisters → Prog (Machine paging) ⊥ AllSavedRegisters
  on_symcall_1 regs m = elim (code_from regs.rax) [
    | none ↦ ok (record regs { rax = error_number unknown_syscall }) m
    | some sysnum ↦ answer regs (handle sysnum regs m)
  ]
