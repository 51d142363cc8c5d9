-- ===== src/Tests/User.antt =====
-- Calls of the library of syscall/ on the kernel of the tests.
use idkernel.Base.{
  ◌≡◌, true, false, [], ◌∷◌, length, leb, All, ok_or, assert, Prog, ◌>>=◌, ◌>>◌, pure,
}
use idkernel.Abi.{SyscallCode, unknown_error}
use idkernel.Capability.Syscalls.{process_share_transfer}
use idkernel.Context.Lock.{plain_lock}
use idkernel.Context.Process
use idkernel.Dispatch.{AllSavedRegisters, handle}
use idkernel.File.Syscalls as Files
use idkernel.Loader.Exec
use idkernel.Machine.{Machine, in_kernel}
use idkernel.User.Raw.{
  raw, at_syscall, overwritten, syscall_gate, is_expanded, raw_calls, raw_capability_clone,
}
use idkernel.User.Raw.Laws.{told, raw_lem}
use idkernel.User.Raw.Declared.{Respects, raw_calls-Undeclared}
use idkernel.User.Calls.{
  non_zero, file_new, file_seek, file_read, my_pid, spawn, capability_share, capability_transfer,
  exec,
}
use idkernel.User.Calls.Laws.{calls_lem}
use idkernel.Tests.Data.{plain_paging}
use idkernel.Tests.Loader.{environment, machine, regs_with}

abbrev gate : AllSavedRegisters → Prog (Machine plain_paging) ⊥ AllSavedRegisters
gate = syscall_gate environment plain_paging plain_lock 0x400

raw_lem_example :
    raw gate raw_capability_clone (0 ∷ []) (regs_with 7) machine
    ≡ told 1 (
        handle environment plain_paging plain_lock SyscallCode.capability_clone
          (overwritten 0x400 (at_syscall raw_capability_clone (0 ∷ []) (regs_with 7)))
          machine)
raw_lem_example =
    raw_lem environment plain_paging plain_lock machine 0x400 raw_capability_clone (0 ∷ [])
      (regs_with 7)

raw_calls-Undeclared_example :
    All
      (λ d.
        (is_expanded d ≡ true)
        × Respects environment plain_paging plain_lock machine 0x400 d
            (at_syscall d (3 ∷ 1 ∷ []) (regs_with 7)))
      raw_calls
raw_calls-Undeclared_example =
    raw_calls-Undeclared environment plain_paging plain_lock machine 0x400 (3 ∷ 1 ∷ [])
      (regs_with 7)

-- The first capability for the child, a file that is not open, and a program by a path.
calls_lem_example :
    (my_pid gate (regs_with 7) machine ≡ in_kernel plain_paging Process.mypid machine)
    × (file_seek gate (regs_with 7) 3 0 machine
        ≡ in_kernel plain_paging (Files.seek plain_lock 3 0) machine)
    × (capability_share gate (regs_with 7) 3 0 machine
        ≡ in_kernel plain_paging (process_share_transfer plain_lock true 3 0 false) machine)
    × (capability_transfer gate (regs_with 7) 3 0 machine
        ≡ in_kernel plain_paging (process_share_transfer plain_lock true 3 0 true) machine)
    × (spawn gate (regs_with 7) machine
        ≡ (in_kernel plain_paging (Process.spawn plain_lock environment.mappings 0x1000) >>= λ pid.
              ok_or (non_zero pid) unknown_error)
            machine)
    × (file_new gate (regs_with 7) 3 0 1 machine
        ≡ (in_kernel plain_paging (Files.open_file environment.outside plain_lock 3 0 1) >>= λ fd.
              ok_or (non_zero fd) unknown_error)
            machine)
    × (file_read gate (regs_with 7) 3 0 1 machine
        ≡ (in_kernel plain_paging (Files.read plain_lock 3 0 1) >>= λ bytes.
              assert (leb (length bytes) 1) >> pure (length bytes))
            machine)
    × (exec gate (regs_with 7) 3 0 machine
        ≡ Exec.exec environment.format plain_paging plain_lock 3 (λ n. true) 3 0 machine)
calls_lem_example = calls_lem environment plain_paging plain_lock 0x400 (regs_with 7) machine 3 0 1
