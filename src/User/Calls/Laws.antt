-- ===== src/User/Calls/Laws.antt =====
-- What the functions of syscall/src/syscall.rs do to the kernel.
use idkernel.Base.{
  ℕ, ◌≡◌, refl, ◌∙◌, ap, true, false, leb, length, List, [], ◌∷◌, Outcome, ok, err, panic, hang,
  Prog, ◌>>=◌, ◌>>◌, pure, assert, ok_or, arith,
}
use idkernel.Abi.{SyscallError, unknown_error}
use idkernel.Capability.Syscalls.{process_share_transfer}
use idkernel.Context.Lock.{SpinRwLock}
use idkernel.Context.Process
use idkernel.Dispatch.{AllSavedRegisters, Environment, handle, returning}
use idkernel.File.Syscalls as Files
use idkernel.Loader.Exec
use idkernel.Machine.{Machine, in_kernel}
use idkernel.Memory.{Paging}
use idkernel.User.Raw.{
  SyscallDescriptor, registries, Results, results, at_syscall, overwritten, syscall_gate, raw,
  raw_fs_open, raw_fs_handle_seek, raw_fs_handle_read, raw_process_my_pid, raw_process_spawn,
  raw_process_cap_share, raw_process_cap_transfer, raw_process_exec,
}
use idkernel.User.Raw.Laws.{told, raw_lem}
use idkernel.User.Calls.{
  non_zero, file_new, file_seek, file_read, my_pid, spawn, capability_share, capability_transfer,
  exec,
}

-- What follows a call, after the kernel's part and what is read of its result.
>>=-map :
    {S E A B C : Type 0} (s : S) (q : Prog S E A) (p : Prog S E C) (g : C → A) (f : A → Prog S E B)
    → q s ≡ (p >>= λ c. pure (g c)) s
    → (q >>= f) s ≡ (p >>= λ c. f (g c)) s
>>=-map {S} {E} {A} {B} s q p g f e =
    ap
      (λ (r : Outcome S E A). elim r [
        | ok a s' ↦ f a s'
        | err x s' ↦ err x s'
        | panic ↦ panic
        | hang ↦ hang
      ])
      e
    ∙ ground arith

>>=-pure : {S E A : Type 0} (p : Prog S E A) (s : S) → (p >>= λ a. pure a) s ≡ p s
>>=-pure {S} {E} {A} p s = go (p s)
  where
    go :
        (r : Outcome S E A)
        → elim r [ ok a s' ↦ ok a s' | err e s' ↦ err e s' | panic ↦ panic | hang ↦ hang ] ≡ r
    go (ok a t) = refl
    go (err e t) = refl
    go panic = refl
    go hang = refl

module _ (env : Environment) (paging : Paging) (sp : SpinRwLock) where
  -- What a caller gets of a handler that writes its result to the registers.
  told-returning :
      {A : Type 0} (n : ℕ) (prog : Prog (Machine paging) SyscallError A)
      (write : A → AllSavedRegisters) (m : Machine paging)
      → told n (returning env paging sp prog write m)
        ≡ (prog >>= λ a. pure (results n registries (write a))) m
  told-returning {A} n prog write m = go (prog m)
    where
      go :
          (r : Outcome (Machine paging) SyscallError A)
          → told n (elim r [
            | ok a s' ↦ ok (write a) s'
            | err e s' ↦ err e s'
            | panic ↦ panic
            | hang ↦ hang
          ])
            ≡ elim r [
              | ok a s' ↦ ok (results n registries (write a)) s'
              | err e s' ↦ err e s'
              | panic ↦ panic
              | hang ↦ hang
            ]
      go (ok a t) = refl
      go (err e t) = refl
      go panic = refl
      go hang = refl

  module _ (next : ℕ) (before : AllSavedRegisters) (m : Machine paging) where
    abbrev gate : AllSavedRegisters → Prog (Machine paging) ⊥ AllSavedRegisters
    gate = syscall_gate env paging sp next

    abbrev Raw :
        (d : SyscallDescriptor)
        → List ℕ
        → Outcome (Machine paging) SyscallError (Results d.ret_count)
    Raw d args = raw gate d args before m

    raw-file_seek :
        (file at : ℕ)
        → Raw raw_fs_handle_seek (file ∷ at ∷ []) ≡ (in_kernel paging (Files.seek sp file at)) m
    unfolding handle at_syscall
    raw-file_seek file at =
        raw_lem env paging sp m next raw_fs_handle_seek (file ∷ at ∷ []) before
        ∙ told-returning 0 (in_kernel paging (Files.seek sp file at)) _ m
        ∙ >>=-pure (in_kernel paging (Files.seek sp file at)) m

    raw-capability_share :
        (process cap_id : ℕ)
        → Raw raw_process_cap_share (process ∷ cap_id ∷ [])
          ≡ (in_kernel paging (process_share_transfer sp env.reserved process cap_id false)) m
    unfolding handle at_syscall
    raw-capability_share process cap_id =
        raw_lem env paging sp m next raw_process_cap_share (process ∷ cap_id ∷ []) before
        ∙ told-returning 0
            (in_kernel paging (process_share_transfer sp env.reserved process cap_id false)) _ m
        ∙ >>=-pure (in_kernel paging (process_share_transfer sp env.reserved process cap_id false))
            m

    raw-capability_transfer :
        (process cap_id : ℕ)
        → Raw raw_process_cap_transfer (process ∷ cap_id ∷ [])
          ≡ (in_kernel paging (process_share_transfer sp env.reserved process cap_id true)) m
    unfolding handle at_syscall
    raw-capability_transfer process cap_id =
        raw_lem env paging sp m next raw_process_cap_transfer (process ∷ cap_id ∷ []) before
        ∙ told-returning 0
            (in_kernel paging (process_share_transfer sp env.reserved process cap_id true)) _ m
        ∙ >>=-pure (in_kernel paging (process_share_transfer sp env.reserved process cap_id true)) m

    raw-exec :
        (path path_len : ℕ)
        → Raw raw_process_exec (path ∷ path_len ∷ [])
          ≡ (Exec.exec env.format paging sp env.rounds env.reserves path path_len) m
    unfolding handle at_syscall
    raw-exec path path_len =
        raw_lem env paging sp m next raw_process_exec (path ∷ path_len ∷ []) before
        ∙ told-returning 0 (Exec.exec env.format paging sp env.rounds env.reserves path path_len) _
            m
        ∙ >>=-pure (Exec.exec env.format paging sp env.rounds env.reserves path path_len) m

    raw-my_pid : Raw raw_process_my_pid [] ≡ (in_kernel paging (Process.mypid) >>= λ x. pure x) m
    unfolding handle at_syscall
    raw-my_pid =
        raw_lem env paging sp m next raw_process_my_pid [] before
        ∙ told-returning 1 (in_kernel paging (Process.mypid))
            (λ x. record (overwritten next (at_syscall raw_process_my_pid [] before)) { rdi = x }) m

    raw-spawn :
        Raw raw_process_spawn []
        ≡ (in_kernel paging (Process.spawn sp env.mappings env.entry) >>= λ x. pure x) m
    unfolding handle at_syscall
    raw-spawn =
        raw_lem env paging sp m next raw_process_spawn [] before
        ∙ told-returning 1 (in_kernel paging (Process.spawn sp env.mappings env.entry))
            (λ x. record (overwritten next (at_syscall raw_process_spawn [] before)) { rdi = x }) m

    raw-file_new :
        (path path_len mode : ℕ)
        → Raw raw_fs_open (path ∷ path_len ∷ mode ∷ [])
          ≡ (in_kernel paging (Files.open_file env.outside sp path path_len mode) >>= λ x. pure x) m
    unfolding handle at_syscall
    raw-file_new path path_len mode =
        raw_lem env paging sp m next raw_fs_open (path ∷ path_len ∷ mode ∷ []) before
        ∙ told-returning 1 (in_kernel paging (Files.open_file env.outside sp path path_len mode))
            (λ x.
              record (overwritten next
                (at_syscall raw_fs_open (path ∷ path_len ∷ mode ∷ []) before)) { rdi = x })
            m

    raw-file_read :
        (file buf buf_len : ℕ)
        → Raw raw_fs_handle_read (file ∷ buf ∷ buf_len ∷ [])
          ≡ (in_kernel paging (Files.read sp file buf buf_len) >>= λ x. pure (length x)) m
    unfolding handle at_syscall
    raw-file_read file buf buf_len =
        raw_lem env paging sp m next raw_fs_handle_read (file ∷ buf ∷ buf_len ∷ []) before
        ∙ told-returning 1 (in_kernel paging (Files.read sp file buf buf_len))
            (λ x.
              record (overwritten next
                (at_syscall raw_fs_handle_read (file ∷ buf ∷ buf_len ∷ []) before)) {
                  rdi = length x;
                })
            m

    -- In every state, with any registers before the call, the library's `my_pid`, `seek`,
    -- `capability_share` and `capability_transfer` do exactly what the kernel's functions do on the
    -- same arguments; `spawn` and `File::new` do, and report an unknown error for a zero;
    -- `File::read` does, and panics where more was read than the buffer is long; `Process::exec` of
    -- a path is the kernel's `exec` with the address of the path as the process and its length as
    -- the descriptor.
    pub calls_lem :
        (a b c : ℕ)
        → (my_pid gate before m ≡ in_kernel paging Process.mypid m)
          × (file_seek gate before a b m ≡ in_kernel paging (Files.seek sp a b) m)
          × (capability_share gate before a b m
              ≡ in_kernel paging (process_share_transfer sp env.reserved a b false) m)
          × (capability_transfer gate before a b m
              ≡ in_kernel paging (process_share_transfer sp env.reserved a b true) m)
          × (spawn gate before m
              ≡ (in_kernel paging (Process.spawn sp env.mappings env.entry) >>= λ pid.
                    ok_or (non_zero pid) unknown_error)
                  m)
          × (file_new gate before a b c m
              ≡ (in_kernel paging (Files.open_file env.outside sp a b c) >>= λ fd.
                    ok_or (non_zero fd) unknown_error)
                  m)
          × (file_read gate before a b c m
              ≡ (in_kernel paging (Files.read sp a b c) >>= λ bytes.
                    assert (leb (length bytes) c) >> pure (length bytes))
                  m)
          × (exec gate before a b m ≡ Exec.exec env.format paging sp env.rounds env.reserves a b m)
    unfolding my_pid file_seek capability_share capability_transfer spawn file_new file_read exec
    calls_lem a b c = (
      raw-my_pid ∙ >>=-pure (in_kernel paging Process.mypid) m,
      raw-file_seek a b,
      raw-capability_share a b,
      raw-capability_transfer a b,
      >>=-map m (raw gate raw_process_spawn [] before)
          (in_kernel paging (Process.spawn sp env.mappings env.entry)) (λ x. x)
          (λ pid. ok_or (non_zero pid) unknown_error) raw-spawn,
      >>=-map m (raw gate raw_fs_open (a ∷ b ∷ c ∷ []) before)
          (in_kernel paging (Files.open_file env.outside sp a b c)) (λ x. x)
          (λ fd. ok_or (non_zero fd) unknown_error) (raw-file_new a b c),
      >>=-map m (raw gate raw_fs_handle_read (a ∷ b ∷ c ∷ []) before)
          (in_kernel paging (Files.read sp a b c)) length (λ len. assert (leb len c) >> pure len)
          (raw-file_read a b c),
      raw-exec a b,
    )
