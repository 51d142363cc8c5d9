-- ===== src/Dispatch/Laws.antt =====
-- What the caller of `on_symcall_1` of idker/src/syscalls/mod.rs finds in its registers.
use idkernel.Base.{
  ℕ, ◌≡◌, ◌≢◌, ◌⊎◌, inl, inr, refl, Option, none, some, Outcome, ok, err, panic, hang, Prog,
  Ensures, Ends, bind-Ensures, pure-Ensures, arith, sym, ap, ◌∙◌, length, List, [], ◌∷◌, find, ◌==◌,
  subst,
}
use idkernel.Abi.{SyscallCode, SyscallError, code_from, code_number, error_number, unknown_syscall}
use idkernel.Abi.RoundTrip.{code_from_iff, error_number-not_zero, error_number-unknown_syscall}
use idkernel.Context.Lock.{SpinRwLock}
use idkernel.Context.Kernel.{Kernel}
use idkernel.Machine.{Machine, in_kernel}
use idkernel.Memory.{Paging}
use idkernel.Dispatch.{
  AllSavedRegisters, Environment, returning, plain, handle, answer, on_symcall_1,
}

-- The registers of a call that succeeds: at most `rdi` and `rsi` are written.
abbrev pub Written : AllSavedRegisters → AllSavedRegisters → Type 0
Written regs r = (x : ℕ) × (y : ℕ) × (r ≡ record regs { rdi = x; rsi = y })

-- The registers that the caller finds: a success is told by 0 in `rax`, and of an error only `rax`
-- says anything.
abbrev pub Answered : AllSavedRegisters → AllSavedRegisters → Type 0
Answered regs r =
    ((x : ℕ) × (y : ℕ) × (r ≡ record regs { rax = 0; rdi = x; rsi = y }))
    ⊎ ((e : SyscallError) × (r ≡ record regs { rax = error_number e }) × (r.rax ≢ 0))

-- The numbers of the calls that the kernel serves.
abbrev pub served : List ℕ
served =
    0 ∷ 1 ∷ 0x100 ∷ 0x101 ∷ 0x102 ∷ 0x103 ∷ 0x200 ∷ 0x201 ∷ 0x202 ∷ 0x204 ∷ 0x400 ∷ 0x401 ∷ 0x402
    ∷ 0x403 ∷ 0x404 ∷ 0x500 ∷ 0x501 ∷ 0x503 ∷ []

any-Ensures :
    {S E A : Type 0} (s : S) (m : Prog S E A) → Ensures (λ _ _. Unit {0}) (λ _. Unit {0}) s m
any-Ensures {S} {E} {A} s m = record { ends = go (m s) }
  where
    go : (r : Outcome S E A) → Ends (λ _ _. Unit {0}) (λ _. Unit {0}) r
    go (ok a t) = tt
    go (err e t) = tt
    go panic = tt
    go hang = tt

module _ (env : Environment) (paging : Paging) (sp : SpinRwLock) where
  abbrev Writes :
      AllSavedRegisters
      → Machine paging
      → Prog (Machine paging) SyscallError AllSavedRegisters
      → Type 0
  Writes regs m prog = Ensures (λ r t. Written regs r) (λ t. Unit {0}) m prog

  module _ {A : Type 0} (regs : AllSavedRegisters) (m : Machine paging) where
    returning-Writes :
        (prog : Prog (Machine paging) SyscallError A) (write : A → AllSavedRegisters)
        → ((a : A) → Written regs (write a))
        → Writes regs m (returning env paging sp prog write)
    returning-Writes prog write h =
        bind-Ensures {P' = λ _ _. Unit {0}} (any-Ensures m prog)
          λ a t _. pure-Ensures (write a) (h a)

    plain-Writes :
        (prog : Prog Kernel SyscallError A) (write : A → AllSavedRegisters)
        → ((a : A) → Written regs (write a))
        → Writes regs m (plain env paging sp prog write)
    plain-Writes prog write h = returning-Writes (in_kernel paging prog) write h

  module _ (regs : AllSavedRegisters) (m : Machine paging) where
    same : Written regs regs
    same = (regs.rdi, regs.rsi, refl)

    handle-Writes : (c : SyscallCode) → Writes regs m (handle env paging sp c regs)
    unfolding handle
    handle-Writes SyscallCode.exit = plain-Writes regs m _ _ (λ _. same)
    handle-Writes SyscallCode.yield = plain-Writes regs m _ _ (λ _. same)
    handle-Writes SyscallCode.fs_open = plain-Writes regs m _ _ (λ fd. (fd, regs.rsi, refl))
    handle-Writes SyscallCode.fs_handle_seek = plain-Writes regs m _ _ (λ _. same)
    handle-Writes SyscallCode.fs_handle_read =
        plain-Writes regs m _ _ (λ bytes. (length bytes, regs.rsi, refl))
    handle-Writes SyscallCode.fs_handle_close = plain-Writes regs m _ _ (λ _. same)
    handle-Writes SyscallCode.capability_clone = plain-Writes regs m _ _ (λ x. (x, regs.rsi, refl))
    handle-Writes SyscallCode.capability_inspect = plain-Writes regs m _ _ (λ x. (x.0, x.1, refl))
    handle-Writes SyscallCode.capability_restrict = plain-Writes regs m _ _ (λ _. same)
    handle-Writes SyscallCode.capability_drop = plain-Writes regs m _ _ (λ _. same)
    handle-Writes SyscallCode.process_my_pid = plain-Writes regs m _ _ (λ x. (x, regs.rsi, refl))
    handle-Writes SyscallCode.process_spawn = plain-Writes regs m _ _ (λ x. (x, regs.rsi, refl))
    handle-Writes SyscallCode.process_cap_share = plain-Writes regs m _ _ (λ _. same)
    handle-Writes SyscallCode.process_cap_transfer = plain-Writes regs m _ _ (λ _. same)
    handle-Writes SyscallCode.process_exec = returning-Writes regs m _ _ (λ _. same)
    handle-Writes SyscallCode.memory_map_virt = returning-Writes regs m _ _ (λ _. same)
    handle-Writes SyscallCode.memory_map_phys = returning-Writes regs m _ _ (λ _. same)
    handle-Writes SyscallCode.memory_unmap = pure-Ensures regs same
    handle-Writes _ = record { ends = tt }

    answer-Ends :
        (r : Outcome (Machine paging) SyscallError AllSavedRegisters)
        → Ends (λ r t. Written regs r) (λ t. Unit {0}) r
        → Ends (λ r t. Answered regs r) (λ t. ⊥) (answer env paging sp regs r)
    answer-Ends (ok r t) (x, y, e) =
        inl (x, y, ap (λ (q : AllSavedRegisters). record q { rax = 0 }) e)
    answer-Ends (err e t) p = inr (e, refl, error_number-not_zero e)
    answer-Ends panic p = tt
    answer-Ends hang p = tt

    -- For all saved registers and every state, where `on_symcall_1` returns, it has told either a
    -- success, by 0 in `rax` and results in at most `rdi` and `rsi`, or an error, by its number,
    -- which is not 0, in `rax` alone; it keeps all other registers, and it never ends with an error
    -- itself. (It may also panic or wait for ever.)
    pub on_symcall_1-Answered :
        Ensures (λ r t. Answered regs r) (λ t. ⊥) m (on_symcall_1 env paging sp regs)
    unfolding on_symcall_1
    on_symcall_1-Answered = record { ends = go (code_from regs.rax) }
      where
        go :
            (o : Option SyscallCode)
            → Ends
                (λ r t. Answered regs r)
                (λ t. ⊥)
                (elim o [
                  | none ↦ ok (record regs { rax = error_number unknown_syscall }) m
                  | some sysnum ↦ answer env paging sp regs (handle env paging sp sysnum regs m)
                ])
        go none = inr (unknown_syscall, refl, error_number-not_zero unknown_syscall)
        go (some c) = answer-Ends (handle env paging sp c regs m) (handle-Writes c).ends

    not_served :
        (c : SyscallCode)
        → find (λ n. n == code_number c) served ≡ none
        → handle env paging sp c regs m ≡ err unknown_syscall m
    unfolding handle code_number
    not_served SyscallCode.fs_handle_write h = refl
    not_served SyscallCode.conversation_create_p2p h = refl
    not_served SyscallCode.conversation_create_public h = refl
    not_served SyscallCode.conversation_talk h = refl
    not_served SyscallCode.conversation_cap_share h = refl
    not_served SyscallCode.conversation_cap_transfer h = refl
    not_served SyscallCode.memory_edit_perms h = refl
    not_served _ h = absurd (ground arith)

    -- If the number in `rax` is none of the eighteen that are served, be it undefined or that of
    -- one of the seven calls that are defined but not served, then `on_symcall_1` writes 1, the
    -- number of an unknown system call, not the 2 of one that is not implemented, to `rax` and
    -- changes nothing else.
    pub on_symcall_1_unknown :
        find (λ n. n == regs.rax) served ≡ none
        → on_symcall_1 env paging sp regs m ≡ ok (record regs { rax = 1 }) m
    unfolding on_symcall_1
    on_symcall_1_unknown unserved = go (code_from regs.rax) refl
      where
        go :
            (o : Option SyscallCode)
            → code_from regs.rax ≡ o
            → elim o [
              | none ↦ ok (record regs { rax = error_number unknown_syscall }) m
              | some sysnum ↦ answer env paging sp regs (handle env paging sp sysnum regs m)
            ]
              ≡ ok (record regs { rax = 1 }) m
        go none e = ap (λ n. Outcome.ok (record regs { rax = n }) m) error_number-unknown_syscall
        go (some c) e =
            let number = (code_from_iff regs.rax c).0 e in
            let fails : handle env paging sp c regs m ≡ err unknown_syscall m =
              not_served c (subst (λ k. find (λ n. n == k) served ≡ none) (sym number) unserved) in
            ap (answer env paging sp regs) fails
            ∙ ap (λ n. Outcome.ok (record regs { rax = n }) m) error_number-unknown_syscall
