-- ===== src/User/Raw/Declared.antt =====
-- The registers that the assembly of syscall/syscall_macros/src/lib.rs declares as written, and those
-- that the kernel writes.
use idkernel.Base.{
  ℕ, zero, suc, ◌≡◌, refl, ap, true, List, length, All, Outcome, ok, err, panic, hang, Prog, Ends,
  Ensures, bind-Ensures, pure-Ensures, any-Keeps, subst, sym,
}
use idkernel.Abi.{SyscallError, error_number}
use idkernel.Context.Lock.{SpinRwLock}
use idkernel.Context.Kernel.{Kernel}
use idkernel.Dispatch.{AllSavedRegisters, Environment, handle, answer, returning, plain}
use idkernel.Machine.{Machine, in_kernel}
use idkernel.Memory.{Paging}
use idkernel.User.Raw.{
  SyscallDescriptor, is_expanded, at_syscall, overwritten, syscall_gate, raw_calls, raw_exit,
  raw_yield, raw_fs_open, raw_fs_handle_seek, raw_fs_handle_read, raw_fs_handle_close,
  raw_capability_clone, raw_capability_inspect, raw_capability_restrict, raw_capability_drop,
  raw_process_my_pid, raw_process_spawn, raw_process_cap_share, raw_process_cap_transfer,
  raw_process_exec, raw_memory_map_virt, raw_memory_map_phys,
}
use idkernel.User.Raw.Laws.{dispatched}

-- From the registers that the kernel sees: beside `rax` only as many registers are written as there are results, `rdi` first, then `rsi`.
abbrev Written : ℕ → AllSavedRegisters → AllSavedRegisters → Type 0
Written zero regs r = r ≡ record regs { rax = r.rax }
Written (suc zero) regs r = r ≡ record regs { rax = r.rax; rdi = r.rdi }
Written (suc (suc n)) regs r = r ≡ record regs { rax = r.rax; rdi = r.rdi; rsi = r.rsi }

-- The same from what the program set, before the instruction: this overwrites `rcx` with the address
-- that follows it and `r11` with the flags.
abbrev pub Undeclared : ℕ → ℕ → AllSavedRegisters → AllSavedRegisters → Type 0
Undeclared next zero set r = r ≡ record set { rcx = next; r11 = set.rflags; rax = r.rax }
Undeclared next (suc zero) set r =
    r ≡ record set { rcx = next; r11 = set.rflags; rax = r.rax; rdi = r.rdi }
Undeclared next (suc (suc n)) set r =
    r ≡ record set { rcx = next; r11 = set.rflags; rax = r.rax; rdi = r.rdi; rsi = r.rsi }

-- The same of what a handler leaves.
abbrev KeptRest : ℕ → AllSavedRegisters → AllSavedRegisters → Type 0
KeptRest zero regs r = r ≡ regs
KeptRest (suc zero) regs r = (x : ℕ) × (r ≡ record regs { rdi = x })
KeptRest (suc (suc n)) regs r = (x : ℕ) × (y : ℕ) × (r ≡ record regs { rdi = x; rsi = y })

answered :
    (n : ℕ) (regs r : AllSavedRegisters) → KeptRest n regs r → Written n regs (record r { rax = 0 })
answered zero regs r e = ap (λ (q : AllSavedRegisters). record q { rax = 0 }) e
answered (suc zero) regs r (x, e) = rw e refl
answered (suc (suc n)) regs r (x, y, e) = rw e refl

refused : (n k : ℕ) (regs : AllSavedRegisters) → Written n regs (record regs { rax = k })
refused zero k regs = refl
refused (suc zero) k regs = refl
refused (suc (suc n)) k regs = refl

from_set :
    (next n : ℕ) (set r : AllSavedRegisters)
    → Written n (overwritten next set) r
    → Undeclared next n set r
from_set next zero set r e = e
from_set next (suc zero) set r e = e
from_set next (suc (suc n)) set r e = e

outcome_from_set :
    {S : Type 0} (next n : ℕ) (set : AllSavedRegisters) (r : Outcome S ⊥ AllSavedRegisters)
    → Ends (λ r t. Written n (overwritten next set) r) (λ t. ⊥) r
    → Ends (λ r t. Undeclared next n set r) (λ t. ⊥) r
outcome_from_set next n set (ok r t) h = from_set next n set r h
outcome_from_set next n set (err e t) h = h
outcome_from_set next n set panic h = tt
outcome_from_set next n set hang h = tt

module _ (env : Environment) (paging : Paging) (sp : SpinRwLock) (m : Machine paging)
    (next : ℕ) where
  abbrev Leaves :
      ℕ → AllSavedRegisters → Prog (Machine paging) SyscallError AllSavedRegisters → Type 0
  Leaves n regs prog = Ensures (λ r t. KeptRest n regs r) (λ t. Unit {0}) m prog

  module _ {A : Type 0} (n : ℕ) (regs : AllSavedRegisters) (write : A → AllSavedRegisters)
      (h : (a : A) → KeptRest n regs (write a)) where
    returning-Leaves :
        (prog : Prog (Machine paging) SyscallError A)
        → Leaves n regs (returning env paging sp prog write)
    returning-Leaves prog =
        bind-Ensures ((any-Keeps prog).keeps m tt) λ a t _. pure-Ensures (write a) (h a)

    plain-Leaves :
        (prog : Prog Kernel SyscallError A) → Leaves n regs (plain env paging sp prog write)
    plain-Leaves prog = returning-Leaves (in_kernel paging prog)

  answer-Ends :
      (n : ℕ) (regs : AllSavedRegisters)
      (r : Outcome (Machine paging) SyscallError AllSavedRegisters)
      → Ends (λ r t. KeptRest n regs r) (λ t. Unit {0}) r
      → Ends (λ r t. Written n regs r) (λ t. ⊥) (answer env paging sp regs r)
  answer-Ends n regs (ok r t) k = answered n regs r k
  answer-Ends n regs (err e t) k = refused n (error_number e) regs
  answer-Ends n regs panic k = tt
  answer-Ends n regs hang k = tt

  -- What a call may write.
  abbrev pub Respects : SyscallDescriptor → AllSavedRegisters → Type 0
  Respects d regs =
      Ensures (λ r t. Undeclared next d.ret_count regs r) (λ t. ⊥) m
        (syscall_gate env paging sp next regs)

  respected :
      (d : SyscallDescriptor) (args : List ℕ) (before : AllSavedRegisters)
      → Leaves d.ret_count
          (overwritten next (at_syscall d args before))
          (handle env paging sp d.selector (overwritten next (at_syscall d args before)))
      → Respects d (at_syscall d args before)
  unfolding at_syscall
  respected d args before h =
      let set = at_syscall d args before in
      record {
        ends = outcome_from_set next d.ret_count set _ (
            subst (Ends (λ r t. Written d.ret_count (overwritten next set) r) (λ t. ⊥))
              (sym (dispatched env paging sp m d.selector (overwritten next set) refl))
              (answer-Ends d.ret_count (overwritten next set) _ h.ends));
      }

  -- Every call that raw.rs creates passes the tests of the macro, and for any arguments, registers
  -- before it and state, where the kernel returns from it, the registers are what the program set
  -- at the instruction but for `rax` and as many of `rdi` and `rsi` as results are declared for it,
  -- which the assembly declares, and for `rcx` and `r11`, which it does not declare and which hold
  -- the address behind the instruction and the flags.
  pub raw_calls-Undeclared :
      (args : List ℕ) (before : AllSavedRegisters)
      → All (λ d. (is_expanded d ≡ true) × Respects d (at_syscall d args before)) raw_calls
  unfolding is_expanded handle
  raw_calls-Undeclared args before = (
    (refl, respected raw_exit args before (plain-Leaves 0 _ _ (λ _. refl) _)),
    (
      (refl, respected raw_yield args before (plain-Leaves 0 _ _ (λ _. refl) _)),
      (
        (
          refl,
          respected raw_fs_open args before (
              plain-Leaves 1 (overwritten next (at_syscall raw_fs_open args before)) _
                (λ fd. (fd, refl)) _),
        ),
        (
          (refl, respected raw_fs_handle_seek args before (plain-Leaves 0 _ _ (λ _. refl) _)),
          (
            (
              refl,
              respected raw_fs_handle_read args before (
                  plain-Leaves 1 (overwritten next (at_syscall raw_fs_handle_read args before)) _
                    (λ bytes. (length bytes, refl)) _),
            ),
            (
              (refl, respected raw_fs_handle_close args before (plain-Leaves 0 _ _ (λ _. refl) _)),
              (
                (
                  refl,
                  respected raw_capability_clone args before (
                      plain-Leaves 1
                        (overwritten next (at_syscall raw_capability_clone args before)) _
                        (λ x. (x, refl)) _),
                ),
                (
                  (
                    refl,
                    respected raw_capability_inspect args before (
                        plain-Leaves 2
                          (overwritten next (at_syscall raw_capability_inspect args before)) _
                          (λ x. (x.0, x.1, refl)) _),
                  ),
                  (
                    (
                      refl,
                      respected raw_capability_restrict args before
                          (plain-Leaves 0 _ _ (λ _. refl) _),
                    ),
                    (
                      (
                        refl,
                        respected raw_capability_drop args before
                            (plain-Leaves 0 _ _ (λ _. refl) _),
                      ),
                      (
                        (
                          refl,
                          respected raw_process_my_pid args before (
                              plain-Leaves 1
                                (overwritten next (at_syscall raw_process_my_pid args before)) _
                                (λ x. (x, refl)) _),
                        ),
                        (
                          (
                            refl,
                            respected raw_process_spawn args before (
                                plain-Leaves 1
                                  (overwritten next (at_syscall raw_process_spawn args before)) _
                                  (λ x. (x, refl)) _),
                          ),
                          (
                            (
                              refl,
                              respected raw_process_cap_share args before
                                  (plain-Leaves 0 _ _ (λ _. refl) _),
                            ),
                            (
                              (
                                refl,
                                respected raw_process_cap_transfer args before
                                    (plain-Leaves 0 _ _ (λ _. refl) _),
                              ),
                              (
                                (
                                  refl,
                                  respected raw_process_exec args before
                                      (returning-Leaves 0 _ _ (λ _. refl) _),
                                ),
                                (
                                  (
                                    refl,
                                    respected raw_memory_map_virt args before
                                        (returning-Leaves 0 _ _ (λ _. refl) _),
                                  ),
                                  (
                                    (
                                      refl,
                                      respected raw_memory_map_phys args before
                                          (returning-Leaves 0 _ _ (λ _. refl) _),
                                    ),
                                    tt,
                                  ),
                                ),
                              ),
                            ),
                          ),
                        ),
                      ),
                    ),
                  ),
                ),
              ),
            ),
          ),
        ),
      ),
    ),
  )
