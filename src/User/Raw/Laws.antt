-- ===== src/User/Raw/Laws.antt =====
-- What a raw call of syscall/src/raw.rs makes of the kernel's answer.
use idkernel.Base.{
  ℕ, zero, suc, ◌≡◌, refl, ◌∙◌, sym, ap, List, [], ◌∷◌, arith, Outcome, ok, err, panic, hang,
}
use idkernel.Abi.{SyscallCode, SyscallError, code_number, error_number}
use idkernel.Abi.RoundTrip.{code_from_iff, error_from_iff, error_number-not_zero}
use idkernel.Context.Lock.{SpinRwLock}
use idkernel.Dispatch.{AllSavedRegisters, Environment, handle, answer, on_symcall_1}
use idkernel.Machine.{Machine}
use idkernel.Memory.{Paging}
use idkernel.User.Raw.{
  Registry, rdi, rsi, rdx, r10, r8, r9, registries, read_register, SyscallDescriptor, Results,
  results, at_syscall, overwritten, syscall_gate, error_of, decoded, raw,
}

-- No result is read from `rax`.
read_rax :
    (x : Registry) (r : AllSavedRegisters)
    → read_register x (record r { rax = 0 }) ≡ read_register x r
read_rax rdi r = refl
read_rax rsi r = refl
read_rax rdx r = refl
read_rax r10 r = refl
read_rax r8 r = refl
read_rax r9 r = refl

results_rax :
    (n : ℕ) (regs : List Registry) (r : AllSavedRegisters)
    → results n regs (record r { rax = 0 }) ≡ results n regs r
results_rax zero regs r = refl
results_rax (suc zero) [] r = refl
results_rax (suc zero) (x ∷ regs) r = read_rax x r
results_rax (suc (suc n)) [] r = ap (λ y. (0, y)) (results_rax (suc n) [] r)
results_rax (suc (suc n)) (x ∷ regs) r = rw (read_rax x r, results_rax (suc n) regs r) refl

error_of_number : (e : SyscallError) → error_of (error_number e) ≡ e
unfolding error_of
error_of_number e = rw ((error_from_iff (error_number e) e).1 refl, error_of) refl

-- The result of a call, as its caller gets it.
abbrev pub told :
    {S : Type 0} (n : ℕ)
    → Outcome S SyscallError AllSavedRegisters
    → Outcome S SyscallError (Results n)
told n (ok r s) = ok (results n registries r) s
told n (err e s) = err e s
told n panic = panic
told n hang = hang

abbrev finished :
    {S : Type 0} (n : ℕ) → Outcome S ⊥ AllSavedRegisters → Outcome S SyscallError (Results n)
finished n (ok r s) = decoded n r s
finished n (err e s) = absurd e
finished n panic = panic
finished n hang = hang

module _ (env : Environment) (paging : Paging) (sp : SpinRwLock) where
  decoded_answer :
      (n : ℕ) (regs : AllSavedRegisters)
      (r : Outcome (Machine paging) SyscallError AllSavedRegisters)
      → finished n (answer env paging sp regs r) ≡ told n r
  unfolding decoded
  decoded_answer n regs (ok r t) = ap (λ x. Outcome.ok x t) (results_rax n registries r)
  decoded_answer n regs (err e t) = ground (arith, error_of_number e, error_number-not_zero e)
  decoded_answer n regs panic = refl
  decoded_answer n regs hang = refl

  module _ (m : Machine paging) where
    pub dispatched :
        (c : SyscallCode) (regs : AllSavedRegisters)
        → regs.rax ≡ code_number c
        → on_symcall_1 env paging sp regs m
          ≡ answer env paging sp regs (handle env paging sp c regs m)
    unfolding on_symcall_1
    dispatched c regs e = rw ((code_from_iff regs.rax c).1 (sym e), on_symcall_1) refl

    -- For every descriptor of a call, arguments, registers before it and state, the function that
    -- `create_syscall` defines gives its caller exactly what the kernel's handler of that call does
    -- on the registers that it sets, after the instruction has overwritten `rcx` and `r11`: a
    -- success with as many results as declared, read from the registers in order, an error as the
    -- same error, and a panic or an endless wait where the handler does so.
    pub raw_lem :
        (next : ℕ) (d : SyscallDescriptor) (args : List ℕ) (before : AllSavedRegisters)
        → raw (syscall_gate env paging sp next) d args before m
          ≡ told d.ret_count
              (handle env paging sp d.selector (overwritten next (at_syscall d args before)) m)
    unfolding raw at_syscall
    raw_lem next d args before =
        let seen = overwritten next (at_syscall d args before) in
        ap (finished d.ret_count) (dispatched d.selector seen refl)
        ∙ decoded_answer d.ret_count seen (handle env paging sp d.selector seen m)
