-- ===== src/Machine.antt =====
-- The whole state that a system call may change: the kernel of idker/src/context/, the page tables,
-- and the content of the frames.
pub mod Guarantees
pub mod Kept
use idkernel.Base.{ℕ, Bool, true, false, none, some, Outcome, ok, err, panic, hang, Prog, zoom, Str}
use idkernel.Context.Lock.{SpinRwLock, unlocked, writing}
use idkernel.Context.Task.{TaskContext}
use idkernel.Context.Kernel.{Kernel, cell_of, set_lock, on_context}
use idkernel.Memory.{Paging}

module _ (paging : Paging) where
  pub record Machine : Type 0 where
    pub kernel : Kernel
    pub tables : paging.Tables
    pub frames : ℕ → Str

  abbrev pub in_kernel : {E A : Type 0} → Prog Kernel E A → Prog Machine E A
  in_kernel = zoom (λ m. m.kernel) (λ k m. record m { kernel = k })

  abbrev pub in_space : {E A : Type 0} → Prog (paging.Tables × (ℕ → Str)) E A → Prog Machine E A
  in_space = zoom (λ m. (m.tables, m.frames)) (λ s m. record m { tables = s.0; frames = s.1 })

  abbrev pub in_mapping : {E A : Type 0} → Prog (Kernel × paging.Tables) E A → Prog Machine E A
  in_mapping = zoom (λ m. (m.kernel, m.tables)) (λ s m. record m { kernel = s.0; tables = s.1 })

  abbrev pub release : {E A : Type 0} → ℕ → Outcome Machine E A → Outcome Machine E A
  release id (ok a m) = ok a (record m { kernel = set_lock id unlocked m.kernel })
  release id (err e m) = err e (record m { kernel = set_lock id unlocked m.kernel })
  release id panic = panic
  release id hang = hang

  -- `let guard = task.write();` and the rest of the scope, on the whole state.
  unfoldable pub hold_write : {E A : Type 0} → SpinRwLock → ℕ → Prog Machine E A → Prog Machine E A
  hold_write sp id body m = elim (cell_of id m.kernel) [
    | none ↦ panic
    | some c ↦
        let rest = release id (body (record m { kernel = set_lock id writing m.kernel })) in
        elim (sp.grants_write c.lock) [ true ↦ rest | false ↦ hang ]
  ]
