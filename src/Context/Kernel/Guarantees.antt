-- ===== src/Context/Kernel/Guarantees.antt =====
-- What code of idker/src/context/ on one context guarantees of the kernel.
use idkernel.Base.{
  ℕ, ◌≡◌, refl, ap, not, ◌==◌, Option, none, some, Outcome, ok, err, panic, hang, Prog, Ensures,
  Ends, bind-Ensures, get-Ensures, pure-Ensures, unwrap-Ensures, assert-Ensures,
}
use idkernel.Context.Task.{TaskContext}
use idkernel.Context.Registry.{Cell}
use idkernel.Context.Kernel.{
  Kernel, cell_of, set_context, on_context, current_task_id, current_task,
}

module _ {E A : Type 0} (P : A → Kernel → Type 0) (Q : Kernel → Type 0) (id : ℕ) (k : Kernel) where
  after-Ends :
      (r : Outcome TaskContext E A)
      → Ends (λ a ctx. P a (set_context id ctx k)) (λ ctx. Q (set_context id ctx k)) r
      → Ends P Q (elim r [
        | ok a ctx ↦ ok a (set_context id ctx k)
        | err e ctx ↦ err e (set_context id ctx k)
        | panic ↦ panic
        | hang ↦ hang
      ])
  after-Ends (ok a ctx) p = p
  after-Ends (err e ctx) p = p
  after-Ends panic p = tt
  after-Ends hang p = tt

module _ {E A : Type 0} {P : A → Kernel → Type 0} {Q : Kernel → Type 0} (id : ℕ) {k : Kernel} where
  pub on_context-Ensures :
      {m : Prog TaskContext E A}
      → ((c : Cell)
          → cell_of id k ≡ some c
          → Ensures
              (λ a ctx. P a (set_context id ctx k))
              (λ ctx. Q (set_context id ctx k))
              c.context
              m)
      → Ensures P Q k (on_context id m)
  unfolding on_context
  on_context-Ensures {m} h = record { ends = go (cell_of id k) refl }
    where
      go :
          (o : Option Cell)
          → cell_of id k ≡ o
          → Ends P Q (elim o [
            | none ↦ panic
            | some c ↦ elim (m c.context) [
              | ok a ctx ↦ ok a (set_context id ctx k)
              | err e ctx ↦ err e (set_context id ctx k)
              | panic ↦ panic
              | hang ↦ hang
            ]
          ])
      go none e = tt
      go (some c) e = after-Ends P Q id k (m c.context) (h c e).ends

-- Finding the running task changes nothing.
pub current_task_id-Ensures :
    {E : Type 0} (k : Kernel)
    → Ensures {E = E} (λ id k'. (k' ≡ k) × (id ≡ k.task_id)) (λ k'. k' ≡ k) k current_task_id
unfolding current_task_id
current_task_id-Ensures k =
    bind-Ensures {P' = λ s k'. (s ≡ k) × (k' ≡ k)} (get-Ensures (refl, refl)) λ s t e.
      bind-Ensures {P' = λ _ k'. k' ≡ k} (assert-Ensures (not (s.task_id == 0)) (λ _. e.1))
        λ _ u same. pure-Ensures s.task_id (same, ap (λ (x : Kernel). x.task_id) e.0)

pub current_task-Ensures :
    {E : Type 0} (k : Kernel)
    → Ensures {E = E} (λ id k'. (k' ≡ k) × (id ≡ k.task_id)) (λ k'. k' ≡ k) k current_task
unfolding current_task
current_task-Ensures k =
    bind-Ensures {P' = λ id k'. (k' ≡ k) × (id ≡ k.task_id)} (current_task_id-Ensures k) λ id t e.
      bind-Ensures {P' = λ s k'. k' ≡ k} (get-Ensures e.0) λ s u same.
        bind-Ensures {P' = λ c k'. k' ≡ k} (unwrap-Ensures (cell_of id s) (λ c _. same))
          λ c v same'. pure-Ensures id (same', e.1)
