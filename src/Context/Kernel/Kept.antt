-- ===== src/Context/Kernel/Kept.antt =====
-- The invariant of the kernel's state under the operations of idker/src/context/mod.rs.
use idkernel.Base.{
  ℕ, ◌+◌, ◌-◌, ◌^◌, ◌%◌, ◌≡◌, refl, sym, subst, Bool, true, false, not, Option, none, some, ◌==◌,
  Outcome, ok, err, panic, hang, Prog, modify, Ends, Keeps, Steps, Ends-Keeps, bind-Keeps,
  pure-Keeps, get-Keeps, unwrap-Keeps, assert-Keeps, modify-Keeps,
}
use idkernel.Context.Lock.{SpinRwLock, writing}
use idkernel.Context.Task.{TaskContext}
use idkernel.Context.Registry.{Cell, queue_for_execution}
use idkernel.Context.Kernel.{
  Kernel, cell_of, set_lock, set_context, on_registry, allocate_pid, current_task_id, current_task,
  releasing, on_context, with_write, read_context,
}
use idkernel.Context.Kernel.Sound.{
  Fine, Sound, SoundTasks, Holding, lock-Sound, unlock-Sound, context-Sound,
}

-- Soundness is about the tasks.
pub same-Sound :
    {held : ℕ → Type 0} (k k' : Kernel)
    → k'.registry.tasks ≡ k.registry.tasks
    → Sound held k
    → Sound held k'
same-Sound {held} k k' e s = subst (SoundTasks held) (sym e) s

module _ (held : ℕ → Type 0) where
  context_outcome :
      {E A : Type 0} (id : ℕ) (k : Kernel)
      → Sound held k
      → (r : Outcome TaskContext E A) → Ends (λ _ c. Fine id c) (Fine id) r
      → Ends
          (λ _ t. Sound held t)
          (Sound held)
          (elim r [
            | ok a ctx ↦ ok a (set_context id ctx k)
            | err e ctx ↦ err e (set_context id ctx k)
            | panic ↦ panic
            | hang ↦ hang
          ])
  context_outcome id k s (ok a ctx) f = context-Sound id k ctx f s
  context_outcome id k s (err e ctx) f = context-Sound id k ctx f s
  context_outcome id k s panic f = tt
  context_outcome id k s hang f = tt

  releasing_outcome :
      {E A : Type 0} (id : ℕ) (r : Outcome Kernel E A)
      → Ends (λ _ t. Sound (Holding id held) t) (Sound (Holding id held)) r
      → Ends (λ _ t. Sound held t) (Sound held) (releasing id r)
  releasing_outcome id (ok a k) s = unlock-Sound id k s
  releasing_outcome id (err e k) s = unlock-Sound id k s
  releasing_outcome id panic s = tt
  releasing_outcome id hang s = tt

  granted_outcome :
      {E A : Type 0} (b : Bool) (r : Outcome Kernel E A)
      → Ends (λ _ t. Sound held t) (Sound held) r
      → Ends (λ _ t. Sound held t) (Sound held) (elim b [ true ↦ r | false ↦ hang ])
  granted_outcome true r h = h
  granted_outcome false r h = tt

module _ {held : ℕ → Type 0} {Q : Kernel → Type 0} where
  pub current_task_id-Keeps : {E : Type 0} → Steps {E = E} (Sound held) Q current_task_id
  unfolding current_task_id
  current_task_id-Keeps =
      bind-Keeps get-Keeps
        λ k. bind-Keeps (assert-Keeps (not (k.task_id == 0))) λ _. pure-Keeps k.task_id

  pub current_task-Keeps : {E : Type 0} → Steps {E = E} (Sound held) Q current_task
  unfolding current_task
  current_task-Keeps =
      bind-Keeps current_task_id-Keeps
        λ id. bind-Keeps get-Keeps λ k. bind-Keeps (unwrap-Keeps (cell_of id k)) λ _. pure-Keeps id

  -- A change elsewhere than in the tasks.
  pub quiet-Keeps :
      {E : Type 0} (f : Kernel → Kernel)
      → ((k : Kernel) → (f k).registry.tasks ≡ k.registry.tasks)
      → Steps {E = E} (Sound held) Q (modify f)
  quiet-Keeps f e = modify-Keeps f λ k s. same-Sound k (f k) (e k) s

  pub allocate_pid-Keeps : {E : Type 0} → Steps {E = E} (Sound held) Q allocate_pid
  unfolding allocate_pid
  allocate_pid-Keeps = bind-Keeps get-Keeps λ k.
      bind-Keeps (quiet-Keeps (λ s. record s { next_pid = (k.next_pid + 1) % 2 ^ 64 }) λ s. refl)
        λ _. bind-Keeps (assert-Keeps (not (k.next_pid == 2 ^ 64 - 1))) λ _. pure-Keeps k.next_pid

  pub queue-Keeps :
      {E : Type 0} (id : ℕ) → Steps {E = E} (Sound held) Q (on_registry (queue_for_execution id))
  unfolding queue_for_execution
  queue-Keeps id = Ends-Keeps (on_registry (queue_for_execution id)) λ k s. s

module _ {held : ℕ → Type 0} where
  pub on_context-Keeps :
      {E A : Type 0} (id : ℕ) {m : Prog TaskContext E A}
      → Keeps (Fine id) m
      → Keeps (Sound held) (on_context id m)
  unfolding on_context
  on_context-Keeps {E} {A} id {m} h = Ends-Keeps (on_context id m) λ k s. go k s (cell_of id k) refl
    where
      go :
          (k : Kernel)
          → Sound held k
          → (o : Option Cell) → cell_of id k ≡ o
          → Ends
              (λ _ t. Sound held t)
              (Sound held)
              (elim o [
                | none ↦ panic
                | some c ↦ elim (m c.context) [
                  | ok a ctx ↦ ok a (set_context id ctx k)
                  | err e ctx ↦ err e (set_context id ctx k)
                  | panic ↦ panic
                  | hang ↦ hang
                ]
              ])
      go k s none e = tt
      go k s (some c) e =
          context_outcome held id k s (m c.context) (h.keeps c.context (s.fine id c e)).ends

  pub with_write-Keeps :
      {E A : Type 0} (sp : SpinRwLock) (id : ℕ) {body : Prog Kernel E A}
      → Keeps (Sound (Holding id held)) body
      → Keeps (Sound held) (with_write sp id body)
  unfolding with_write
  with_write-Keeps {E} {A} sp id {body} h =
      Ends-Keeps (with_write sp id body) λ k s. go k s (cell_of id k)
    where
      go :
          (k : Kernel)
          → Sound held k
          → (o : Option Cell)
          → Ends
              (λ _ t. Sound held t)
              (Sound held)
              (elim o [
                | none ↦ panic
                | some c ↦ elim (sp.grants_write c.lock) [
                  | true ↦ releasing id (body (set_lock id writing k))
                  | false ↦ hang
                ]
              ])
      go k s none = tt
      go k s (some c) = granted_outcome held (sp.grants_write c.lock) _ (
          releasing_outcome held id _
            (h.keeps (set_lock id writing k) (lock-Sound id k writing s)).ends)

  pub read_context-Keeps :
      {E : Type 0} (sp : SpinRwLock) (id : ℕ) → Keeps {E = E} (Sound held) (read_context sp id)
  unfolding read_context
  read_context-Keeps {E} sp id = Ends-Keeps (read_context sp id) λ k s. go k s (cell_of id k)
    where
      go :
          (k : Kernel)
          → Sound held k
          → (o : Option Cell)
          → Ends {E = E}
              (λ _ t. Sound held t)
              (Sound held)
              (elim o [
                | none ↦ panic
                | some c ↦ elim (sp.grants_read c.lock) [ true ↦ ok c.context k | false ↦ hang ]
              ])
      go k s none = tt
      go k s (some c) = granted_outcome held (sp.grants_read c.lock) (ok c.context k) s
