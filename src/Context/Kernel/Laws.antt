-- ===== src/Context/Kernel/Laws.antt =====
-- Code of idker/src/context/ that runs under the lock of a task.
use idkernel.Base.{
  ℕ, ◌≡◌, ◌≢◌, refl, some, List, Outcome, ok, err, panic, hang, Prog, ◌>>=◌, arith, assoc_map,
  assoc-map_self, ◌∙◌, ap, assoc_map-assoc_map, assoc_map_congr, assoc_map-id,
}
use idkernel.Context.Lock.{unlocked, writing, SpinRwLock}
use idkernel.Context.Task.{TaskContext}
use idkernel.Context.Registry.{Cell}
use idkernel.Context.Kernel.{
  Kernel, cell_of, set_lock, set_context, current_task_id, current_task, with_write, read_context,
  on_context,
}

-- The running task is registered and Nobody holds its lock.
pub record Running (k : Kernel) (c : Cell) : Type 0 where
  pub registered : cell_of k.task_id k ≡ some c
  pub named : k.task_id ≢ 0
  pub free : c.lock ≡ unlocked

-- A result on a context, as one on the kernel.
abbrev pub back : {E A : Type 0} → ℕ → Kernel → Outcome TaskContext E A → Outcome Kernel E A
back id k (ok a ctx) = ok a (set_context id ctx k)
back id k (err e ctx) = err e (set_context id ctx k)
back id k panic = panic
back id k hang = hang

-- Taking the lock, changing the context and releasing the lock changes the context.
lock_write_unlock :
    (id : ℕ) (ctx : TaskContext) (c : Cell) (k : Kernel)
    → cell_of id k ≡ some c
    → c.lock ≡ unlocked
    → set_lock id unlocked (set_context id ctx (set_lock id writing k)) ≡ set_context id ctx k
lock_write_unlock id ctx c k found free =
    ap (λ (m : List (ℕ × Cell)). record k { registry = record (k.registry) { tasks = m } })
      (ap (assoc_map id (λ d. record d { lock = unlocked })) (
          assoc_map-assoc_map id (λ d. record d { context = ctx })
            (λ d. record d { lock = writing }) k.registry.tasks)
        ∙ assoc_map-assoc_map id (λ d. record d { lock = unlocked })
            (λ d. record { lock = writing; context = ctx }) k.registry.tasks
        ∙ assoc_map_congr id (λ d. record { lock = unlocked; context = ctx })
            (λ d. record d { context = ctx }) k.registry.tasks c found (ground arith))

-- Writing back the context that was read changes nothing.
pub set_context_same :
    (id : ℕ) (c : Cell) (k : Kernel) → cell_of id k ≡ some c → set_context id c.context k ≡ k
set_context_same id c k found =
    ap (λ (m : List (ℕ × Cell)). record k { registry = record (k.registry) { tasks = m } })
      (assoc_map_congr id (λ d. record d { context = c.context }) (λ d. d) k.registry.tasks c found
          refl
        ∙ assoc_map-id id k.registry.tasks)

-- Taking a free lock and releasing it changes nothing.
pub lock_unlock :
    (id : ℕ) (c : Cell) (k : Kernel)
    → cell_of id k ≡ some c
    → c.lock ≡ unlocked
    → set_lock id unlocked (set_lock id writing k) ≡ k
lock_unlock id c k found free =
    ap (λ (m : List (ℕ × Cell)). record k { registry = record (k.registry) { tasks = m } })
      (assoc_map-assoc_map id (λ d. record d { lock = unlocked }) (λ d. record d { lock = writing })
          k.registry.tasks
        ∙ assoc_map_congr id (λ d. record d { lock = unlocked }) (λ d. d) k.registry.tasks c found
            (ground arith)
        ∙ assoc_map-id id k.registry.tasks)

module _ (sp : SpinRwLock) {E A : Type 0} where
  pub with_write_context :
      (id : ℕ) (m : Prog TaskContext E A) (c : Cell) (k : Kernel)
      → cell_of id k ≡ some c
      → c.lock ≡ unlocked
      → with_write sp id (on_context id m) k ≡ back id k (m c.context)
  unfolding with_write on_context
  with_write_context id m c k found free = go (m c.context) refl
    where
      inside : cell_of id (set_lock id writing k) ≡ some (record c { lock = writing })
      inside = assoc-map_self id (λ d. record d { lock = writing }) k.registry.tasks found

      go :
          (r : Outcome TaskContext E A)
          → m c.context ≡ r
          → with_write sp id (on_context id m) k ≡ back id k r
      go (ok a ctx) e =
          ground (arith, sp.write_unlocked, inside, lock_write_unlock id ctx c k found free)
      go (err x ctx) e =
          ground (arith, sp.write_unlocked, inside, lock_write_unlock id ctx c k found free)
      go panic e = ground (arith, sp.write_unlocked, inside)
      go hang e = ground (arith, sp.write_unlocked, inside)

  pub on_context-back :
      (id : ℕ) (m : Prog TaskContext E A) (c : Cell) (k : Kernel)
      → cell_of id k ≡ some c
      → on_context id m k ≡ back id k (m c.context)
  unfolding on_context
  on_context-back id m c k found = go (m c.context) refl
    where
      go : (r : Outcome TaskContext E A) → m c.context ≡ r → on_context id m k ≡ back id k r
      go (ok a ctx) e = ground arith
      go (err x ctx) e = ground arith
      go panic e = ground arith
      go hang e = ground arith

  -- A system call that works on the context of its caller, under the caller's lock.
  pub current_write :
      (m : Prog TaskContext E A) (c : Cell) (k : Kernel)
      → Running k c
      → (current_task >>= λ id. with_write sp id (on_context id m)) k
        ≡ back k.task_id k (m c.context)
  unfolding current_task current_task_id
  current_write m c k r =
      ground (arith, r.registered, r.named, with_write_context k.task_id m c k r.registered r.free)

  -- The same under a read lock, released before the context is used.
  pub current_read :
      (m : Prog TaskContext E A) (c : Cell) (k : Kernel)
      → Running k c
      → (current_task >>= λ id. (read_context sp id >>= λ _. on_context id m)) k
        ≡ back k.task_id k (m c.context)
  unfolding current_task current_task_id read_context
  current_read m c k r = ground (
    arith,
    r.registered,
    r.named,
    r.free,
    sp.read_unlocked,
    on_context-back k.task_id m c k r.registered,
  )
