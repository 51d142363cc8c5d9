-- ===== src/Context/Kernel/Switching.antt =====
-- idker/src/context/mod.rs: `switch_to_next_task` and `after_task_switch`. The state is followed
-- up to where the next task runs.
pub mod Laws
pub mod RoundRobin
pub mod Kept
use idkernel.Base.{
  ℕ, Bool, true, false, Option, none, some, List, [], ◌∷◌, ◌++◌, if◌then◌else◌, ◌==◌, Outcome, ok,
  err, panic, hang, Prog, ◌>>=◌, ◌>>◌, pure, get, modify, unwrap, spin_until,
}
use idkernel.Context.Lock.{Lock, unlocked, writing, SpinRwLock}
use idkernel.Context.Regs.{ContextRegs, Switched, switch_task}
use idkernel.Context.Task.{TaskContext, TaskState, sleepy, user, dying}
use idkernel.Context.Registry.{Registry, Cell, remove}
use idkernel.Context.Kernel.{
  Kernel, on_registry, cell_of, map_cell, set_lock, set_context, current_task_id,
}

abbrev pub is_user : TaskState → Bool
is_user user = true
is_user sleepy = false
is_user dying = false

abbrev pub is_dying : TaskState → Bool
is_dying dying = true
is_dying user = false
is_dying sleepy = false

abbrev pub push_back : ℕ → Kernel → Kernel
push_back id k = record k {
  registry = record (k.registry) { executable_tasks = k.registry.executable_tasks ++ id ∷ [] };
}

-- `pop_front`, and task 1 where the queue is empty.
unfoldable pub pop_next : {E : Type 0} → Prog Kernel E ℕ
pop_next k = elim k.registry.executable_tasks [
  | [] ↦ ok 1 k
  | next ∷ rest ↦ ok next (record k { registry = record (k.registry) { executable_tasks = rest } })
]

-- The two contexts and the processor after `switch_task`.
abbrev pub switched : ℕ → ℕ → Cell → Cell → Kernel → Kernel
switched from next f t k =
    let s = switch_task k.flags_after f.context.arch_regs t.context.arch_regs k.cpu in
    let k1 = set_context from (record (f.context) { arch_regs = s.from }) k in
    record k1 { cpu = s.cpu }

module _ (sp : SpinRwLock) where
  unfoldable pub after_task_switch : {E : Type 0} → Prog Kernel E (Unit {0})
  after_task_switch = do
    k ← get
    arcs ← unwrap k.switch_locks
    modify (λ s. record s { switch_locks = none })
    f ← unwrap (cell_of arcs.0 k)
    if is_dying f.context.state
        then (do _ ← on_registry (remove sp f.context.id); pure tt)
        else pure tt
    modify (set_lock arcs.0 unlocked)
    modify (set_lock arcs.1 unlocked)

  -- From the choice of the next task on, with the lock of the running one held.
  unfoldable pub switch_to : {E : Type 0} → ℕ → ℕ → Prog Kernel E Bool
  switch_to from next = do
    k ← get
    t ← unwrap (cell_of next k)
    f ← unwrap (cell_of from k)
    spin_until (sp.grants_write t.lock)
    modify (set_lock next writing)
    modify (λ s. record s { task_id = next; switch_locks = some (from, next) })
    modify (switched from next f t)
    after_task_switch
    pure true

  unfoldable pub switch_to_next_task : {E : Type 0} → Prog Kernel E Bool
  switch_to_next_task = do
    from ← current_task_id
    k ← get
    f ← unwrap (cell_of from k)
    spin_until (sp.grants_write f.lock)
    modify (set_lock from writing)
    modify (if is_user f.context.state then push_back from else (λ s. s))
    next ← pop_next
    if next == from then (do modify (set_lock from unlocked); pure false) else switch_to from next
