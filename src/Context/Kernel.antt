-- ===== src/Context/Kernel.antt =====
-- idker/src/context/mod.rs and task.rs: the kernel's state on one processor, and what its code
-- does to it: drawing pids, finding the running task, taking its lock, and switching tasks.
-- The lock of the registry itself is held only inside a registry operation and is left out.
pub mod Switching
pub mod Laws
pub mod Guarantees
pub mod Sound
pub mod Kept
pub mod Tables
use idkernel.Base.{
  ℕ, ◌+◌, ◌-◌, ◌^◌, ◌%◌, Bool, true, false, not, Option, none, some, List, [], ◌∷◌, ◌++◌,
  if◌then◌else◌, ◌==◌, assoc, assoc_map, Outcome, ok, err, panic, hang, Prog, ◌>>=◌, ◌>>◌, pure,
  get, modify, unwrap, assert, spin_until, zoom,
}
use idkernel.Context.Lock.{Lock, unlocked, writing, SpinRwLock}
use idkernel.Context.Regs.{ContextRegs, Switched, switch_task}
use idkernel.Context.Task.{
  TaskContext, TaskState, sleepy, user, dying, Mappings, first_regs, create,
}
use idkernel.Context.Registry.{Registry, Cell, with_tasks}
use idkernel.Context.Registry

pub record Kernel : Type 0 where
  pub registry : Registry
  pub task_id : ℕ
  pub next_pid : ℕ
  pub switch_locks : Option (ℕ × ℕ)
  pub cpu : ContextRegs
  pub memory : ℕ → ℕ
  -- What the processor has in RFLAGS where a switch saves them, given the two page tables and the
  -- flags at the entry of the switch. No code changes it.
  pub flags_after : ℕ → ℕ → ℕ → ℕ

abbrev pub on_registry : {E A : Type 0} → Prog Registry E A → Prog Kernel E A
on_registry = zoom (λ k. k.registry) (λ r k. record k { registry = r })

abbrev pub cell_of : ℕ → Kernel → Option Cell
cell_of id k = assoc id k.registry.tasks

-- A change of the cell of a task, wherever its `Arc` is held.
abbrev pub map_cell : ℕ → (Cell → Cell) → Kernel → Kernel
map_cell id f k = record k { registry = with_tasks (assoc_map id f) k.registry }

abbrev pub set_lock : ℕ → Lock → Kernel → Kernel
set_lock id l = map_cell id (λ c. record c { lock = l })

abbrev pub set_context : ℕ → TaskContext → Kernel → Kernel
set_context id ctx = map_cell id (λ c. record c { context = ctx })

-- `allocate_pid`: `fetch_add` wraps.
unfoldable pub allocate_pid : {E : Type 0} → Prog Kernel E ℕ
allocate_pid = do
  k ← get
  let raw = k.next_pid
  modify (λ s. record s { next_pid = (raw + 1) % 2 ^ 64 })
  assert (not (raw == 2 ^ 64 - 1))
  pure raw

-- `TaskContext::create`.
unfoldable pub create_task : {E : Type 0} → Mappings → ℕ → ℕ → Prog Kernel E TaskContext
create_task m parent func = do
  id ← allocate_pid
  k ← get
  let (regs, memory) = first_regs func m k.memory
  modify (λ s. record s { memory = memory })
  pure (create id parent regs m)

unfoldable pub current_task_id : {E : Type 0} → Prog Kernel E ℕ
current_task_id = do k ← get; assert (not (k.task_id == 0)); pure k.task_id

-- `current_task`: its id stands for the `Arc`.
unfoldable pub current_task : {E : Type 0} → Prog Kernel E ℕ
current_task = do id ← current_task_id; k ← get; _ ← unwrap (cell_of id k); pure id

-- A guard is dropped where its scope ends, early returns included.
abbrev pub releasing : {E A : Type 0} → ℕ → Outcome Kernel E A → Outcome Kernel E A
releasing id (ok a k) = ok a (set_lock id unlocked k)
releasing id (err e k) = err e (set_lock id unlocked k)
releasing id panic = panic
releasing id hang = hang

-- Code on the context of a task.
unfoldable pub on_context : {E A : Type 0} → ℕ → Prog TaskContext E A → Prog Kernel E A
on_context id m k = elim (cell_of id k) [
  | none ↦ panic
  | some c ↦ elim (m c.context) [
    | ok a ctx ↦ ok a (set_context id ctx k)
    | err e ctx ↦ err e (set_context id ctx k)
    | panic ↦ panic
    | hang ↦ hang
  ]
]

module _ (sp : SpinRwLock) where
  -- `let guard = task.write();` and the rest of the scope.
  unfoldable pub with_write : {E A : Type 0} → ℕ → Prog Kernel E A → Prog Kernel E A
  with_write id body k = elim (cell_of id k) [
    | none ↦ panic
    | some c ↦
        let rest = releasing id (body (set_lock id writing k)) in
        elim (sp.grants_write c.lock) [ true ↦ rest | false ↦ hang ]
  ]

  -- `task.read()` for one look at the context.
  unfoldable pub read_context : {E : Type 0} → ℕ → Prog Kernel E TaskContext
  read_context id k = elim (cell_of id k) [
    | none ↦ panic
    | some c ↦ elim (sp.grants_read c.lock) [ true ↦ ok c.context k | false ↦ hang ]
  ]
