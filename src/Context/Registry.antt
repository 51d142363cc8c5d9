-- ===== src/Context/Registry.antt =====
-- idker/src/context/registry.rs: `TaskRegistry`, a `BTreeMap` from task ids to locked contexts (an
-- association list here, since nothing iterates over it) and the queue of tasks to run.
pub mod Laws
pub mod Entries
pub mod Kept
use idkernel.Base.{
  ℕ, Bool, true, false, Option, none, some, List, [], ◌∷◌, ◌++◌, ◌==◌, position, remove_at, assoc,
  assoc_set, assoc_remove, Outcome, ok, Prog, ◌>>=◌, ◌>>◌, pure, get, modify, unwrap, assert,
  spin_until,
}
use idkernel.Context.Lock.{Lock, unlocked, SpinRwLock}
use idkernel.Context.Task.{TaskContext}

-- What an `Arc<RwLock<TaskContext>>` points to.
pub record Cell : Type 0 where
  pub lock : Lock
  pub context : TaskContext

pub record Registry : Type 0 where
  pub tasks : List (ℕ × Cell)
  pub executable_tasks : List ℕ

unfoldable pub new : Registry
new = record { tasks = []; executable_tasks = [] }

abbrev pub is_none : {A : Type 0} → Option A → Bool
is_none none = true
is_none (some a) = false

abbrev pub with_tasks : (List (ℕ × Cell) → List (ℕ × Cell)) → Registry → Registry
with_tasks f r = record r { tasks = f r.tasks }

-- `children.iter().position(…)` and `children.remove(index)`.
abbrev pub drop_child : ℕ → TaskContext → TaskContext
drop_child id c = elim (position (λ x. x == id) c.children) [
  | none ↦ c
  | some index ↦ record c { children = remove_at index c.children }
]

abbrev pub push_child : ℕ → TaskContext → TaskContext
push_child id c = record c { children = c.children ++ id ∷ [] }

unfoldable pub get_task : ℕ → Registry → Option Cell
get_task id r = assoc id r.tasks

module _ (sp : SpinRwLock) where
  -- A write under the lock of a cell, released at once.
  unfoldable pub write_cell :
      {E : Type 0} → ℕ → Cell → (TaskContext → TaskContext) → Prog Registry E (Unit {0})
  write_cell id cell f = do
    spin_until (sp.grants_write cell.lock)
    modify (with_tasks (assoc_set id (record cell { context = f cell.context })))

  unfoldable pub add_to_parent : {E : Type 0} → ℕ → Option ℕ → Prog Registry E (Unit {0})
  add_to_parent id none = pure tt
  add_to_parent id (some p) = do
    r ← get
    parent ← unwrap (assoc p r.tasks)
    write_cell p parent (push_child id)

  unfoldable pub add : {E : Type 0} → TaskContext → Prog Registry E (Unit {0})
  add ctx = do
    r ← get
    let cell : Cell = record { lock = unlocked; context = ctx }
    assert (is_none (assoc ctx.id r.tasks))
    modify (with_tasks (λ m. m ++ (ctx.id, cell) ∷ []))
    add_to_parent ctx.id ctx.parent

  unfoldable pub remove_from_parent : {E : Type 0} → ℕ → Option ℕ → Prog Registry E (Unit {0})
  remove_from_parent id none r = ok tt r
  remove_from_parent id (some p) r = elim (assoc p r.tasks) [
    | none ↦ pure tt r
    | some parent ↦ write_cell p parent (drop_child id) r
  ]

  unfoldable pub remove : {E : Type 0} → ℕ → Prog Registry E (Option Cell)
  remove id r = elim (assoc id r.tasks) [
    | none ↦ pure none r
    | some cell ↦
        (do
          modify (with_tasks (assoc_remove id))
          spin_until (sp.grants_read cell.lock)
          remove_from_parent cell.context.id cell.context.parent
          pure (some cell))
          r
  ]

unfoldable pub queue_for_execution : {E : Type 0} → ℕ → Prog Registry E (Unit {0})
queue_for_execution id = modify (λ r. record r { executable_tasks = r.executable_tasks ++ id ∷ [] })
