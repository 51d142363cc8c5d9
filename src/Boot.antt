-- ===== src/Boot.antt =====
-- idker/src/main.rs: `run_executor`, which makes the first tasks and then switches for ever. The
-- page table in use and where the stacks of the first process lie come in from outside, as does the
-- built-in directory.
pub mod Laws
use idkernel.Base.{ℕ, none, List, [], ◌∷◌, Str, Prog, ◌>>=◌, ◌>>◌, pure, modify}
use idkernel.Context.Lock.{SpinRwLock}
use idkernel.Context.Regs.{ContextRegs}
use idkernel.Context.Registry
use idkernel.Context.Registry.{add, queue_for_execution}
use idkernel.Context.Task.{TaskContext, Mappings, create_init}
use idkernel.Context.Kernel.{Kernel, on_registry, create_task}
use idkernel.Context.Kernel.Switching.{switch_to_next_task}
use idkernel.File.InitFs.{InitDir, from_init_dir}
use idkernel.File.ProcFs.{mount}

-- "init".
abbrev pub init : Str
init = 105 ∷ 110 ∷ 105 ∷ 116 ∷ []

-- The statics of idker/src/context/ before anything has run, with the processor's registers, its
-- change of the flags in a switch, and the memory.
unfoldable pub before : ContextRegs → (ℕ → ℕ → ℕ → ℕ) → (ℕ → ℕ) → Kernel
before cpu flags_after memory = record {
  registry = Registry.new;
  task_id = 0;
  next_pid = 2;
  switch_locks = none;
  cpu = cpu;
  memory = memory;
  flags_after = flags_after;
}

unfoldable pub set_current_task_id : {E : Type 0} → ℕ → Prog Kernel E (Unit {0})
set_current_task_id id = modify (λ k. record k { task_id = id })

-- The root of a new task with the built-in directory mounted.
unfoldable pub with_init_directory : InitDir → TaskContext → TaskContext
with_init_directory dir ctx = record ctx {
  files = record (ctx.files) { root = mount init (from_init_dir dir init) ctx.files.root };
}

module _ (sp : SpinRwLock) where
  -- The `unsafe` block of `run_executor`; `entry` is the address of `start_initproc`.
  unfoldable pub make_first_tasks :
      {E : Type 0} → ℕ → Mappings → ℕ → InitDir → Prog Kernel E (Unit {0})
  make_first_tasks frame m entry dir = do
    let init_task = create_init frame
    on_registry (add sp init_task)
    set_current_task_id init_task.id
    ctx ← create_task m init_task.id entry
    on_registry (add sp (with_init_directory dir ctx))
    on_registry (queue_for_execution ctx.id)

  -- One round of its loop. Where nothing was switched to the processor sleeps until an interrupt.
  unfoldable pub executor_round : {E : Type 0} → Prog Kernel E (Unit {0})
  executor_round = do _ ← switch_to_next_task sp; pure tt
