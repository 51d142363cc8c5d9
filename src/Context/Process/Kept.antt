-- ===== src/Context/Process/Kept.antt =====
-- The invariant of the kernel's state under `mypid` and `spawn` of idker/src/context/syscall.rs and
-- the arms `Exit` and `Yield` of idker/src/syscalls/mod.rs.
use idkernel.Base.{
  ℕ, refl, Ensures, Keeps, Steps, bind-Ensures, bind-Keeps, pure-Keeps, get-Keeps, ok_or-Keeps,
  modify-Keeps, pure-Ensures, zoom-Steps,
}
use idkernel.Abi.{wrong_capability}
use idkernel.Capability.Storage.Laws.{empty-IsValid}
use idkernel.File.Storage.Laws.{new-IsValid}
use idkernel.Context.Lock.{SpinRwLock}
use idkernel.Context.Task.{TaskContext, dying, Mappings, create, first_regs}
use idkernel.Context.Registry.{add}
use idkernel.Context.Registry.Kept.{same-Fine, add-Keeps}
use idkernel.Context.Kernel.{Kernel, on_registry, create_task}
use idkernel.Context.Kernel.Kept.{
  current_task_id-Keeps, current_task-Keeps, quiet-Keeps, allocate_pid-Keeps, on_context-Keeps,
  with_write-Keeps,
}
use idkernel.Context.Kernel.Sound.{Fine, Sound}
use idkernel.Context.Kernel.Switching.Kept.{switch_to_next_task-Keeps}
use idkernel.Context.Process.{mypid, spawn_capability, spawn_locked, spawn, exit, yield}

pub mypid-Keeps : {held : ℕ → Type 0} → Keeps (Sound held) mypid
unfolding mypid
mypid-Keeps = current_task_id-Keeps

pub create-Fine :
    (id parent : ℕ) (m : Mappings) (func : ℕ) (memory : ℕ → ℕ)
    → Fine id (create id parent (first_regs func m memory).0 m)
unfolding create
create-Fine id parent m func memory = record {
  identity = refl;
  handles = empty-IsValid;
  descriptors = new-IsValid id;
}

module _ {held : ℕ → Type 0} {Q : Kernel → Type 0} where
  create_task-Ensures :
      {E : Type 0} (m : Mappings) (parent func : ℕ) (k : Kernel)
      → Sound held k
      → Ensures {E = E} (λ c t. Sound held t × Fine c.id c) Q k (create_task m parent func)
  unfolding create_task create
  create_task-Ensures m parent func k s = bind-Ensures (allocate_pid-Keeps.keeps k s) λ id k s.
      bind-Ensures (get-Keeps.keeps k s) λ a k s.
        bind-Ensures
          ((quiet-Keeps (λ x. record x { memory = (first_regs func m a.memory).1 })
              (λ x. refl)).keeps
            k s)
          λ _ k s.
            pure-Ensures (create id parent (first_regs func m a.memory).0 m)
              (s, create-Fine id parent m func a.memory)

  pub adds-Keeps :
      {E : Type 0} (sp : SpinRwLock) (ctx : TaskContext)
      → Fine ctx.id ctx
      → Steps {E = E} (Sound held) Q (on_registry (add sp ctx))
  adds-Keeps sp ctx f =
      zoom-Steps (λ k. k.registry) (λ r k. record k { registry = r }) (add-Keeps held sp ctx f)
        (λ k s. s) λ k r s t. t

module _ (sp : SpinRwLock) {held : ℕ → Type 0} where
  spawn_locked-Keeps :
      (m : Mappings) (entry me : ℕ) → Keeps (Sound held) (spawn_locked sp m entry me)
  unfolding spawn_locked
  spawn_locked-Keeps m entry me = bind-Keeps (on_context-Keeps me get-Keeps) λ task.
      bind-Keeps (ok_or-Keeps (spawn_capability task.capabilities) wrong_capability) λ _.
        bind-Keeps current_task_id-Keeps λ parent. record {
          keeps = λ k s. bind-Ensures (create_task-Ensures m parent entry k s) λ child k g.
              bind-Ensures ((adds-Keeps sp child g.1).keeps k g.0) λ _ k s. pure-Ensures child.id s;
        }

module _ (sp : SpinRwLock) {held : ℕ → Type 0} where
  pub spawn-Keeps : (m : Mappings) (entry : ℕ) → Keeps (Sound held) (spawn sp m entry)
  unfolding spawn
  spawn-Keeps m entry =
      bind-Keeps current_task-Keeps λ me. with_write-Keeps sp me (spawn_locked-Keeps sp m entry me)

  pub exit-Keeps : Keeps (Sound held) (exit sp)
  unfolding exit
  exit-Keeps = bind-Keeps current_task-Keeps λ me.
      bind-Keeps
        (with_write-Keeps sp me (
          on_context-Keeps me
            (modify-Keeps (λ c. record c { state = dying }) λ c f. same-Fine c _ refl refl refl f)))
        λ _. bind-Keeps (switch_to_next_task-Keeps sp held) λ _. pure-Keeps tt

  pub yield-Keeps : Keeps (Sound held) (yield sp)
  unfolding yield
  yield-Keeps = bind-Keeps (switch_to_next_task-Keeps sp held) λ _. pure-Keeps tt
