-- ===== src/Context/Process.antt =====
-- idker/src/context/syscall.rs (`mypid`, `spawn`) and the arms `Exit` and `Yield` of
-- `on_symcall_1` in idker/src/syscalls/mod.rs.
pub mod Laws
pub mod Fairness
pub mod Kept
use idkernel.Base.{
  ℕ, Bool, true, false, Option, none, some, Outcome, Prog, ◌>>=◌, ◌>>◌, pure, get, modify, ok_or,
  find,
}
use idkernel.Abi.{SyscallError, wrong_capability}
use idkernel.Capability.{Capability, is_process_spawn}
use idkernel.Capability.Storage.{Storage}
use idkernel.Context.Lock.{SpinRwLock}
use idkernel.Context.Registry.{Cell, add}
use idkernel.Context.Task.{TaskContext, dying, Mappings}
use idkernel.Context.Kernel.{
  Kernel, cell_of, on_registry, current_task_id, current_task, with_write, on_context, create_task,
}
use idkernel.Context.Kernel.Switching.{switch_to_next_task}

unfoldable pub mypid : Prog Kernel SyscallError ℕ
mypid = current_task_id

-- The first capability that allows to spawn.
unfoldable pub spawn_capability : Storage → Option (ℕ × Capability)
spawn_capability caps = find (λ x. is_process_spawn x.1.ctype) caps.handles

module _ (sp : SpinRwLock) where
  -- The body of `spawn`, which runs under the lock of the caller. `m` is where the stacks and the
  -- page table of the child lie, `entry` the address of `jmp_userspace`.
  unfoldable pub spawn_locked : Mappings → ℕ → ℕ → Prog Kernel SyscallError ℕ
  spawn_locked m entry me = do
    task ← on_context me get
    _ ← ok_or (spawn_capability task.capabilities) wrong_capability
    parent ← current_task_id
    child ← create_task m parent entry
    _ ← on_registry (add sp child)
    pure child.id

  unfoldable pub spawn : Mappings → ℕ → Prog Kernel SyscallError ℕ
  spawn m entry = do me ← current_task; with_write sp me (spawn_locked m entry me)

  unfoldable pub exit : Prog Kernel SyscallError (Unit {0})
  exit = do
    me ← current_task
    _ ← with_write sp me (on_context me (modify (λ c. record c { state = dying })))
    _ ← switch_to_next_task sp
    pure tt

  unfoldable pub yield : Prog Kernel SyscallError (Unit {0})
  yield = do _ ← switch_to_next_task sp; pure tt
