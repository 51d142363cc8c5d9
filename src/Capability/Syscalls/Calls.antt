-- ===== src/Capability/Syscalls/Calls.antt =====
-- The invariant of the kernel's state under the system calls of idker/src/capability/syscall.rs.
use idkernel.Base.{
  ℕ, Bool, Option, ◌==◌, Keeps, bind-Keeps, pure-Keeps, get-Keeps, ok_or-Keeps, guard-Keeps,
  fail_if-Keeps, if-Keeps,
}
use idkernel.Abi.{wrong_parameters, wrong_process}
use idkernel.Capability.Data.{Capability}
use idkernel.Capability.Storage.Kept.{delete-Keeps, insert-Keeps}
use idkernel.Capability.Syscalls.{
  is_child_of, receive, clone, inspect, restrict, cdrop, hand_out, process_share_transfer,
}
use idkernel.Capability.Syscalls.Kept.{
  clone_in-Keeps, inspect_in-Keeps, restrict_in-Keeps, cdrop_in-Keeps, share_out-Keeps,
}
use idkernel.Context.Lock.{SpinRwLock}
use idkernel.Context.Kernel.{cell_of}
use idkernel.Context.Kernel.Kept.{
  current_task_id-Keeps, current_task-Keeps, read_context-Keeps, on_context-Keeps, with_write-Keeps,
}
use idkernel.Context.Kernel.Sound.{Fine, Sound}
use idkernel.Context.Kernel.Tables.{on_capabilities-Keeps, held_capabilities-Keeps}

receive-Keeps :
    (id : ℕ) (reserved : Bool) (me : ℕ) (cap : Capability)
    → Keeps (Fine id) (receive reserved me cap)
unfolding receive
receive-Keeps id reserved me cap = bind-Keeps get-Keeps λ target.
    bind-Keeps (guard-Keeps (is_child_of me target) wrong_process)
      λ _. bind-Keeps (on_capabilities-Keeps id (insert-Keeps reserved cap)) λ _. pure-Keeps tt

module _ (sp : SpinRwLock) {held : ℕ → Type 0} where
  pub clone-Keeps : (reserved : Bool) (h : ℕ) → Keeps (Sound held) (clone sp reserved h)
  unfolding clone
  clone-Keeps reserved h =
      bind-Keeps current_task-Keeps λ me. held_capabilities-Keeps sp me (clone_in-Keeps reserved h)

  pub inspect-Keeps : (what index : ℕ) → Keeps (Sound held) (inspect sp what index)
  unfolding inspect
  inspect-Keeps what index = bind-Keeps current_task-Keeps λ me.
      bind-Keeps (read_context-Keeps sp me)
        λ _. on_context-Keeps me (on_capabilities-Keeps me (inspect_in-Keeps what index))

  pub restrict-Keeps :
      (try_new : ℕ → Option ℕ) (h a b : ℕ) → Keeps (Sound held) (restrict sp try_new h a b)
  unfolding restrict
  restrict-Keeps try_new h a b =
      bind-Keeps current_task-Keeps
        λ me. held_capabilities-Keeps sp me (restrict_in-Keeps try_new h a b)

  pub cdrop-Keeps : (h : ℕ) → Keeps (Sound held) (cdrop sp h)
  unfolding cdrop
  cdrop-Keeps h =
      bind-Keeps current_task-Keeps λ me. held_capabilities-Keeps sp me (cdrop_in-Keeps h)

  hand_out-Keeps : (h : ℕ) (transfer : Bool) → Keeps (Sound held) (hand_out sp h transfer)
  unfolding hand_out
  hand_out-Keeps h transfer = bind-Keeps current_task-Keeps λ me.
      if-Keeps transfer (held_capabilities-Keeps sp me (delete-Keeps h)) (
        bind-Keeps (read_context-Keeps sp me)
          λ _. on_context-Keeps me (on_capabilities-Keeps me (share_out-Keeps h)))

  pub process_share_transfer-Keeps :
      (reserved : Bool) (proc h : ℕ) (transfer : Bool)
      → Keeps (Sound held) (process_share_transfer sp reserved proc h transfer)
  unfolding process_share_transfer
  process_share_transfer-Keeps reserved proc h transfer =
      bind-Keeps (fail_if-Keeps (proc == 0) wrong_parameters) λ _.
        bind-Keeps current_task_id-Keeps λ me.
          bind-Keeps (fail_if-Keeps (proc == me) wrong_process) λ _.
            bind-Keeps (hand_out-Keeps h transfer) λ cap. bind-Keeps get-Keeps λ k.
              bind-Keeps (ok_or-Keeps (cell_of proc k) wrong_process) λ _.
                with_write-Keeps sp proc
                  (on_context-Keeps proc (receive-Keeps proc reserved me cap))
