-- ===== src/Capability/Syscalls.antt =====
-- idker/src/capability/syscall.rs: the system calls on capabilities. `reserved` is the allocator's
-- answer to the one `try_reserve` of a call, `try_new` the checked constructor of the x86_64
-- crate's `PhysAddr`.
pub mod Laws
pub mod Kept
pub mod Calls
pub mod Transfer
use idkernel.Base.{
  ℕ, ◌+◌, Bool, true, false, not, ◌||◌, Option, none, some, if◌then◌else◌, ◌==◌, ltb, length,
  get_elem?, Outcome, ok, err, panic, hang, Prog, ◌>>=◌, ◌>>◌, pure, fail, get, modify, ok_or,
  unwrap, guard, fail_if, zoom,
}
use idkernel.Abi.{
  SyscallError, not_implemented, wrong_parameters, wrong_capability, wrong_capability_perms,
  wrong_process,
}
use idkernel.Capability.Data.{
  Capability, CapabilityType, map_physical, map_virtual_to_ram, process_spawn, channel_create,
  Perms, bits, cap_id,
}
use idkernel.Capability.Storage.{Storage, insert, lookup, write_back, delete}
use idkernel.Context.Lock.{SpinRwLock}
use idkernel.Context.Task.{TaskContext}
use idkernel.Context.Registry.{Cell}
use idkernel.Context.Kernel.{
  Kernel, cell_of, current_task_id, current_task, with_write, read_context, on_context,
}

-- A method of the capability table of a context.
abbrev pub on_capabilities : {E A : Type 0} → Prog Storage E A → Prog TaskContext E A
on_capabilities = zoom (λ c. c.capabilities) (λ s c. record c { capabilities = s })

unfoldable pub clone_in : Bool → ℕ → Prog Storage SyscallError ℕ
clone_in reserved cap_handle = do
  caps ← get
  cap ← ok_or (lookup cap_handle caps) wrong_capability
  guard cap.perms.duplicate wrong_capability_perms
  insert reserved cap

unfoldable pub inspect_in : ℕ → ℕ → Prog Storage SyscallError (ℕ × ℕ)
inspect_in what index caps =
    if what == 0
    then ok (length caps.handles, 0) caps
    else if what == 1
    then elim (get_elem? caps.handles index) [
      | some x ↦ ok (x.0, cap_id x.1.ctype) caps
      | none ↦ err wrong_parameters caps
    ]
    else if what == 2
    then elim (lookup index caps) [
      | some x ↦ ok (bits x.perms, cap_id x.ctype) caps
      | none ↦ err wrong_capability caps
    ]
    else err wrong_parameters caps

module _ (try_new : ℕ → Option ℕ) where
  -- The branch of `restrict` for physical ranges.
  unfoldable pub restrict_range : ℕ → ℕ → ℕ → ℕ → Prog CapabilityType SyscallError (Unit {0})
  restrict_range a b from to = do
    fail_if (ltb b a) wrong_parameters
    nfrom ← ok_or (try_new a) wrong_parameters
    nto ← ok_or (try_new b) wrong_parameters
    fail_if (ltb nfrom from || ltb to nto) wrong_parameters
    modify (λ _. map_physical nfrom nto)

  unfoldable pub restrict_type : ℕ → ℕ → Prog CapabilityType SyscallError (Unit {0})
  restrict_type a b (map_physical from to) = restrict_range a b from to (map_physical from to)
  restrict_type a b map_virtual_to_ram = err not_implemented map_virtual_to_ram
  restrict_type a b process_spawn = err wrong_parameters process_spawn
  restrict_type a b channel_create = err wrong_parameters channel_create

  -- `get_mut`, and the branches writing through it.
  unfoldable pub restrict_in : ℕ → ℕ → ℕ → Prog Storage SyscallError (Unit {0})
  restrict_in handle a b caps = elim (lookup handle caps) [
    | none ↦ err wrong_capability caps
    | some cap ↦ elim (restrict_type a b cap.ctype) [
      | ok u t ↦ ok u (write_back handle (record cap { ctype = t }) caps)
      | err e t ↦ err e (write_back handle (record cap { ctype = t }) caps)
      | panic ↦ panic
      | hang ↦ hang
    ]
  ]

unfoldable pub cdrop_in : ℕ → Prog Storage SyscallError (Unit {0})
cdrop_in handle = do _ ← delete handle; pure tt

-- The capability to share, read from the table of the caller.
unfoldable pub share_out : ℕ → Prog Storage SyscallError Capability
share_out cap_handle = do
  caps ← get
  cap ← ok_or (lookup cap_handle caps) wrong_capability
  guard cap.perms.shareable wrong_capability_perms
  pure cap

-- `target.parent != Some(me)`.
abbrev pub is_child_of : ℕ → TaskContext → Bool
is_child_of me target = elim target.parent [ none ↦ false | some p ↦ p == me ]

-- What happens under the lock of the target.
unfoldable pub receive : Bool → ℕ → Capability → Prog TaskContext SyscallError (Unit {0})
receive reserved me cap = do
  target ← get
  guard (is_child_of me target) wrong_process
  _ ← on_capabilities (insert reserved cap)
  pure tt

module _ (sp : SpinRwLock) where
  unfoldable pub clone : Bool → ℕ → Prog Kernel SyscallError ℕ
  clone reserved cap_handle = do
    me ← current_task
    with_write sp me (on_context me (on_capabilities (clone_in reserved cap_handle)))

  unfoldable pub inspect : ℕ → ℕ → Prog Kernel SyscallError (ℕ × ℕ)
  inspect what index = do
    me ← current_task
    _ ← read_context sp me
    on_context me (on_capabilities (inspect_in what index))

  unfoldable pub restrict : (ℕ → Option ℕ) → ℕ → ℕ → ℕ → Prog Kernel SyscallError (Unit {0})
  restrict try_new handle a b = do
    me ← current_task
    with_write sp me (on_context me (on_capabilities (restrict_in try_new handle a b)))

  unfoldable pub cdrop : ℕ → Prog Kernel SyscallError (Unit {0})
  cdrop handle = do
    me ← current_task
    with_write sp me (on_context me (on_capabilities (cdrop_in handle)))

  -- The first half of `process_share_transfer`: the capability that is handed on.
  unfoldable pub hand_out : ℕ → Bool → Prog Kernel SyscallError Capability
  hand_out cap_handle transfer = do
    me ← current_task
    if transfer
        then with_write sp me (on_context me (on_capabilities (delete cap_handle)))
        else (do _ ← read_context sp me; on_context me (on_capabilities (share_out cap_handle)))

  unfoldable pub process_share_transfer : Bool → ℕ → ℕ → Bool → Prog Kernel SyscallError (Unit {0})
  process_share_transfer reserved proc cap_handle transfer = do
    fail_if (proc == 0) wrong_parameters
    me ← current_task_id
    fail_if (proc == me) wrong_process
    cap ← hand_out cap_handle transfer
    k ← get
    _ ← ok_or (cell_of proc k) wrong_process
    with_write sp proc (on_context proc (receive reserved me cap))
