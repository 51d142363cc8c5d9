-- ===== src/Capability/Syscalls/Transfer.antt =====
-- `process_share_transfer` of idker/src/capability/syscall.rs: which capability goes where.
use idkernel.Base.{
  ℕ, ◌+◌, ◌<◌, ◌^◌, ◌≡◌, ◌≢◌, ◌⊎◌, inl, inr, ◌∙◌, ap, Bool, true, false, none, some, if◌then◌else◌,
  Outcome, ok, err, Prog, arith, Option-cases, assoc-map_ne, ◌>>=◌, get, ok_or,
}
use idkernel.Abi.{SyscallError, wrong_capability, wrong_capability_perms, wrong_process}
use idkernel.Capability.Data.{Capability}
use idkernel.Capability.Storage.{Storage, lookup, delete}
use idkernel.Capability.Storage.Laws.{inserted, deleted, insert_lem, delete_lem}
use idkernel.Capability.Syscalls.{
  on_capabilities, share_out, is_child_of, receive, hand_out, process_share_transfer,
}
use idkernel.Capability.Syscalls.Laws.{on_table, with_table, with_capabilities, table_write}
use idkernel.Context.Lock.{SpinRwLock, unlocked}
use idkernel.Context.Task.{TaskContext}
use idkernel.Context.Registry.{Cell}
use idkernel.Context.Kernel.{Kernel, cell_of, set_context, current_task_id, with_write, on_context}
use idkernel.Context.Kernel.Laws.{
  Running, back, current_write, current_read, with_write_context, set_context_same,
}

-- What leaves the table of the caller: a transfer takes the capability out and looks at no
-- permission, a share wants `SHAREABLE`.
abbrev pub handed : Bool → ℕ → Storage → Outcome Storage SyscallError Capability
handed transfer h caps = elim (lookup h caps) [
  | none ↦ err wrong_capability caps
  | some cap ↦
      if transfer
      then ok cap (deleted h caps)
      else if cap.perms.shareable
      then ok cap caps
      else err wrong_capability_perms caps
]

share_out_lem : (h : ℕ) (caps : Storage) → share_out h caps ≡ handed false h caps
unfolding share_out
share_out_lem h caps = elim (Option-cases (lookup h caps)) [
  | inl missing ↦ ground arith
  | inr (cap, found) ↦ ground arith
]

receive_stranger :
    (reserved : Bool) (me : ℕ) (cap : Capability) (target : TaskContext)
    → is_child_of me target ≡ false
    → receive reserved me cap target ≡ err wrong_process target
unfolding receive
receive_stranger reserved me cap target e = ground arith

receive_child :
    (me : ℕ) (cap : Capability) (target : TaskContext)
    → is_child_of me target ≡ true
    → target.capabilities.next_handle + 1 < 2 ^ 64
    → receive true me cap target
      ≡ ok tt (with_capabilities target (inserted cap target.capabilities))
unfolding receive
receive_child me cap target e room = ground (arith, insert_lem true cap target.capabilities room)

module _ (sp : SpinRwLock) (k : Kernel) (c : Cell) (running : Running k c) where
  hand_out_lem :
      (h : ℕ) (transfer : Bool)
      → hand_out sp h transfer k ≡ on_table k c (handed transfer h c.context.capabilities)
  unfolding hand_out
  hand_out_lem h true =
      current_write sp (on_capabilities (delete h)) c k running
      ∙ table_write sp k c running (delete h)
      ∙ ground (arith, delete_lem h c.context.capabilities)
  hand_out_lem h false =
      current_read sp (on_capabilities (share_out h)) c k running
      ∙ table_write sp k c running (share_out h)
      ∙ ap (on_table k c) (share_out_lem h c.context.capabilities)

  -- The rest of the call, once the capability is in hand.
  deliver : ℕ → Bool → ℕ → Capability → Prog Kernel SyscallError (Unit {0})
  deliver me reserved proc cap = do
    s ← get
    _ ← ok_or (cell_of proc s) wrong_process
    with_write sp proc (on_context proc (receive reserved me cap))

  call_deliver :
      (reserved transfer : Bool) (proc h : ℕ) (cap : Capability) (caps : Storage)
      → proc ≢ 0
      → proc ≢ k.task_id
      → handed transfer h c.context.capabilities ≡ ok cap caps
      → process_share_transfer sp reserved proc h transfer k
        ≡ deliver k.task_id reserved proc cap (with_table sp k c running caps)
  unfolding process_share_transfer current_task_id deliver
  call_deliver reserved transfer proc h cap caps named other e =
      ground (arith, hand_out_lem h transfer, running.named)

  -- The target is not touched by what the caller gives away.
  target_cell :
      (proc : ℕ) (caps : Storage)
      → proc ≢ k.task_id
      → cell_of proc (with_table sp k c running caps) ≡ cell_of proc k
  target_cell proc caps other =
      assoc-map_ne k.task_id proc (λ d. record d { context = with_capabilities c.context caps })
        k.registry.tasks other

  deliver_missing :
      (reserved : Bool) (proc : ℕ) (cap : Capability) (s : Kernel)
      → cell_of proc s ≡ none
      → deliver k.task_id reserved proc cap s ≡ err wrong_process s
  unfolding deliver
  deliver_missing reserved proc cap s e = ground arith

  deliver_found :
      (reserved : Bool) (proc : ℕ) (cap : Capability) (t : Cell) (s : Kernel)
      → cell_of proc s ≡ some t
      → t.lock ≡ unlocked
      → deliver k.task_id reserved proc cap s
        ≡ back proc s (receive reserved k.task_id cap t.context)
  unfolding deliver
  deliver_found reserved proc cap t s e free =
      ground (arith, with_write_context sp proc (receive reserved k.task_id cap) t s e free)

  -- A target that is not registered, or is not a child of the caller.
  abbrev pub NotChild : ℕ → Type 0
  NotChild proc =
      (cell_of proc k ≡ none)
      ⊎ ((t : Cell) × (cell_of proc k ≡ some t)
          × (t.lock ≡ unlocked)
          × (is_child_of k.task_id t.context ≡ false))

  -- Let the running task be registered and unlocked, with a nonzero id, and hold a capability. A
  -- transfer of it to another nonzero id that is not registered, or is registered and unlocked but
  -- not a child of the caller, fails with `wrong_process`, and the capability is gone from the
  -- caller's table all the same.
  pub transfer_lost :
      (reserved : Bool) (proc h : ℕ) (cap : Capability)
      → lookup h c.context.capabilities ≡ some cap
      → proc ≢ 0
      → proc ≢ k.task_id
      → NotChild proc
      → process_share_transfer sp reserved proc h true k
        ≡ err wrong_process (with_table sp k c running (deleted h c.context.capabilities))
  transfer_lost reserved proc h cap found named other (inl missing) =
      let caps = deleted h c.context.capabilities in
      call_deliver reserved true proc h cap caps named other (ground arith)
      ∙ deliver_missing reserved proc cap _ (target_cell proc caps other ∙ missing)
  transfer_lost reserved proc h cap found named other (inr (t, there, free, stranger)) =
      let caps = deleted h c.context.capabilities in
      let s = with_table sp k c running caps in
      let at : cell_of proc s ≡ some t = target_cell proc caps other ∙ there in
      call_deliver reserved true proc h cap caps named other (ground arith)
      ∙ deliver_found reserved proc cap t s at free
      ∙ ap (back proc s) (receive_stranger reserved k.task_id cap t.context stranger)
      ∙ ap (err wrong_process) (set_context_same proc t s at)

  -- Let the running task be registered and unlocked, with a nonzero id, and let another task with a
  -- nonzero id be registered, unlocked and its child, empty or not, with room for one more handle
  -- and memory for it. If the caller may hand the capability out (for a share it is there and
  -- shareable, for a transfer it is there), the call succeeds: the child gets the capability under
  -- its next handle, and the caller's table is unchanged by a share and without the handle after a
  -- transfer.
  pub hand_to_child :
      (transfer : Bool) (proc h : ℕ) (cap : Capability) (caps : Storage) (t : Cell)
      → proc ≢ 0
      → proc ≢ k.task_id
      → handed transfer h c.context.capabilities ≡ ok cap caps
      → cell_of proc k ≡ some t
      → t.lock ≡ unlocked
      → is_child_of k.task_id t.context ≡ true
      → t.context.capabilities.next_handle + 1 < 2 ^ 64
      → process_share_transfer sp true proc h transfer k
        ≡ ok tt (
            set_context proc
              (with_capabilities t.context (inserted cap t.context.capabilities))
              (with_table sp k c running caps))
  hand_to_child transfer proc h cap caps t named other e there free child room =
      let s = with_table sp k c running caps in
      call_deliver true transfer proc h cap caps named other e
      ∙ deliver_found true proc cap t s (target_cell proc caps other ∙ there) free
      ∙ ap (back proc s) (receive_child k.task_id cap t.context child room)
