-- ===== src/Context/Process/Laws.antt =====
-- How the process system calls of idker/src/context/syscall.rs and the arms `Exit` and `Yield` of
-- idker/src/syscalls/mod.rs end.
use idkernel.Base.{
  ℕ, ◌+◌, ◌^◌, ◌-◌, ◌%◌, ap, ◌≡◌, ◌≢◌, refl, ◌∙◌, none, some, List, [], ◌∷◌, ◌++◌, Outcome, ok, err,
  hang, panic, get, modify, assoc, assoc-map_self, assoc-map_ne, assoc-map, assoc-append, arith,
  if◌then◌else◌, ◌==◌, Option-cases, Bool-cases, inl, inr,
}
use idkernel.Abi.{SyscallError, wrong_capability}
use idkernel.Capability.{Capability}
use idkernel.Context.Lock.{SpinRwLock, unlocked, writing}
use idkernel.Context.Regs.Laws.{switch_task_cpu}
use idkernel.Context.Registry.{Registry, Cell, add, add_to_parent, write_cell}
use idkernel.Context.Task.{TaskContext, dying, user, Mappings, create, first_regs}
use idkernel.Context.Kernel.{
  Kernel, cell_of, set_lock, set_context, current_task_id, current_task, with_write, on_context,
  create_task, allocate_pid,
}
use idkernel.Context.Kernel.Laws.{
  Running, with_write_context, on_context-back, set_context_same, lock_unlock,
}
use idkernel.Context.Kernel.Switching.Laws.{Ready}
use idkernel.Context.Kernel.Switching.RoundRobin.{
  after, switch_dying, switch_user, after_cells, first_of_queue,
}
use idkernel.Context.Process.{spawn_capability, spawn_locked, spawn, exit, yield}

module _ (sp : SpinRwLock) where
  -- The registry waits for the lock of the parent when it adds a child.
  add_locked :
      {E : Type 0} (r : Registry) (ctx : TaskContext) (p : ℕ) (parent : Cell)
      → ctx.parent ≡ some p
      → assoc ctx.id r.tasks ≡ none
      → assoc p r.tasks ≡ some parent
      → parent.lock ≡ writing
      → add sp {E = E} ctx r ≡ hang
  unfolding add add_to_parent write_cell
  add_locked r ctx p parent e free there held = ground (
    arith,
    sp.write_writing,
    assoc-append p r.tasks ((ctx.id, record { lock = unlocked; context = ctx }) ∷ []) parent there,
  )

  add_taken :
      {E : Type 0} (r : Registry) (ctx : TaskContext) (other : Cell)
      → assoc ctx.id r.tasks ≡ some other
      → add sp {E = E} ctx r ≡ panic
  unfolding add
  add_taken r ctx other there = ground arith

  -- How a call of `spawn` ends once the capability was found.
  abbrev pub spawn_end : Kernel → Outcome Kernel SyscallError ℕ
  spawn_end k =
      if k.next_pid == 2 ^ 64 - 1
      then panic
      else elim (cell_of k.next_pid k) [ none ↦ hang | some _ ↦ panic ]

  -- The child that `TaskContext::create` makes, and the kernel after it.
  abbrev child_of : Mappings → ℕ → ℕ → Kernel → TaskContext
  child_of m parent entry k = create k.next_pid parent (first_regs entry m k.memory).0 m

  abbrev started : Mappings → ℕ → Kernel → Kernel
  started m entry k = record k {
    next_pid = (k.next_pid + 1) % 2 ^ 64;
    memory = (first_regs entry m k.memory).1;
  }

  create_task_lem :
      {E : Type 0} (m : Mappings) (parent entry : ℕ) (k : Kernel)
      → create_task {E = E} m parent entry k ≡ (
          if k.next_pid == 2 ^ 64 - 1
          then panic
          else ok (child_of m parent entry k) (started m entry k))
  unfolding create_task allocate_pid
  create_task_lem m parent entry k = ground arith

  look :
      (k : Kernel) (c : Cell)
      → cell_of k.task_id k ≡ some c
      → on_context {E = SyscallError} k.task_id get k ≡ ok c.context k
  look k c there =
      on_context-back sp k.task_id get c k there
      ∙ ap (ok c.context) (set_context_same k.task_id c k there)

  spawn_locked_end :
      (m : Mappings) (entry : ℕ) (k : Kernel) (c : Cell) (x : ℕ × Capability)
      → cell_of k.task_id k ≡ some c
      → c.lock ≡ writing
      → k.task_id ≢ 0
      → spawn_capability c.context.capabilities ≡ some x
      → spawn_locked sp m entry k.task_id k ≡ spawn_end k
  unfolding spawn_locked current_task_id create
  spawn_locked_end m entry k c x there held named found =
      elim (Bool-cases (k.next_pid == 2 ^ 64 - 1)) [
        | inl last ↦
            ground (arith, look k c there, create_task_lem {E = SyscallError} m k.task_id entry k)
        | inr more ↦ elim (Option-cases (cell_of k.next_pid k)) [
          | inl free ↦ ground (
            arith,
            look k c there,
            create_task_lem {E = SyscallError} m k.task_id entry k,
            add_locked {E = SyscallError} k.registry (child_of m k.task_id entry k) k.task_id c,
          )
          | inr (other, taken) ↦ ground (
            arith,
            look k c there,
            create_task_lem {E = SyscallError} m k.task_id entry k,
            add_taken {E = SyscallError} k.registry (child_of m k.task_id entry k) other,
          )
        ]
      ]

  spawn_end_locked : (id : ℕ) (k : Kernel) → spawn_end (set_lock id writing k) ≡ spawn_end k
  spawn_end_locked id k =
      ground (arith, assoc-map id k.next_pid (λ c. record c { lock = writing }) k.registry.tasks)

  -- With nothing to spawn with, the body looks at the caller and changes nothing.
  spawn_locked_refused :
      (m : Mappings) (entry : ℕ) (k : Kernel) (c : Cell)
      → cell_of k.task_id k ≡ some c
      → spawn_capability c.context.capabilities ≡ none
      → spawn_locked sp m entry k.task_id k ≡ err wrong_capability k
  unfolding spawn_locked
  spawn_locked_refused m entry k c there missing = ground (arith, look k c there)

  -- Let the running task be registered and unlocked, with a nonzero id. Then `spawn` returns no
  -- child: without a capability to spawn it fails with `wrong_capability` and changes nothing; with
  -- one it panics if the next pid is the last number or is taken, and otherwise never ends, since
  -- the registry waits for the lock of the parent that `spawn` itself holds.
  pub spawn_lem :
      (m : Mappings) (entry : ℕ) (k : Kernel) (c : Cell)
      → Running k c
      → spawn sp m entry k ≡ elim (spawn_capability c.context.capabilities) [
        | none ↦ err wrong_capability k
        | some _ ↦ spawn_end k
      ]
  unfolding spawn with_write current_task current_task_id
  spawn_lem m entry k c r =
      let locked = set_lock k.task_id writing k in
      let held = record c { lock = writing } in
      let inside : cell_of k.task_id locked ≡ some held =
        assoc-map_self k.task_id (λ d. record d { lock = writing }) k.registry.tasks r.registered in
      elim (Option-cases (spawn_capability c.context.capabilities)) [
        | inl missing ↦ ground (
          arith,
          r.registered,
          r.named,
          r.free,
          sp.write_unlocked,
          spawn_locked_refused m entry locked held inside missing,
          lock_unlock k.task_id c k r.registered r.free,
        )
        | inr (x, found) ↦ ground (
          arith,
          r.registered,
          r.named,
          r.free,
          sp.write_unlocked,
          spawn_locked_end m entry locked held x inside refl r.named found,
          spawn_end_locked k.task_id k,
        )
      ]

  -- Let the running task and the task that would run next (the first of the queue, task 1 if it is
  -- empty) be registered, distinct and unlocked, and the running one have its own, nonzero id. Then
  -- `exit` never ends: it marks the caller as dying, and the hook after the switch removes the
  -- caller from the registry, which waits for the lock of the caller that the switch still holds.
  pub exit_hangs :
      (k : Kernel) (c t : Cell)
      → Ready k c t (first_of_queue k.registry.executable_tasks)
      → exit sp k ≡ hang
  unfolding exit current_task current_task_id
  exit_hangs k c t r =
      let gone = record (c.context) { state = dying } in
      let k' = set_context k.task_id gone k in
      let n = first_of_queue k.registry.executable_tasks in
      let ready : Ready k' (record c { context = gone }) t n = record {
        running =
            assoc-map_self k.task_id (λ d. record d { context = gone }) k.registry.tasks r.running;
        waiting =
            assoc-map_ne k.task_id n (λ d. record d { context = gone }) k.registry.tasks r.apart
            ∙ r.waiting;
        apart = r.apart;
        named = r.named;
        identity = r.identity;
        from_free = r.from_free;
        next_free = r.next_free;
      } in
      ground (
        arith,
        r.running,
        r.named,
        with_write_context sp {E = SyscallError} k.task_id
            (modify (λ d. record d { state = dying })) c k r.running r.from_free,
        switch_dying sp {E = SyscallError} k' (record c { context = gone }) t
            k.registry.executable_tasks ready refl refl,
      )

  -- Let the running task be in user state and the queue start with another task, both registered,
  -- unlocked and distinct, the running one under its own, nonzero id. Then `yield` succeeds: the
  -- first task of the queue is current and runs on its saved registers, the caller is the last of
  -- the queue with all registers of the processor saved, but that its page table is the one of its
  -- context and its flags are the ones that the processor has after the comparison of page tables,
  -- and the locks of both are free, and every other task is as before.
  pub yield_round_robin :
      (k : Kernel) (c t : Cell) (n : ℕ) (queue : List ℕ)
      → Ready k c t n
      → c.context.state ≡ user
      → k.registry.executable_tasks ≡ n ∷ queue
      → (k' : Kernel) × (yield sp k ≡ ok tt k')
        × (k'.task_id ≡ n)
        × (k'.registry.executable_tasks ≡ queue ++ k.task_id ∷ [])
        × (k'.cpu ≡ t.context.arch_regs)
        × (cell_of k.task_id k'
            ≡ some (record {
              lock = unlocked;
              context = record (c.context) {
                arch_regs = record (k.cpu) {
                  cr3 = c.context.arch_regs.cr3;
                  rflags = k.flags_after k.cpu.cr3 t.context.arch_regs.cr3 k.cpu.rflags;
                };
              };
            }))
        × (cell_of n k' ≡ some t)
        × ((q : ℕ) → q ≢ k.task_id → q ≢ n → cell_of q k' ≡ cell_of q k)
  unfolding yield
  yield_round_robin k c t n queue r live e =
      let q = queue ++ k.task_id ∷ [] in
      let (from_cell, next_cell, others) = after_cells k c t n q r in
      (
        after n c t q k,
        ground (arith, switch_user sp {E = SyscallError} k c t n queue r live e),
        refl,
        refl,
        switch_task_cpu k.flags_after c.context.arch_regs t.context.arch_regs k.cpu,
        from_cell,
        next_cell,
        others,
      )
