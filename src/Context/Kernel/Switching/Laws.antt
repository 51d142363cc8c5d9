-- ===== src/Context/Kernel/Switching/Laws.antt =====
-- One switch of idker/src/context/mod.rs, of a task that goes on and of a dying one.
use idkernel.Base.{
  ℕ, ◌≡◌, ◌≢◌, refl, true, none, some, ok, ◌>>◌, pure, >>=-ok, >>=-hang, ◌∙◌, hang, assoc-map_self,
  assoc-map_ne, arith, assoc_map, sym, ap,
}
use idkernel.Context.Lock.{unlocked, writing, SpinRwLock}
use idkernel.Context.Regs.{switch_task}
use idkernel.Context.Regs.Laws.{switch_task_from}
use idkernel.Context.Task.{TaskContext, dying}
use idkernel.Context.Registry.{Cell, remove}
use idkernel.Context.Kernel.{Kernel, cell_of, set_lock}
use idkernel.Context.Kernel.Switching.{switched, after_task_switch, switch_to}

-- The running task and the one to run next, both registered, distinct and unlocked.
pub record Ready (k : Kernel) (from next : Cell) (n : ℕ) : Type 0 where
  pub running : cell_of k.task_id k ≡ some from
  pub waiting : cell_of n k ≡ some next
  pub apart : n ≢ k.task_id
  pub named : k.task_id ≢ 0
  pub identity : from.context.id ≡ k.task_id
  pub from_free : from.lock ≡ unlocked
  pub next_free : next.lock ≡ unlocked

-- The state in which the hook runs.
abbrev pub at_hook : ℕ → ℕ → Cell → Cell → Kernel → Kernel
at_hook from n f t k =
    switched from n f t
      (record (set_lock n writing k) { task_id = n; switch_locks = some (from, n) })

-- The context of the task that stops, its registers saved: those of the processor, without the page
-- table, and with the flags as they are after the comparison.
abbrev pub saved : Kernel → TaskContext → TaskContext → TaskContext
saved k f t = record f {
  arch_regs = record (k.cpu) {
    cr3 = f.arch_regs.cr3;
    rflags = k.flags_after k.cpu.cr3 t.arch_regs.cr3 k.cpu.rflags;
  };
}

stopped :
    (k : Kernel) (from n : ℕ) (f t : Cell)
    → cell_of from k ≡ some f
    → n ≢ from
    → cell_of from (at_hook from n f t k)
      ≡ some (record f { context = saved k f.context t.context })
stopped k from n f t found apart =
    assoc-map_self from
      (λ c. record c {
        context = record (f.context) {
          arch_regs =
              (switch_task k.flags_after f.context.arch_regs t.context.arch_regs k.cpu).from;
        };
      })
      (assoc_map n (λ c. record c { lock = writing }) k.registry.tasks)
      (assoc-map_ne n from (λ c. record c { lock = writing }) k.registry.tasks (λ e. apart (sym e))
        ∙ found)
    ∙ ap (λ r. some (record f { context = record (f.context) { arch_regs = r } }))
        (switch_task_from k.flags_after f.context.arch_regs t.context.arch_regs k.cpu)

module _ (sp : SpinRwLock) where
  module _ {E : Type 0} where
    after_switch_dying :
        (k : Kernel) (from next : ℕ) (f : Cell)
        → k.switch_locks ≡ some (from, next)
        → cell_of from k ≡ some f
        → f.lock ≡ writing
        → f.context.state ≡ dying
        → f.context.id ≡ from
        → after_task_switch sp {E = E} k ≡ hang
    unfolding after_task_switch remove
    after_switch_dying k from next f arcs found held dead name = ground (arith, sp.read_writing)

    after_switch_live :
        (k : Kernel) (from next : ℕ) (f : Cell)
        → k.switch_locks ≡ some (from, next)
        → cell_of from k ≡ some f
        → f.context.state ≢ dying
        → after_task_switch sp {E = E} k
          ≡ ok tt
              (set_lock next unlocked (set_lock from unlocked (record k { switch_locks = none })))
    unfolding after_task_switch
    after_switch_live k from next f arcs found alive = ground arith

    switch_to_hook :
        (k : Kernel) (from n : ℕ) (f t : Cell)
        → cell_of from k ≡ some f
        → cell_of n k ≡ some t
        → t.lock ≡ unlocked
        → switch_to sp {E = E} from n k ≡ (after_task_switch sp >> pure true) (at_hook from n f t k)
    unfolding switch_to
    switch_to_hook k from n f t found waits free = ground (arith, sp.write_unlocked)

    pub switch_to_dying :
        (k : Kernel) (from n : ℕ) (f t : Cell)
        → cell_of from k ≡ some f
        → f.lock ≡ writing
        → f.context.state ≡ dying
        → f.context.id ≡ from
        → n ≢ from
        → cell_of n k ≡ some t
        → t.lock ≡ unlocked
        → switch_to sp {E = E} from n k ≡ hang
    switch_to_dying k from n f t found held dead name apart waits free =
        switch_to_hook k from n f t found waits free
        ∙ >>=-hang (after_task_switch sp) (λ _. pure true) (at_hook from n f t k)
            (after_switch_dying (at_hook from n f t k) from n _ refl
              (stopped k from n f t found apart) held dead name)

    pub switch_to_live :
        (k : Kernel) (from n : ℕ) (f t : Cell)
        → cell_of from k ≡ some f
        → f.context.state ≢ dying
        → n ≢ from
        → cell_of n k ≡ some t
        → t.lock ≡ unlocked
        → switch_to sp {E = E} from n k
          ≡ ok true (
              set_lock n unlocked
                (set_lock from unlocked (record (at_hook from n f t k) { switch_locks = none })))
    switch_to_live k from n f t found alive apart waits free =
        switch_to_hook k from n f t found waits free
        ∙ >>=-ok (after_task_switch sp) (λ _. pure true) (at_hook from n f t k)
            (after_switch_live (at_hook from n f t k) from n _ refl
              (stopped k from n f t found apart) alive)
