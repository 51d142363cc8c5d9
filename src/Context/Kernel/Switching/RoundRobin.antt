-- ===== src/Context/Kernel/Switching/RoundRobin.antt =====
-- Which task idker/src/context/mod.rs runs next, and what becomes of the one that stops.
use idkernel.Base.{
  ℕ, ◌≡◌, ◌≢◌, refl, Bool, true, false, none, some, List, [], ◌∷◌, ◌++◌, if◌then◌else◌, ◌==◌, ok,
  ◌>>◌, pure, modify, ◌∙◌, hang, Prog, assoc-map_self, assoc-map_ne, arith, assoc-map, sym, eq_refl,
  ==-ne,
}
use idkernel.Context.Lock.{unlocked, writing, SpinRwLock}
use idkernel.Context.Task.{user, dying}
use idkernel.Context.Registry.{Cell}
use idkernel.Context.Kernel.{Kernel, cell_of, set_lock, current_task_id}
use idkernel.Context.Kernel.Switching.{is_user, pop_next, switch_to, switch_to_next_task}
use idkernel.Context.Regs.Laws.{switch_task_from}
use idkernel.Context.Kernel.Switching.Laws.{Ready, saved, at_hook, switch_to_dying, switch_to_live}

-- What follows the choice of the next task.
abbrev go_on : SpinRwLock → {E : Type 0} → ℕ → ℕ → Prog Kernel E Bool
go_on sp from next =
    if next == from
    then (do modify (set_lock from unlocked); pure false)
    else switch_to sp from next

-- The lock of the running task taken, and a queue in place.
abbrev pub held : List ℕ → Kernel → Kernel
held queue k =
    let k' = set_lock k.task_id writing k in
    record k' { registry = record (k'.registry) { executable_tasks = queue } }

held_running :
    (k : Kernel) (f : Cell) (queue : List ℕ)
    → cell_of k.task_id k ≡ some f
    → cell_of k.task_id (held queue k) ≡ some (record f { lock = writing })
held_running k f queue found =
    assoc-map_self k.task_id (λ c. record c { lock = writing }) k.registry.tasks found

held_waiting :
    (k : Kernel) (t : Cell) (n : ℕ) (queue : List ℕ)
    → n ≢ k.task_id
    → cell_of n k ≡ some t
    → cell_of n (held queue k) ≡ some t
held_waiting k t n queue apart waits =
    assoc-map_ne k.task_id n (λ c. record c { lock = writing }) k.registry.tasks apart ∙ waits

-- The state after a switch from `f` to `t`.
abbrev pub after : ℕ → Cell → Cell → List ℕ → Kernel → Kernel
after n f t queue k = set_lock n unlocked (
    set_lock k.task_id unlocked
      (record (at_hook k.task_id n (record f { lock = writing }) t (held queue k)) {
        switch_locks = none;
      }))

-- The task that is chosen from a queue: its first, or task 1.
abbrev pub first_of_queue : List ℕ → ℕ
first_of_queue [] = 1
first_of_queue (n ∷ queue) = n

module _ (sp : SpinRwLock) {E : Type 0} where
  dying_hangs :
      (k : Kernel) (f t : Cell) (n : ℕ) (queue : List ℕ)
      → Ready k f t n
      → f.context.state ≡ dying
      → go_on sp {E = E} k.task_id n (held queue k) ≡ hang
  dying_hangs k f t n queue r dead = ground (
    arith,
    r.apart,
    switch_to_dying sp {E = E} (held queue k) k.task_id n (record f { lock = writing }) t
        (held_running k f queue r.running) refl dead r.identity r.apart
        (held_waiting k t n queue r.apart r.waiting) r.next_free,
  )

  choice :
      (k : Kernel) (f : Cell) (n : ℕ) (queue : List ℕ)
      → cell_of k.task_id k ≡ some f
      → k.task_id ≢ 0
      → f.lock ≡ unlocked
      → ((if is_user f.context.state
            then k.registry.executable_tasks ++ k.task_id ∷ []
            else k.registry.executable_tasks)
          ≡ n ∷ queue)
      → switch_to_next_task sp {E = E} k ≡ go_on sp k.task_id n (held queue k)
  unfolding switch_to_next_task current_task_id pop_next
  choice k f n queue found named free e = ground (arith, sp.write_unlocked)

  choice_idle :
      (k : Kernel) (f : Cell)
      → cell_of k.task_id k ≡ some f
      → k.task_id ≢ 0
      → f.lock ≡ unlocked
      → is_user f.context.state ≡ false
      → k.registry.executable_tasks ≡ []
      → switch_to_next_task sp {E = E} k ≡ go_on sp k.task_id 1 (held [] k)
  unfolding switch_to_next_task current_task_id pop_next
  choice_idle k f found named free stays e = ground (arith, sp.write_unlocked)

  -- A dying task: the hook waits for the lock that the switch holds.
  pub switch_dying :
      (k : Kernel) (f t : Cell) (queue : List ℕ)
      → Ready k f t (first_of_queue queue)
      → f.context.state ≡ dying
      → k.registry.executable_tasks ≡ queue
      → switch_to_next_task sp {E = E} k ≡ hang
  switch_dying k f t [] r dead e =
      choice_idle k f r.running r.named r.from_free (ground arith) e ∙ dying_hangs k f t 1 [] r dead
  switch_dying k f t (n ∷ queue) r dead e =
      choice k f n queue r.running r.named r.from_free (ground arith)
      ∙ dying_hangs k f t n queue r dead

  pub switch_user :
      (k : Kernel) (f t : Cell) (n : ℕ) (queue : List ℕ)
      → Ready k f t n
      → f.context.state ≡ user
      → k.registry.executable_tasks ≡ n ∷ queue
      → switch_to_next_task sp {E = E} k ≡ ok true (after n f t (queue ++ k.task_id ∷ []) k)
  switch_user k f t n queue r live e =
      choice k f n (queue ++ k.task_id ∷ []) r.running r.named r.from_free (ground arith)
      ∙ ground (
        arith,
        r.apart,
        switch_to_live sp {E = E} (held (queue ++ k.task_id ∷ []) k) k.task_id n
            (record f { lock = writing }) t (held_running k f (queue ++ k.task_id ∷ []) r.running)
            (ground arith) r.apart (held_waiting k t n (queue ++ k.task_id ∷ []) r.apart r.waiting)
            r.next_free,
      )

-- What the state after a switch holds for each task.
pub after_cells :
    (k : Kernel) (f t : Cell) (n : ℕ) (queue : List ℕ)
    → Ready k f t n
    → (cell_of k.task_id (after n f t queue k)
        ≡ some (record { lock = unlocked; context = saved k f.context t.context }))
      × (cell_of n (after n f t queue k) ≡ some t)
      × ((q : ℕ) → q ≢ k.task_id → q ≢ n → cell_of q (after n f t queue k) ≡ cell_of q k)
after_cells k f t n queue r = (
  simp (assoc-map, eq_refl, running_waits, r.running, switch_task_from),
  simp (assoc-map, eq_refl, waiting_runs, r.waiting) (ground (arith, r.next_free)),
  λ q x y. simp (assoc-map, ==-ne q k.task_id x, ==-ne q n y),
)
  where
    running_waits : (k.task_id == n) ≡ false
    running_waits = ==-ne k.task_id n (λ e. r.apart (sym e))

    waiting_runs : (n == k.task_id) ≡ false
    waiting_runs = ==-ne n k.task_id r.apart
