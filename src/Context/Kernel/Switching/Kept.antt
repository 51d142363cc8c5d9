-- ===== src/Context/Kernel/Switching/Kept.antt =====
-- The invariant of the kernel's state under the task switch of idker/src/context/mod.rs.
use idkernel.Base.{
  ℕ, arith, ◌≡◌, inl, inr, refl, ◌∙◌, sym, ap, Bool, true, false, none, some, List, [], ◌∷◌,
  if◌then◌else◌, ◌==◌, ok, ◌>>=◌, ◌>>◌, pure, modify, spin_until, Ends, Ensures, Steps,
  bind-Ensures, get-Ensures, unwrap-Ensures, modify-Ensures, pure-Ensures, bind-Keeps, pure-Keeps,
  Ends-Keeps, zoom-Steps, if-Keeps, spin_until-Keeps, get-Keeps, unwrap-Keeps,
}
use idkernel.Context.Lock.{SpinRwLock, unlocked, writing}
use idkernel.Context.Registry.{Cell, remove}
use idkernel.Context.Registry.Kept.{same-Fine, remove-Keeps}
use idkernel.Context.Kernel.{Kernel, cell_of, on_registry, set_lock}
use idkernel.Context.Kernel.Sound.{Fine, Sound, Holding, lock-Sound, unlock-Sound, context-Sound}
use idkernel.Context.Kernel.Kept.{same-Sound, current_task_id-Keeps, quiet-Keeps}
use idkernel.Context.Kernel.Switching.{
  is_user, is_dying, push_back, pop_next, switched, after_task_switch, switch_to,
  switch_to_next_task,
}

-- More tasks may be locked.
weaken-Sound :
    {held held' : ℕ → Type 0} (k : Kernel)
    → ((q : ℕ) → held q → held' q)
    → Sound held k
    → Sound held' k
weaken-Sound k w s = record {
  unique = s.unique;
  fine = s.fine;
  free = λ q c e. elim (s.free q c e) [ inl h ↦ inl (w q h) | inr f ↦ inr f ];
}

module _ (held : ℕ → Type 0) where
  -- Both tasks of a switch may be locked.
  abbrev pub Both : ℕ → ℕ → ℕ → Type 0
  Both from next = Holding from (Holding next held)

  swap-Holding : (from next q : ℕ) → Holding next (Holding from held) q → Both from next q
  swap-Holding from next q (inl (inl h)) = inl (inl h)
  swap-Holding from next q (inl (inr here)) = inr here
  swap-Holding from next q (inr here) = inl (inr here)

module _ (held : ℕ → Type 0) {Q : Kernel → Type 0} where
  unlocks-Keeps :
      {E : Type 0} (id : ℕ) (k : Kernel)
      → Sound (Holding id held) k
      → Ensures {E = E} (λ _ t. Sound held t) Q k (modify (set_lock id unlocked))
  unlocks-Keeps id k s = modify-Ensures (set_lock id unlocked) (unlock-Sound id k s)

  pop_next-Keeps : {E : Type 0} → Steps {E = E} (Sound held) Q pop_next
  unfolding pop_next
  pop_next-Keeps {E} = Ends-Keeps pop_next λ k s. go k s k.registry.executable_tasks
    where
      go :
          (k : Kernel)
          → Sound held k
          → (queue : List ℕ)
          → Ends {E = E} {A = ℕ}
              (λ _ t. Sound held t)
              Q
              (elim queue [
                | [] ↦ ok 1 k
                | next ∷ rest ↦
                    ok next
                      (record k { registry = record (k.registry) { executable_tasks = rest } })
              ])
      go k s [] = s
      go k s (next ∷ rest) = s

  removes-Keeps :
      {E : Type 0} (sp : SpinRwLock) (id : ℕ)
      → Steps {E = E} (Sound held) Q (on_registry (remove sp id))
  removes-Keeps sp id =
      zoom-Steps (λ k. k.registry) (λ r k. record k { registry = r }) (remove-Keeps held sp id)
        (λ k s. s) (λ k r s t. t)

-- What stands once the locks of both are taken and the switch is recorded.
abbrev Recorded : (ℕ → Type 0) → ℕ → ℕ → Kernel → Type 0
Recorded held from next k = Sound (Both held from next) k × (k.switch_locks ≡ some (from, next))

module _ (sp : SpinRwLock) (held : ℕ → Type 0) {E : Type 0} {Q : Kernel → Type 0} where
  after_task_switch-Ensures :
      (from next : ℕ) (k : Kernel)
      → k.switch_locks ≡ some (from, next)
      → Sound (Both held from next) k
      → Ensures {E = E} (λ _ t. Sound held t) Q k (after_task_switch sp)
  unfolding after_task_switch
  after_task_switch-Ensures from next k e s =
      bind-Ensures {P' = λ a t. (a ≡ k) × (t ≡ k)} (get-Ensures (refl, refl)) λ a t g.
        bind-Ensures {P' = λ arcs u. (arcs ≡ (from, next)) × (u ≡ k)}
          (unwrap-Ensures a.switch_locks λ arcs f. (known a arcs g.0 f, g.1))
          λ arcs u h.
            bind-Ensures {P' = λ _ v. Sound (Both held from next) v}
              (modify-Ensures (λ x. record x { switch_locks = none }) (rw h.1 s))
              λ _ v sound.
                bind-Ensures {P' = λ _ w. Sound (Both held from next) w}
                  (unwrap-Ensures (cell_of arcs.0 a) λ _ _. sound)
                  λ f w sound.
                    bind-Ensures {P' = λ _ x. Sound (Both held from next) x}
                      ((leaves f).keeps w sound) λ _ x sound. rest arcs x h.0 sound
    where
      known : (a : Kernel) (arcs : ℕ × ℕ) → a ≡ k → a.switch_locks ≡ some arcs → arcs ≡ (from, next)
      known a arcs same f = ground (arith, sym f ∙ ap (λ (x : Kernel). x.switch_locks) same ∙ e)

      leaves :
          (f : Cell)
          → Steps {E = E} (Sound (Both held from next)) Q (
              if is_dying f.context.state
              then (do _ ← on_registry (remove sp f.context.id); pure tt)
              else pure tt)
      leaves f =
          if-Keeps (is_dying f.context.state)
            (bind-Keeps (removes-Keeps (Both held from next) sp f.context.id) λ _. pure-Keeps tt)
            (pure-Keeps tt)

      rest :
          (arcs : ℕ × ℕ) (x : Kernel)
          → arcs ≡ (from, next)
          → Sound (Both held from next) x
          → Ensures {E = E}
              (λ _ t. Sound held t)
              Q
              x
              (do modify (set_lock arcs.0 unlocked); modify (set_lock arcs.1 unlocked))
      rest arcs x e sound =
          bind-Ensures {P' = λ _ y. Sound (Holding next held) y}
            (modify-Ensures (set_lock arcs.0 unlocked) (rw e (unlock-Sound from x sound)))
            λ _ y sound.
              modify-Ensures (set_lock arcs.1 unlocked) (rw e (unlock-Sound next y sound))

  switch_to-Keeps :
      (from next : ℕ) (k : Kernel)
      → Sound (Holding from held) k
      → Ensures {E = E} (λ _ t. Sound held t) Q k (switch_to sp from next)
  unfolding switch_to
  switch_to-Keeps from next k s =
      bind-Ensures {P' = λ a t. (a ≡ k) × (t ≡ k)} (get-Ensures (refl, refl)) λ a t g.
        bind-Ensures {P' = λ _ u. u ≡ k} (unwrap-Ensures (cell_of next a) λ _ _. g.1) λ c u same.
          bind-Ensures {P' = λ f u. (u ≡ k) × Fine from f.context}
            (unwrap-Ensures (cell_of from a)
              λ f found. (same, s.fine from f (ap (cell_of from) (sym g.0) ∙ found)))
            λ f u h.
              bind-Ensures {P' = λ _ v. v ≡ k} (spun u h.0 (sp.grants_write c.lock)) λ _ v same.
                bind-Ensures {P' = λ _ w. Sound (Both held from next) w}
                  (modify-Ensures (set_lock next writing) (
                    rw same (
                      weaken-Sound (set_lock next writing k) (swap-Holding held from next)
                        (lock-Sound next k writing s))))
                  λ _ w sound.
                    bind-Ensures {P' = λ _ x. Recorded held from next x}
                      (modify-Ensures
                        (λ x. record x { task_id = next; switch_locks = some (from, next) })
                        (
                          same-Sound w
                              (record w { task_id = next; switch_locks = some (from, next) }) refl
                              sound,
                          refl,
                        ))
                      λ _ x r.
                        bind-Ensures {P' = λ _ y. Recorded held from next y}
                          (modify-Ensures (switched from next f c) (moved f c h.1 x r))
                          λ _ y r.
                            bind-Ensures {P' = λ _ z. Sound held z}
                              (after_task_switch-Ensures from next y r.1 r.0)
                              λ _ z sound. pure-Ensures true sound
    where
      spun : (u : Kernel) → u ≡ k → (b : Bool) → Ensures {E = E} (λ _ t. t ≡ k) Q u (spin_until b)
      spun u e true = record { ends = e }
      spun u e false = record { ends = tt }

      moved :
          (f c : Cell)
          → Fine from f.context
          → (x : Kernel) → Recorded held from next x
          → Recorded held from next (switched from next f c x)
      moved f c fine x r =
          (context-Sound from x _ (same-Fine f.context _ refl refl refl fine) r.0, r.1)

  pub switch_to_next_task-Keeps : Steps {E = E} (Sound held) Q (switch_to_next_task sp)
  unfolding switch_to_next_task
  switch_to_next_task-Keeps = record {
    keeps = λ k s. bind-Ensures (current_task_id-Keeps.keeps k s) λ from k s.
        bind-Ensures (get-Keeps.keeps k s) λ a k s.
          bind-Ensures ((unwrap-Keeps (cell_of from a)).keeps k s) λ f k s.
            bind-Ensures ((spin_until-Keeps (sp.grants_write f.lock)).keeps k s) λ _ k s.
              bind-Ensures {P' = λ _ k. Sound (Holding from held) k}
                (modify-Ensures (set_lock from writing) (lock-Sound from k writing s))
                λ _ k s.
                  bind-Ensures ((requeued from f (is_user f.context.state)).keeps k s) λ _ k s.
                    bind-Ensures ((pop_next-Keeps (Holding from held)).keeps k s)
                      λ next k s. chosen from next k s (next == from);
  }
    where
      requeued :
          (from : ℕ) (f : Cell) (b : Bool)
          → Steps {E = E}
              (Sound (Holding from held))
              Q
              (modify (if b then push_back from else (λ s. s)))
      requeued from f true = quiet-Keeps (push_back from) λ k. refl
      requeued from f false = quiet-Keeps (λ s. s) λ k. refl

      chosen :
          (from next : ℕ) (k : Kernel)
          → Sound (Holding from held) k
          → (b : Bool)
          → Ensures {E = E}
              (λ _ t. Sound held t)
              Q
              k
              (if b
                then (do modify (set_lock from unlocked); pure false)
                else switch_to sp from next)
      chosen from next k s true =
          bind-Ensures (unlocks-Keeps held from k s) λ _ k s. pure-Ensures false s
      chosen from next k s false = switch_to-Keeps from next k s
