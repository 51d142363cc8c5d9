-- ===== src/Context/Registry/Laws.antt =====
-- Adding a task to the registry of idker/src/context/registry.rs and removing it.
use idkernel.Base.{
  ℕ, ◌≡◌, ◌≢◌, refl, ◌∙◌, ap, none, some, List, [], ◌∷◌, ◌++◌, ◌==◌, position, remove_at, assoc,
  assoc_set, ok, ◌>>=◌, arith, assoc-append, assoc-append_none, assoc_remove-set_append,
  assoc_set-assoc_set, assoc_set_same, assoc-set_self, assoc-set_ne, sym, length, >>=-ok,
}
use idkernel.Context.Lock.{unlocked, SpinRwLock}
use idkernel.Context.Task.{TaskContext}
use idkernel.Context.Registry.{
  Cell, Registry, get_task, add, add_to_parent, write_cell, remove, remove_from_parent, push_child,
  drop_child,
}

abbrev pub fresh_cell : TaskContext → Cell
fresh_cell ctx = record { lock = unlocked; context = ctx }

abbrev pub parent_of : Cell → ℕ → Cell
parent_of p id = record p { context = push_child id p.context }

-- The registry with a child added.
abbrev pub with_child : TaskContext → ℕ → Cell → Registry → Registry
with_child ctx p parent r = record r {
  tasks = assoc_set p (parent_of parent ctx.id) (r.tasks ++ (ctx.id, fresh_cell ctx) ∷ []);
}

position-push :
    (id : ℕ) (children : List ℕ)
    → position (λ x. x == id) children ≡ none
    → position (λ x. x == id) (children ++ id ∷ []) ≡ some (length children)
position-push id [] e = ground arith
position-push id (c ∷ cs) e = ground (arith, position-push id cs)

remove_at-push :
    (id : ℕ) (children : List ℕ) → remove_at (length children) (children ++ id ∷ []) ≡ children
remove_at-push id [] = refl
remove_at-push id (c ∷ cs) = ap (◌∷◌ c) (remove_at-push id cs)

drop-push :
    (id : ℕ) (c : TaskContext)
    → position (λ x. x == id) c.children ≡ none
    → drop_child id (push_child id c) ≡ c
drop-push id c e = ground (arith, position-push id c.children e, remove_at-push id c.children)

module _ (sp : SpinRwLock) {E : Type 0} where
  -- A new task with a registered, unlocked parent gets an entry, and its parent one more child.
  pub add_child :
      (ctx : TaskContext) (p : ℕ) (parent : Cell) (r : Registry)
      → ctx.parent ≡ some p
      → get_task ctx.id r ≡ none
      → get_task p r ≡ some parent
      → parent.lock ≡ unlocked
      → add sp {E = E} ctx r ≡ ok tt (with_child ctx p parent r)
  unfolding add add_to_parent write_cell get_task
  add_child ctx p parent r e free there open_lock = ground (
    arith,
    sp.write_unlocked,
    assoc-append p r.tasks ((ctx.id, fresh_cell ctx) ∷ []) parent there,
  )

  -- For a task with a free id whose parent is registered, unlocked and does not have it as a child,
  -- adding it and removing it again succeeds, returns its cell and gives back the registry as it
  -- was.
  pub remove-add :
      (ctx : TaskContext) (p : ℕ) (parent : Cell) (r : Registry)
      → ctx.parent ≡ some p
      → get_task ctx.id r ≡ none
      → get_task p r ≡ some parent
      → parent.lock ≡ unlocked
      → position (λ x. x == ctx.id) parent.context.children ≡ none
      → (add sp {E = E} ctx >>= λ _. remove sp ctx.id) r ≡ ok (some (fresh_cell ctx)) r
  unfolding remove remove_from_parent write_cell get_task
  remove-add ctx p parent r e free there open_lock new =
      >>=-ok (add sp ctx) (λ _. remove sp ctx.id) r
        (add_child ctx p parent r e free there open_lock)
      ∙ ground (
        arith,
        e,
        sp.read_unlocked,
        sp.write_unlocked,
        found,
        assoc_remove-set_append ctx.id p (fresh_cell ctx) adult parent r.tasks free there,
        assoc-set_self p adult parent r.tasks there,
        assoc_set-assoc_set p parent adult r.tasks,
        assoc_set_same p parent r.tasks there,
        drop-push ctx.id parent.context new,
      )
    where
      adult : Cell
      adult = parent_of parent ctx.id

      apart : ctx.id ≢ p
      apart same = let q = sym (ap (λ i. assoc i r.tasks) same) ∙ free in cc

      found : assoc ctx.id (with_child ctx p parent r).tasks ≡ some (fresh_cell ctx)
      found =
          assoc-set_ne p ctx.id adult (r.tasks ++ (ctx.id, fresh_cell ctx) ∷ []) apart
          ∙ assoc-append_none ctx.id r.tasks ((ctx.id, fresh_cell ctx) ∷ []) free
          ∙ ground arith
