-- ===== src/Context/Registry/Kept.antt =====
-- The invariant of the tasks under the operations of idker/src/context/registry.rs.
use idkernel.Base.{
  ℕ, ◌≡◌, ◌⊎◌, inl, inr, refl, ◌∙◌, sym, ap, subst, Bool, true, false, Option, none, some, List, [],
  ◌∷◌, ◌++◌, ◌==◌, assoc, assoc_set, assoc_remove, position, remove_at, arith, ◌>>◌, pure, modify,
  Ends, Ensures, Steps, bind-Ensures, get-Ensures, unwrap-Ensures, assert-Ensures, modify-Ensures,
  spin_until, spin_until-Keeps, bind-Keeps, pure-Keeps, modify-Keeps, Ends-Keeps,
}
use idkernel.Context.Registry.Entries.{
  assoc_set-Unique, assoc_set_found, assoc_remove-Unique, assoc_remove_found, append-Unique,
  append_found,
}
use idkernel.Context.Lock.{SpinRwLock, unlocked}
use idkernel.Context.Task.{TaskContext}
use idkernel.Context.Registry.{
  Registry, Cell, with_tasks, add, add_to_parent, write_cell, push_child, drop_child, remove,
  remove_from_parent, is_none,
}
use idkernel.Context.Kernel.Sound.{Fine, SoundTasks}

-- Fineness is about the id and the two tables.
pub same-Fine :
    {id : ℕ} (c c' : TaskContext)
    → c'.id ≡ c.id
    → c'.capabilities ≡ c.capabilities
    → c'.files ≡ c.files
    → Fine id c
    → Fine id c'
same-Fine c c' e f g h = record {
  identity = e ∙ h.identity;
  handles = rw f h.handles;
  descriptors = rw g h.descriptors;
}

module _ {held : ℕ → Type 0} where
  set-Sound :
      (id : ℕ) (cell : Cell) (tasks : List (ℕ × Cell))
      → SoundTasks held tasks
      → Fine id cell.context
      → held id ⊎ (cell.lock ≡ unlocked)
      → SoundTasks held (assoc_set id cell tasks)
  set-Sound id cell tasks s fine free = record {
    unique = assoc_set-Unique id cell tasks s.unique;
    fine = λ q c e. elim (assoc_set_found q id cell tasks c e) [
      | inl (here, same) ↦ rw (here, same) fine
      | inr found ↦ s.fine q c found
    ];
    free = λ q c e. elim (assoc_set_found q id cell tasks c e) [
      | inl (here, same) ↦ rw (here, same) free
      | inr found ↦ s.free q c found
    ];
  }

  pub append-Sound :
      (id : ℕ) (ctx : TaskContext) (tasks : List (ℕ × Cell))
      → SoundTasks held tasks
      → assoc id tasks ≡ none
      → Fine id ctx
      → SoundTasks held (tasks ++ (id, record { lock = unlocked; context = ctx }) ∷ [])
  append-Sound id ctx tasks s fresh fine = record {
    unique = append-Unique id _ tasks s.unique fresh;
    fine = λ q c e. elim (append_found q id _ tasks c e) [
      | inl (here, same) ↦ rw (here, same) fine
      | inr found ↦ s.fine q c found
    ];
    free = λ q c e. elim (append_found q id _ tasks c e) [
      | inl (here, same) ↦ inr (ap (λ (x : Cell). x.lock) same)
      | inr found ↦ s.free q c found
    ];
  }

  remove-Sound :
      (id : ℕ) (tasks : List (ℕ × Cell))
      → SoundTasks held tasks
      → SoundTasks held (assoc_remove id tasks)
  remove-Sound id tasks s = record {
    unique = assoc_remove-Unique id tasks s.unique;
    fine = λ q c e. s.fine q c (assoc_remove_found q id tasks c s.unique e);
    free = λ q c e. s.free q c (assoc_remove_found q id tasks c s.unique e);
  }

abbrev pub SoundRegistry : (ℕ → Type 0) → Registry → Type 0
SoundRegistry held r = SoundTasks held r.tasks

drop_child-Fine : (id p : ℕ) (c : TaskContext) → Fine p c → Fine p (drop_child id c)
drop_child-Fine id p c f = go (position (λ x. x == id) c.children)
  where
    go :
        (o : Option ℕ)
        → Fine p
            (elim o [ none ↦ c | some index ↦ record c { children = remove_at index c.children } ])
    go none = f
    go (some index) =
        same-Fine c (record c { children = remove_at index c.children }) refl refl refl f

module _ (held : ℕ → Type 0) (sp : SpinRwLock) {E : Type 0} {Q : Registry → Type 0} where
  write_cell-Ensures :
      (id : ℕ) (cell : Cell) (f : TaskContext → TaskContext) (r : Registry)
      → SoundRegistry held r
      → assoc id r.tasks ≡ some cell
      → Fine id (f cell.context)
      → Ensures {E = E} (λ _ t. SoundRegistry held t) Q r (write_cell sp id cell f)
  unfolding write_cell
  write_cell-Ensures id cell f r s there fine =
      bind-Ensures {P' = λ _ t. t ≡ r} (spun (sp.grants_write cell.lock)) λ _ t same.
        modify-Ensures (with_tasks (assoc_set id (record cell { context = f cell.context }))) (
          rw same (
            set-Sound id (record cell { context = f cell.context }) r.tasks s fine
              (s.free id cell there)))
    where
      spun : (b : Bool) → Ensures {E = E} (λ _ t. t ≡ r) Q r (spin_until b)
      spun true = record { ends = refl }
      spun false = record { ends = tt }

  add_to_parent-Keeps :
      (id : ℕ) (parent : Option ℕ)
      → Steps {E = E} (SoundRegistry held) Q (add_to_parent sp id parent)
  unfolding add_to_parent
  add_to_parent-Keeps id none = pure-Keeps tt
  add_to_parent-Keeps id (some p) = record {
    keeps = λ r s. bind-Ensures {P' = λ a t. (a ≡ r) × (t ≡ r)} (get-Ensures (refl, refl)) λ a t e.
        bind-Ensures {P' = λ parent u. (u ≡ r) × (assoc p r.tasks ≡ some parent)}
          (unwrap-Ensures (assoc p a.tasks)
            (λ c f. (e.1, ap (λ (x : Registry). assoc p x.tasks) (sym e.0) ∙ f)))
          λ parent u g.
            write_cell-Ensures p parent (push_child id) u (subst (SoundRegistry held) (sym g.0) s)
              (ap (λ (x : Registry). assoc p x.tasks) g.0 ∙ g.1)
              (same-Fine parent.context (push_child id parent.context) refl refl refl
                (s.fine p parent g.1));
  }

  pub add-Keeps :
      (ctx : TaskContext) → Fine ctx.id ctx → Steps {E = E} (SoundRegistry held) Q (add sp ctx)
  unfolding add
  add-Keeps ctx fine = record {
    keeps = λ r s. bind-Ensures {P' = λ a t. (a ≡ r) × (t ≡ r)} (get-Ensures (refl, refl)) λ a t e.
        bind-Ensures {P' = λ _ u. (u ≡ r) × (assoc ctx.id r.tasks ≡ none)}
          (assert-Ensures (is_none (assoc ctx.id a.tasks))
            (λ missing. (e.1, fresh r a e.0 missing)))
          λ _ u g.
            bind-Ensures {P' = λ _ v. SoundRegistry held v}
              (modify-Ensures
                (with_tasks (λ m. m ++ (ctx.id, record { lock = unlocked; context = ctx }) ∷ []))
                (rw g.0 (append-Sound ctx.id ctx r.tasks s g.1 fine)))
              λ _ v sound. (add_to_parent-Keeps ctx.id ctx.parent).keeps v sound;
  }
    where
      none_there : (o : Option Cell) → is_none o ≡ true → o ≡ none
      none_there none e = refl
      none_there (some c) e = absurd (ground (arith, e))

      fresh :
          (r a : Registry)
          → a ≡ r
          → is_none (assoc ctx.id a.tasks) ≡ true
          → assoc ctx.id r.tasks ≡ none
      fresh r a e missing =
          none_there (assoc ctx.id r.tasks)
            (ap (λ (x : Registry). is_none (assoc ctx.id x.tasks)) (sym e) ∙ missing)

  remove_from_parent-Keeps :
      (id : ℕ) (parent : Option ℕ)
      → Steps {E = E} (SoundRegistry held) Q (remove_from_parent sp id parent)
  unfolding remove_from_parent
  remove_from_parent-Keeps id none = pure-Keeps tt
  remove_from_parent-Keeps id (some p) =
      Ends-Keeps (remove_from_parent sp id (some p)) λ r s. go r s (assoc p r.tasks) refl
    where
      go :
          (r : Registry)
          → SoundRegistry held r
          → (o : Option Cell) → assoc p r.tasks ≡ o
          → Ends {E = E}
              (λ _ t. SoundRegistry held t)
              Q
              (elim o [ none ↦ pure tt r | some parent ↦ write_cell sp p parent (drop_child id) r ])
      go r s none e = s
      go r s (some parent) e =
          (write_cell-Ensures p parent (drop_child id) r s e
            (drop_child-Fine id p parent.context (s.fine p parent e))).ends

  pub remove-Keeps : (id : ℕ) → Steps {E = E} (SoundRegistry held) Q (remove sp id)
  unfolding remove
  remove-Keeps id = Ends-Keeps (remove sp id) λ r s. go r s (assoc id r.tasks)
    where
      rest :
          (cell : Cell)
          → Steps {E = E} (SoundRegistry held) Q (do
            modify (with_tasks (assoc_remove id))
            spin_until (sp.grants_read cell.lock)
            remove_from_parent sp cell.context.id cell.context.parent
            pure (some cell))
      rest cell =
          bind-Keeps (modify-Keeps (with_tasks (assoc_remove id)) λ r s. remove-Sound id r.tasks s)
            λ _. bind-Keeps (spin_until-Keeps (sp.grants_read cell.lock)) λ _.
              bind-Keeps (remove_from_parent-Keeps cell.context.id cell.context.parent)
                λ _. pure-Keeps (some cell)

      go :
          (r : Registry)
          → SoundRegistry held r
          → (o : Option Cell)
          → Ends {E = E} {A = Option Cell}
              (λ _ t. SoundRegistry held t)
              Q
              (elim o [
                | none ↦ pure none r
                | some cell ↦
                    (do
                      modify (with_tasks (assoc_remove id))
                      spin_until (sp.grants_read cell.lock)
                      remove_from_parent sp cell.context.id cell.context.parent
                      pure (some cell))
                      r
              ])
      go r s none = s
      go r s (some cell) = ((rest cell).keeps r s).ends
