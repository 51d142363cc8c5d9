-- ===== src/Machine/Guarantees.antt =====
-- What code under the lock of a task guarantees of the whole state.
use idkernel.Base.{
  ℕ, ◌≡◌, refl, Bool, true, false, Option, none, some, Outcome, ok, err, panic, hang, Prog, Ensures,
  Ends,
}
use idkernel.Context.Lock.{SpinRwLock, Lock, unlocked, writing}
use idkernel.Context.Registry.{Cell}
use idkernel.Context.Kernel.{cell_of, set_lock}
use idkernel.Memory.{Paging}
use idkernel.Machine.{Machine, hold_write, release}

-- The lock of a task set in the whole state.
abbrev pub with_lock : (paging : Paging) → ℕ → Lock → Machine paging → Machine paging
with_lock paging id l m = record m { kernel = set_lock id l m.kernel }

module _ (paging : Paging) {E A : Type 0} (P : A → Machine paging → Type 0)
    (Q : Machine paging → Type 0) where
  release-Ends :
      (id : ℕ) (r : Outcome (Machine paging) E A)
      → Ends
          (λ a m. P a (with_lock paging id unlocked m))
          (λ m. Q (with_lock paging id unlocked m))
          r
      → Ends P Q (release paging id r)
  release-Ends id (ok a m) p = p
  release-Ends id (err e m) p = p
  release-Ends id panic p = tt
  release-Ends id hang p = tt

  granted-Ends :
      (id : ℕ) (b : Bool) (r : Outcome (Machine paging) E A)
      → Ends
          (λ a m. P a (with_lock paging id unlocked m))
          (λ m. Q (with_lock paging id unlocked m))
          r
      → Ends P Q (elim b [ true ↦ release paging id r | false ↦ hang ])
  granted-Ends id true r p = release-Ends id r p
  granted-Ends id false r p = tt

module _ (paging : Paging) {E A : Type 0} {P : A → Machine paging → Type 0}
    {Q : Machine paging → Type 0} where
  pub hold_write-Ensures :
      (sp : SpinRwLock) (id : ℕ) {m : Machine paging} {body : Prog (Machine paging) E A}
      → ((c : Cell)
          → cell_of id m.kernel ≡ some c
          → Ensures
              (λ a t. P a (with_lock paging id unlocked t))
              (λ t. Q (with_lock paging id unlocked t))
              (with_lock paging id writing m)
              body)
      → Ensures P Q m (hold_write paging sp id body)
  unfolding hold_write
  hold_write-Ensures sp id {m} {body} h = record { ends = go (cell_of id m.kernel) refl }
    where
      go :
          (o : Option Cell)
          → cell_of id m.kernel ≡ o
          → Ends P Q (elim o [
            | none ↦ panic
            | some c ↦ elim (sp.grants_write c.lock) [
              | true ↦ release paging id (body (with_lock paging id writing m))
              | false ↦ hang
            ]
          ])
      go none e = tt
      go (some c) e =
          granted-Ends paging P Q id (sp.grants_write c.lock) (body (with_lock paging id writing m))
            (h c e).ends
