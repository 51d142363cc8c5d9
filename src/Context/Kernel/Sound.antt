-- ===== src/Context/Kernel/Sound.antt =====
-- The invariant of the kernel's state: the registry of idker/src/context/registry.rs and what its
-- cells hold.
use idkernel.Base.{
  ℕ, ◌≡◌, ◌≢◌, ◌⊎◌, inl, inr, none, some, List, [], ◌∷◌, ◌==◌, assoc, assoc_map, assoc-map, arith,
  ==_iff, Bool-cases, Option-cases, ap,
}
use idkernel.Capability.Storage.Laws.{IsValid}
use idkernel.File.Storage.Laws.{IsValid as IsValidFiles}
use idkernel.Context.Lock.{Lock, unlocked}
use idkernel.Context.Task.{TaskContext}
use idkernel.Context.Registry.{Cell}
use idkernel.Context.Kernel.{Kernel, set_lock, set_context}

-- Each key stands once.
abbrev pub Unique {ℓ} : {V : Type ℓ} → List (ℕ × V) → Type ℓ
Unique [] = Unit
Unique ((k, v) ∷ m) = (assoc k m ≡ none) × Unique m

-- A context under its own id, with capability handles and file descriptors that ascend below their
-- counters.
pub record Fine (id : ℕ) (c : TaskContext) : Type 0 where
  pub identity : c.id ≡ id
  pub handles : IsValid c.capabilities
  pub descriptors : IsValidFiles c.files

-- Every task is registered once and fine, and unlocked but for those that `held` admits.
pub record SoundTasks (held : ℕ → Type 0) (tasks : List (ℕ × Cell)) : Type 0 where
  pub unique : Unique tasks
  pub fine : (q : ℕ) (c : Cell) → assoc q tasks ≡ some c → Fine q c.context
  pub free : (q : ℕ) (c : Cell) → assoc q tasks ≡ some c → held q ⊎ (c.lock ≡ unlocked)

abbrev pub Sound : (ℕ → Type 0) → Kernel → Type 0
Sound held k = SoundTasks held k.registry.tasks

abbrev pub Nobody : ℕ → Type 0
Nobody q = ⊥

-- One more task that may be locked.
abbrev pub Holding : ℕ → (ℕ → Type 0) → ℕ → Type 0
Holding id held q = held q ⊎ (q ≡ id)

module _ {ℓ} {V : Type ℓ} where
  map_missing :
      (q k : ℕ) (f : V → V) (m : List (ℕ × V)) → assoc q m ≡ none → assoc q (assoc_map k f m) ≡ none
  map_missing q k f m e = ground (arith, assoc-map k q f m, e)

  pub assoc_map-Unique :
      (k : ℕ) (f : V → V) (m : List (ℕ × V)) → Unique m → Unique (assoc_map k f m)
  assoc_map-Unique k f [] u = tt
  assoc_map-Unique k f ((j, v) ∷ m) u = elim (Bool-cases (j == k)) [
    | inl here ↦ rw here u
    | inr other ↦ rw other (map_missing j k f m u.0, assoc_map-Unique k f m u.1)
  ]

  -- What a lookup finds after the change of one entry.
  pub assoc_map_found :
      (q k : ℕ) (f : V → V) (m : List (ℕ × V)) (c : V)
      → assoc q (assoc_map k f m) ≡ some c
      → ((q ≡ k) × (d : V) × (assoc q m ≡ some d) × (c ≡ f d)) ⊎ ((q ≢ k) × (assoc q m ≡ some c))
  assoc_map_found q k f m c e = elim (Bool-cases (q == k)) [
    | inl here ↦ elim (Option-cases (assoc q m)) [
      | inl missing ↦ absurd (ground (arith, assoc-map k q f m, e, here, missing))
      | inr (d, found) ↦
          inl ((==_iff q k).0 here, d, found, ground (arith, assoc-map k q f m, e, here, found))
    ]
    | inr other ↦ inr (ground (arith, other), ground (arith, assoc-map k q f m, e, other))
  ]

module _ {held : ℕ → Type 0} (id : ℕ) (k : Kernel) where
  pub lock-Sound : (l : Lock) → Sound held k → Sound (Holding id held) (set_lock id l k)
  lock-Sound l s = record {
    unique = assoc_map-Unique id _ k.registry.tasks s.unique;
    fine = λ q c e. elim (assoc_map_found q id _ k.registry.tasks c e) [
      | inl (here, d, found, same) ↦ rw same (s.fine q d found)
      | inr (other, found) ↦ s.fine q c found
    ];
    free = λ q c e. elim (assoc_map_found q id _ k.registry.tasks c e) [
      | inl (here, d, found, same) ↦ inl (inr here)
      | inr (other, found) ↦ elim (s.free q c found) [ inl h ↦ inl (inl h) | inr f ↦ inr f ]
    ];
  }

  pub unlock-Sound : Sound (Holding id held) k → Sound held (set_lock id unlocked k)
  unlock-Sound s = record {
    unique = assoc_map-Unique id _ k.registry.tasks s.unique;
    fine = λ q c e. elim (assoc_map_found q id _ k.registry.tasks c e) [
      | inl (here, d, found, same) ↦ rw same (s.fine q d found)
      | inr (other, found) ↦ s.fine q c found
    ];
    free = λ q c e. elim (assoc_map_found q id _ k.registry.tasks c e) [
      | inl (here, d, found, same) ↦ inr (ap (λ (x : Cell). x.lock) same)
      | inr (other, found) ↦ elim (s.free q c found) [
        | inl (inl h) ↦ inl h
        | inl (inr here) ↦ absurd (other here)
        | inr f ↦ inr f
      ]
    ];
  }

  pub context-Sound :
      (ctx : TaskContext) → Fine id ctx → Sound held k → Sound held (set_context id ctx k)
  context-Sound ctx f s = record {
    unique = assoc_map-Unique id _ k.registry.tasks s.unique;
    fine = λ q c e. elim (assoc_map_found q id _ k.registry.tasks c e) [
      | inl (here, d, found, same) ↦ rw (same, here) f
      | inr (other, found) ↦ s.fine q c found
    ];
    free = λ q c e. elim (assoc_map_found q id _ k.registry.tasks c e) [
      | inl (here, d, found, same) ↦ rw same (s.free q d found)
      | inr (other, found) ↦ s.free q c found
    ];
  }
