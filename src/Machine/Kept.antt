-- ===== src/Machine/Kept.antt =====
-- The invariant of the kernel's state as one of the whole state, also under the lock of a task.
use idkernel.Base.{
  ℕ, Bool, true, false, Option, none, some, Str, Outcome, ok, err, panic, hang, Prog, Keeps, Ends,
  Ends-Keeps, zoom-Keeps, any-Keeps,
}
use idkernel.Context.Lock.{SpinRwLock, writing}
use idkernel.Context.Registry.{Cell}
use idkernel.Context.Kernel.{Kernel, cell_of, set_lock}
use idkernel.Context.Kernel.Sound.{Sound, Holding, lock-Sound, unlock-Sound}
use idkernel.Memory.{Paging}
use idkernel.Memory.Kept.{SoundPair}
use idkernel.Machine.{Machine, in_kernel, in_space, in_mapping, hold_write, release}

module _ (paging : Paging) where
  abbrev pub SoundMachine : (ℕ → Type 0) → Machine paging → Type 0
  SoundMachine held m = Sound held m.kernel

  module _ (held : ℕ → Type 0) where
    release_outcome :
        {E A : Type 0} (id : ℕ) (r : Outcome (Machine paging) E A)
        → Ends (λ _ t. SoundMachine (Holding id held) t) (SoundMachine (Holding id held)) r
        → Ends (λ _ t. SoundMachine held t) (SoundMachine held) (release paging id r)
    release_outcome id (ok a m) s = unlock-Sound id m.kernel s
    release_outcome id (err e m) s = unlock-Sound id m.kernel s
    release_outcome id panic s = tt
    release_outcome id hang s = tt

    granted_outcome :
        {E A : Type 0} (b : Bool) (r : Outcome (Machine paging) E A)
        → Ends (λ _ t. SoundMachine held t) (SoundMachine held) r
        → Ends (λ _ t. SoundMachine held t) (SoundMachine held) (elim b [ true ↦ r | false ↦ hang ])
    granted_outcome true r h = h
    granted_outcome false r h = tt

  module _ {held : ℕ → Type 0} {E A : Type 0} where
    pub in_kernel-Keeps :
        {m : Prog Kernel E A}
        → Keeps (Sound held) m
        → Keeps (SoundMachine held) (in_kernel paging m)
    in_kernel-Keeps h =
        zoom-Keeps (λ m. m.kernel) (λ k m. record m { kernel = k }) h (λ m i. i) λ m k i j. j

    pub in_space-Keeps :
        (m : Prog (paging.Tables × (ℕ → Str)) E A) → Keeps (SoundMachine held) (in_space paging m)
    in_space-Keeps m =
        zoom-Keeps (λ m. (m.tables, m.frames)) (λ s m. record m { tables = s.0; frames = s.1 })
          (any-Keeps m) (λ m i. tt) λ m s i j. i

    pub in_mapping-Keeps :
        {m : Prog (Kernel × paging.Tables) E A}
        → Keeps (SoundPair paging held) m
        → Keeps (SoundMachine held) (in_mapping paging m)
    in_mapping-Keeps h =
        zoom-Keeps (λ m. (m.kernel, m.tables)) (λ s m. record m { kernel = s.0; tables = s.1 }) h
          (λ m i. i) λ m s i j. j

    pub hold_write-Keeps :
        (sp : SpinRwLock) (id : ℕ) {body : Prog (Machine paging) E A}
        → Keeps (SoundMachine (Holding id held)) body
        → Keeps (SoundMachine held) (hold_write paging sp id body)
    unfolding hold_write
    hold_write-Keeps sp id {body} h =
        Ends-Keeps (hold_write paging sp id body) λ m s. go m s (cell_of id m.kernel)
      where
        go :
            (m : Machine paging)
            → SoundMachine held m
            → (o : Option Cell)
            → Ends
                (λ _ t. SoundMachine held t)
                (SoundMachine held)
                (elim o [
                  | none ↦ panic
                  | some c ↦ elim (sp.grants_write c.lock) [
                    | true ↦
                        release paging id
                          (body (record m { kernel = set_lock id writing m.kernel }))
                    | false ↦ hang
                  ]
                ])
        go m s none = tt
        go m s (some c) = granted_outcome held (sp.grants_write c.lock) _ (
            release_outcome held id _
              (h.keeps (record m { kernel = set_lock id writing m.kernel })
                (lock-Sound id m.kernel writing s)).ends)
