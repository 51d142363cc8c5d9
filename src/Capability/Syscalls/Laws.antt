-- ===== src/Capability/Syscalls/Laws.antt =====
-- The system calls on capabilities of idker/src/capability/syscall.rs, on every branch.
use idkernel.Base.{
  ℕ, ◌+◌, ◌<◌, ◌^◌, ◌≡◌, ◌⊎◌, inl, inr, refl, ◌∙◌, ap, Bool, true, false, not, Option, none, some,
  if◌then◌else◌, leb, ◌&&◌, Outcome, ok, err, panic, hang, Prog, arith, Option-cases,
  assoc_set_same, List,
}
use idkernel.Abi.{
  SyscallError, not_implemented, wrong_parameters, wrong_capability, wrong_capability_perms,
  no_memory,
}
use idkernel.Capability.Data.{
  Capability, CapabilityType, map_physical, map_virtual_to_ram, process_spawn, channel_create,
}
use idkernel.Capability.Storage.{Storage, lookup, write_back}
use idkernel.Capability.Storage.Laws.{inserted, deleted, insert_lem, delete_lem}
use idkernel.Capability.Syscalls.{
  on_capabilities, clone_in, restrict_range, restrict_type, restrict_in, cdrop_in, clone, restrict,
  cdrop,
}
use idkernel.Context.Lock.{SpinRwLock}
use idkernel.Context.Task.{TaskContext}
use idkernel.Context.Registry.{Cell}
use idkernel.Context.Kernel.{Kernel, set_context}
use idkernel.Context.Kernel.Laws.{Running, back, current_write, set_context_same}

-- A context with another capability table.
abbrev pub with_capabilities : TaskContext → Storage → TaskContext
with_capabilities c s = record c { capabilities = s }

-- What `clone` returns and leaves, from the table of the caller.
abbrev pub cloned : Bool → ℕ → Storage → Outcome Storage SyscallError ℕ
cloned reserved h caps = elim (lookup h caps) [
  | none ↦ err wrong_capability caps
  | some cap ↦
      if not cap.perms.duplicate
      then err wrong_capability_perms caps
      else if reserved
      then ok caps.next_handle (inserted cap caps)
      else err no_memory (record caps { next_handle = caps.next_handle + 1 })
]

-- A result on the capability table of the caller, as one on the kernel.
abbrev pub on_table :
    {A : Type 0} → Kernel → Cell → Outcome Storage SyscallError A → Outcome Kernel SyscallError A
on_table k c (ok a s) = ok a (set_context k.task_id (with_capabilities c.context s) k)
on_table k c (err e s) = err e (set_context k.task_id (with_capabilities c.context s) k)
on_table k c panic = panic
on_table k c hang = hang

clone_in_lem :
    (reserved : Bool) (h : ℕ) (caps : Storage)
    → caps.next_handle + 1 < 2 ^ 64
    → clone_in reserved h caps ≡ cloned reserved h caps
unfolding clone_in
clone_in_lem reserved h caps room = elim (Option-cases (lookup h caps)) [
  | inl missing ↦ ground arith
  | inr (cap, found) ↦ ground (arith, insert_lem reserved cap caps room)
]

-- `PhysAddr::try_new`: an address is its number, or is refused.
abbrev pub KeepsNumbers : (ℕ → Option ℕ) → Type 0
KeepsNumbers try_new = (n : ℕ) → (try_new n ≡ none) ⊎ (try_new n ≡ some n)

abbrev pub is_some : {A : Type 0} → Option A → Bool
is_some none = false
is_some (some a) = true

-- The ranges to which a range may be restricted.
abbrev pub fits : (ℕ → Option ℕ) → ℕ → ℕ → ℕ → ℕ → Bool
fits try_new a b from to =
    leb a b && leb from a && leb b to && is_some (try_new a) && is_some (try_new b)

-- What `restrict` makes of a capability.
abbrev pub restricted :
    (ℕ → Option ℕ) → ℕ → ℕ → CapabilityType → Outcome CapabilityType SyscallError (Unit {0})
restricted try_new a b (map_physical from to) =
    if fits try_new a b from to
    then ok tt (map_physical a b)
    else err wrong_parameters (map_physical from to)
restricted try_new a b map_virtual_to_ram = err not_implemented map_virtual_to_ram
restricted try_new a b process_spawn = err wrong_parameters process_spawn
restricted try_new a b channel_create = err wrong_parameters channel_create

restrict_type_lem :
    (try_new : ℕ → Option ℕ) (a b : ℕ) (t : CapabilityType)
    → KeepsNumbers try_new
    → restrict_type try_new a b t ≡ restricted try_new a b t
unfolding restrict_type restrict_range
restrict_type_lem try_new a b (map_physical from to) law = ground (arith, law a, law b)
restrict_type_lem try_new a b map_virtual_to_ram law = refl
restrict_type_lem try_new a b process_spawn law = refl
restrict_type_lem try_new a b channel_create law = refl

write_back_same :
    (h : ℕ) (cap : Capability) (caps : Storage)
    → lookup h caps ≡ some cap
    → write_back h cap caps ≡ caps
unfolding lookup write_back
write_back_same h cap caps found =
    ap (λ (m : List (ℕ × Capability)). record caps { handles = m })
      (assoc_set_same h cap caps.handles found)

-- What `restrict` returns and leaves, given what it makes of the capability.
abbrev pub restricted_table :
    {S : Type 0}
    → (Storage → S)
    → ℕ
    → Capability
    → Storage
    → Outcome CapabilityType SyscallError (Unit {0})
    → Outcome S SyscallError (Unit {0})
restricted_table table h cap caps (ok u t) =
    ok u (table (write_back h (record cap { ctype = t }) caps))
restricted_table table h cap caps (err e t) = err e (table caps)
restricted_table table h cap caps panic = panic
restricted_table table h cap caps hang = hang

restrict_in_lem :
    (try_new : ℕ → Option ℕ) (h a b : ℕ) (cap : Capability) (caps : Storage)
    → KeepsNumbers try_new
    → lookup h caps ≡ some cap
    → restrict_in try_new h a b caps
      ≡ restricted_table (λ s. s) h cap caps (restricted try_new a b cap.ctype)
unfolding restrict_in
restrict_in_lem try_new h a b cap caps law found = go cap.ctype refl
  where
    go :
        (t : CapabilityType)
        → cap.ctype ≡ t
        → restrict_in try_new h a b caps
          ≡ restricted_table (λ s. s) h cap caps (restricted try_new a b cap.ctype)
    go (map_physical from to) e = ground (
      arith,
      restrict_type_lem try_new a b cap.ctype law,
      found,
      write_back_same h cap caps found,
    )
    go map_virtual_to_ram e =
        ground
          (arith, restrict_type_lem try_new a b cap.ctype law, write_back_same h cap caps found)
    go process_spawn e =
        ground
          (arith, restrict_type_lem try_new a b cap.ctype law, write_back_same h cap caps found)
    go channel_create e =
        ground
          (arith, restrict_type_lem try_new a b cap.ctype law, write_back_same h cap caps found)

module _ (sp : SpinRwLock) (k : Kernel) (c : Cell) (running : Running k c) where
  pub table_write :
      {A : Type 0} (m : Prog Storage SyscallError A)
      → back k.task_id k (on_capabilities m c.context) ≡ on_table k c (m c.context.capabilities)
  table_write {A} m = go (m c.context.capabilities) refl
    where
      go :
          (r : Outcome Storage SyscallError A)
          → m c.context.capabilities ≡ r
          → back k.task_id k (on_capabilities m c.context) ≡ on_table k c r
      go (ok a s) e = ground arith
      go (err x s) e = ground arith
      go panic e = ground arith
      go hang e = ground arith

  -- Let the running task be registered and unlocked, with a nonzero id, and its handles not run
  -- out. Then `clone` copies a capability under the next handle if it is there, may be duplicated
  -- and there is memory. Without the capability, the permission or the memory it fails with
  -- `wrong_capability`, `wrong_capability_perms` or `no_memory`; the capabilities stay, and only in
  -- the last case the next handle is spent.
  pub clone_lem :
      (reserved : Bool) (h : ℕ)
      → c.context.capabilities.next_handle + 1 < 2 ^ 64
      → clone sp reserved h k ≡ on_table k c (cloned reserved h c.context.capabilities)
  unfolding clone
  clone_lem reserved h room =
      current_write sp (on_capabilities (clone_in reserved h)) c k running
      ∙ table_write (clone_in reserved h)
      ∙ ap (on_table k c) (clone_in_lem reserved h c.context.capabilities room)

  -- The kernel with another table for the caller.
  abbrev pub with_table : Storage → Kernel
  with_table s = set_context k.task_id (with_capabilities c.context s) k

  -- Let the running task be registered and unlocked, with a nonzero id, hold the capability, and
  -- let the test of physical addresses keep the numbers that it lets pass. Then `restrict` replaces
  -- a physical range by exactly the given one if that is a range inside it of physical addresses,
  -- and otherwise changes nothing and fails: with `not_implemented` on a capability to map RAM,
  -- else with `wrong_parameters`.
  pub restrict_lem :
      (try_new : ℕ → Option ℕ) (h a b : ℕ) (cap : Capability)
      → KeepsNumbers try_new
      → lookup h c.context.capabilities ≡ some cap
      → restrict sp try_new h a b k
        ≡ restricted_table with_table h cap c.context.capabilities
            (restricted try_new a b cap.ctype)
  unfolding restrict
  restrict_lem try_new h a b cap law found =
      current_write sp (on_capabilities (restrict_in try_new h a b)) c k running
      ∙ table_write (restrict_in try_new h a b)
      ∙ ap (on_table k c) (restrict_in_lem try_new h a b cap c.context.capabilities law found)
      ∙ go (restricted try_new a b cap.ctype)
    where
      go :
          (r : Outcome CapabilityType SyscallError (Unit {0}))
          → on_table k c (restricted_table (λ s. s) h cap c.context.capabilities r)
            ≡ restricted_table with_table h cap c.context.capabilities r
      go (ok u t) = refl
      go (err e t) = refl
      go panic = refl
      go hang = refl

  -- Let the running task be registered and unlocked, with a nonzero id. Then `cdrop` takes exactly
  -- the entry of its handle out of the caller's table, or fails with `wrong_capability` and changes
  -- nothing if there is none.
  pub cdrop_lem :
      (h : ℕ)
      → cdrop sp h k ≡ elim (lookup h c.context.capabilities) [
        | none ↦ err wrong_capability k
        | some cap ↦ ok tt (with_table (deleted h c.context.capabilities))
      ]
  unfolding cdrop cdrop_in
  cdrop_lem h =
      current_write sp (on_capabilities (cdrop_in h)) c k running
      ∙ table_write (cdrop_in h)
      ∙ ground (
        arith,
        delete_lem h c.context.capabilities,
        set_context_same k.task_id c k running.registered,
      )
