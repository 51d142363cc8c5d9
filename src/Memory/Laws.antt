-- ===== src/Memory/Laws.antt =====
-- Who may map memory by the calls of idker/src/syscalls/memory.rs.
use idkernel.Base.{
  ℕ, ◌+◌, ◌-◌, ◌≡◌, ◌⊎◌, refl, ◌∙◌, Bool, true, false, Option, none, some, find, Outcome, ok, err,
  panic, hang, Prog, ◌>>=◌, unwrap, guard, assert, arith, ltb, leb, pure, subst, sym, ◌/◌, ◌%◌, ◌^◌,
  ◌==◌,
}
use idkernel.Abi.{SyscallError, wrong_capability, wrong_parameters}
use idkernel.Capability.{is_map_virtual_to_ram, CapabilityType}
use idkernel.Context.Lock.{SpinRwLock}
use idkernel.Context.Registry.{Cell}
use idkernel.Context.Kernel.{Kernel, current_task, current_task_id, read_context}
use idkernel.Context.Kernel.Laws.{Running}
use idkernel.Userspace.{check_addr_userspace}
use idkernel.Memory.{
  Paging, start_of, covers, parse_page_range, on_kernel, authorized, map_virt, map_phys,
}

-- An outcome that leaves the state as it was, and one that is in addition no success.
abbrev pub Quiet : {S E A : Type 0} → S → Outcome S E A → Type 0
Quiet s (ok a t) = t ≡ s
Quiet s (err e t) = t ≡ s
Quiet s panic = Unit {0}
Quiet s hang = Unit {0}

abbrev pub Denied : {S E A : Type 0} → S → Outcome S E A → Type 0
Denied s (ok a t) = ⊥
Denied s (err e t) = t ≡ s
Denied s panic = Unit {0}
Denied s hang = Unit {0}

record Keeps {S E A : Type 0} (s : S) (m : Prog S E A) : Type 0 where
  kept : Quiet s (m s)

record Denies {S E A : Type 0} (s : S) (m : Prog S E A) : Type 0 where
  denied : Denied s (m s)

record Fails {S E A : Type 0} (s : S) (e : E) (m : Prog S E A) : Type 0 where
  failed : m s ≡ err e s

module _ {S E A B : Type 0} where
  then-Quiet :
      (s : S) (r : Outcome S E A) (f : A → Prog S E B)
      → Quiet s r
      → ((a : A) → r ≡ ok a s → Quiet s (f a s))
      → Quiet s (elim r [ ok a s' ↦ f a s' | err e s' ↦ err e s' | panic ↦ panic | hang ↦ hang ])
  then-Quiet s (ok a t) f q h = let g = h a (rw q) in subst (λ x. Quiet s (f a x)) (sym q) g
  then-Quiet s (err e t) f q h = q
  then-Quiet s panic f q h = tt
  then-Quiet s hang f q h = tt

  then-Denied :
      (s : S) (r : Outcome S E A) (f : A → Prog S E B)
      → Quiet s r
      → ((a : A) → r ≡ ok a s → Denied s (f a s))
      → Denied s (elim r [ ok a s' ↦ f a s' | err e s' ↦ err e s' | panic ↦ panic | hang ↦ hang ])
  then-Denied s (ok a t) f q h = let g = h a (rw q) in subst (λ x. Denied s (f a x)) (sym q) g
  then-Denied s (err e t) f q h = q
  then-Denied s panic f q h = tt
  then-Denied s hang f q h = tt

  bind-Keeps :
      {s : S} {m : Prog S E A} {f : A → Prog S E B}
      → Keeps s m
      → ((a : A) → m s ≡ ok a s → Keeps s (f a))
      → Keeps s (m >>= f)
  bind-Keeps {s} {m} {f} q h = record { kept = then-Quiet s (m s) f q.kept (λ a e. (h a e).kept) }

  bind-Denies :
      {s : S} {m : Prog S E A} {f : A → Prog S E B}
      → Keeps s m
      → ((a : A) → m s ≡ ok a s → Denies s (f a))
      → Denies s (m >>= f)
  bind-Denies {s} {m} {f} q h = record {
    denied = then-Denied s (m s) f q.kept (λ a e. (h a e).denied);
  }

module _ {S E A : Type 0} {s : S} {e : E} {m : Prog S E A} (h : Fails s e m) where
  fails-Keeps : Keeps s m
  fails-Keeps = record { kept = subst (Quiet s) (sym h.failed) refl }

  fails-ok : {a : A} → m s ≡ ok a s → ⊥
  fails-ok {a} g = let both : err e s ≡ ok a s = sym h.failed ∙ g in ground (arith, both)

module _ {S E : Type 0} where
  guard-Keeps : (b : Bool) (e : E) (s : S) → Keeps s (guard b e)
  guard-Keeps true e s = record { kept = refl }
  guard-Keeps false e s = record { kept = refl }

  assert-Keeps : (b : Bool) (s : S) → Keeps {E = E} s (assert b)
  assert-Keeps true s = record { kept = refl }
  assert-Keeps false s = record { kept = tt }

  unwrap-Keeps : {A : Type 0} (o : Option A) (s : S) → Keeps {E = E} s (unwrap o)
  unwrap-Keeps none s = record { kept = tt }
  unwrap-Keeps (some a) s = record { kept = refl }

  pure-Keeps : {A : Type 0} (a : A) (s : S) → Keeps {E = E} s (pure a)
  pure-Keeps a s = record { kept = refl }

check-Keeps : {S : Type 0} (addr : ℕ) (s : S) → Keeps s (check_addr_userspace addr)
unfolding check_addr_userspace
check-Keeps addr s = guard-Keeps (addr / 2 ^ 63 % 2 == 0) wrong_parameters s

start_of-Keeps :
    {S : Type 0} (is_start : ℕ → Bool) (addr : ℕ) (s : S) → Keeps s (start_of is_start addr)
unfolding start_of
start_of-Keeps is_start addr s =
    bind-Keeps (guard-Keeps (is_start addr) wrong_parameters s) (λ a e. pure-Keeps addr s)

-- An unwrapped address is its number.
unwrapped :
    {S : Type 0} {s : S} {m : ℕ} (n : ℕ) (o : Option ℕ)
    → (o ≡ none) ⊎ (o ≡ some n)
    → unwrap {E = SyscallError} o s ≡ ok m s
    → m ≡ n
unwrapped n none law e = absurd (ground (arith, e))
unwrapped n (some x) law e = ground (arith, law, e)

module _ (paging : Paging) where
  parse-Keeps : {S : Type 0} (at len : ℕ) (s : S) → Keeps s (parse_page_range paging at len)
  unfolding parse_page_range
  parse-Keeps at len s = bind-Keeps (check-Keeps at s) λ _ _.
      bind-Keeps (assert-Keeps (ltb (at + len) (2 ^ 64)) s) λ _ _.
        bind-Keeps (assert-Keeps (leb 1 (at + len)) s) λ _ _.
          bind-Keeps (check-Keeps (at + len - 1) s) λ _ _.
            bind-Keeps (unwrap-Keeps (paging.virt_addr at) s) λ start _.
              bind-Keeps (start_of-Keeps paging.page_start start s) λ start_page _.
                bind-Keeps (unwrap-Keeps (paging.virt_addr (start + len)) s) λ behind _.
                  bind-Keeps (start_of-Keeps paging.page_start behind s)
                    λ end_page _. pure-Keeps (paging.range start_page end_page) s

  module _ (sp : SpinRwLock) where
    -- The call of a task without a capability that passes the test.
    authorized-none :
        (test : CapabilityType → Bool) (k : Kernel) (c : Cell) (tables : paging.Tables)
        → Running k c
        → find (λ x. test x.1.ctype) c.context.capabilities.handles ≡ none
        → Fails (k, tables) wrong_capability (on_kernel paging (authorized paging sp test))
    unfolding authorized current_task current_task_id read_context
    authorized-none test k c tables running nothing = record {
      failed =
          ground
            (arith, running.registered, running.named, running.free, sp.read_unlocked, nothing);
    }

    -- Let the running task be registered and unlocked, with a nonzero id, and hold no capability to
    -- map RAM. Then `map_virt` does not succeed for any range and permissions, and leaves the
    -- kernel and the page tables as they were.
    pub map_virt-Denied :
        (at len perms : ℕ) (k : Kernel) (c : Cell) (tables : paging.Tables)
        → Running k c
        → find (λ x. is_map_virtual_to_ram x.1.ctype) c.context.capabilities.handles ≡ none
        → Denied (k, tables) (map_virt paging sp at len perms (k, tables))
    unfolding map_virt
    map_virt-Denied at len perms k c tables running nothing =
        let none_found = authorized-none is_map_virtual_to_ram k c tables running nothing in
        (bind-Denies (parse-Keeps at len (k, tables)) λ page_range _.
          bind-Denies (fails-Keeps none_found) λ _ e. absurd (fails-ok none_found e)).denied

    -- Let the running task be registered and unlocked, with a nonzero id, let `PhysAddr::new` keep
    -- the numbers that it accepts, and let no capability of the task contain the physical range
    -- from the truncated address on, of the given length. Then `map_phys` does not succeed, and
    -- leaves the kernel and the page tables as they were.
    pub map_phys-Denied :
        (virt_at virt_len perms phys_at : ℕ) (k : Kernel) (c : Cell) (tables : paging.Tables)
        → ((n : ℕ) → (paging.phys_addr n ≡ none) ⊎ (paging.phys_addr n ≡ some n))
        → Running k c
        → (let from = paging.new_truncate phys_at in
            find (λ x. covers from (from + virt_len - 1) x.1.ctype) c.context.capabilities.handles
            ≡ none)
        → Denied (k, tables) (map_phys paging sp virt_at virt_len perms phys_at (k, tables))
    unfolding map_phys
    map_phys-Denied virt_at virt_len perms phys_at k c tables numbers running nothing =
        let s : Kernel × paging.Tables = (k, tables) in
        let from = paging.new_truncate phys_at in
        let to_end : (sum to : ℕ)
            → unwrap {E = SyscallError} (paging.phys_addr (from + virt_len)) s ≡ ok sum s
            → unwrap {E = SyscallError} (paging.phys_addr (sum - 1)) s ≡ ok to s
            → from + virt_len - 1 ≡ to =
          λ sum to e1 e2. ground (
            arith,
            unwrapped (from + virt_len) _ (numbers (from + virt_len)) e1,
            unwrapped (sum - 1) _ (numbers (sum - 1)) e2,
          ) in
        (bind-Denies (parse-Keeps virt_at virt_len s) λ page_range _.
          bind-Denies (assert-Keeps (ltb (from + virt_len) (2 ^ 64)) s) λ _ _.
            bind-Denies (unwrap-Keeps (paging.phys_addr (from + virt_len)) s) λ sum e1.
              bind-Denies (assert-Keeps (leb 1 sum) s) λ _ _.
                bind-Denies (unwrap-Keeps (paging.phys_addr (sum - 1)) s) λ phys_to e2.
                  bind-Denies (start_of-Keeps paging.frame_start from s) λ frame _.
                    bind-Denies (unwrap-Keeps (paging.phys_addr (phys_to + 1)) s) λ behind _.
                      bind-Denies (start_of-Keeps paging.frame_start behind s) λ end_frame _.
                        (let none_found =
                            authorized-none (covers from phys_to) k c tables running
                              (rw (sym (to_end sum phys_to e1 e2)) nothing) in
                          bind-Denies (fails-Keeps none_found)
                            λ _ e. absurd (fails-ok none_found e))).denied
