-- ===== src/Memory.antt =====
-- idker/src/syscalls/memory.rs: the system calls that map memory. Addresses, pages and page tables
-- of the crate x86_64 and the frame allocator are a parameter.
pub mod Laws
pub mod Kept
use idkernel.Base.{
  ℕ, ◌+◌, ◌-◌, ◌/◌, ◌%◌, ◌^◌, Bool, true, false, not, ◌&&◌, Option, none, some, List, [], ◌∷◌, leb,
  ◌==◌, find, Outcome, Prog, ◌>>=◌, ◌>>◌, pure, get, modify, unwrap, ok_or, guard, assert, zoom,
  err, ok,
}
use idkernel.Abi.{
  SyscallError, wrong_parameters, wrong_capability, no_memory, memory_already_mapped,
}
use idkernel.Capability.{CapabilityType, map_physical, is_map_virtual_to_ram, Capability}
use idkernel.Context.Lock.{SpinRwLock}
use idkernel.Context.Kernel.{Kernel, current_task, read_context}
use idkernel.Userspace.{check_addr_userspace, checked_sum}

-- The flags of a page that is present and accessible to the user.
pub record PageTableFlags : Type 0 where
  pub writable : Bool
  pub no_execute : Bool
  pub bit_10 : Bool

pub data Mapped : Type 0 where
  mapped page_already_mapped parent_entry_huge_page frame_allocation_failed : Mapped

-- `virt_addr` and `phys_addr` are `VirtAddr::new` and `PhysAddr::new`, `none` where these panic;
-- `page_start` and `frame_start` say where `from_start_address` succeeds; `range` and
-- `range_inclusive` list the starts from the first address up to the second. `containing` is the
-- start of the page of an address. `map_to` maps in the page table of the given frame, the other
-- mapping function in the current one.
pub record Paging : Type 1 where
  pub Tables : Type 0
  pub virt_addr : ℕ → Option ℕ
  pub phys_addr : ℕ → Option ℕ
  pub new_truncate : ℕ → ℕ
  pub page_start : ℕ → Bool
  pub frame_start : ℕ → Bool
  pub containing : ℕ → ℕ
  pub range : ℕ → ℕ → List ℕ
  pub range_inclusive : ℕ → ℕ → List ℕ
  pub allocate_frame : Tables → Option ℕ × Tables
  pub map_to : ℕ → ℕ → ℕ → PageTableFlags → Tables → Mapped × Tables
  pub map_to_with_table_flags : ℕ → ℕ → PageTableFlags → Tables → Mapped × Tables

-- `MemoryPerms` from the low bits of a word, and its flags.
unfoldable pub flags_from : {S : Type 0} → ℕ → Prog S SyscallError PageTableFlags
flags_from perms = do
  guard (perms % 2 == 1) wrong_parameters
  pure (record {
    writable = perms / 2 % 2 == 1;
    no_execute = not (perms / 4 % 2 == 1);
    bit_10 = false;
  })

-- `from_start_address(…).map_err(…)?` of an address.
unfoldable pub start_of : {S : Type 0} → (ℕ → Bool) → ℕ → Prog S SyscallError ℕ
start_of is_start addr = do guard (is_start addr) wrong_parameters; pure addr

abbrev pub zip : List ℕ → List ℕ → List (ℕ × ℕ)
zip [] ys = []
zip (x ∷ xs) [] = []
zip (x ∷ xs) (y ∷ ys) = (x, y) ∷ zip xs ys

-- The test of `map_phys` on a capability.
abbrev pub covers : ℕ → ℕ → CapabilityType → Bool
covers from to (map_physical f t) = leb f from && leb to t
covers from to _ = false

module _ (paging : Paging) where
  open paging use {
    Tables, virt_addr, phys_addr, new_truncate, page_start, frame_start, range, allocate_frame,
    map_to_with_table_flags,
  }

  unfoldable pub parse_page_range : {S : Type 0} → ℕ → ℕ → Prog S SyscallError (List ℕ)
  parse_page_range at len = do
    check_addr_userspace at
    checked_sum at len
    assert (leb 1 (at + len))
    check_addr_userspace (at + len - 1)
    start ← unwrap (virt_addr at)
    start_page ← start_of page_start start
    behind ← unwrap (virt_addr (start + len))
    end_page ← start_of page_start behind
    pure (range start_page end_page)

  -- The `match` on the result of a mapping.
  abbrev pub after_map : Mapped × Tables → Outcome Tables SyscallError (Unit {0})
  after_map (mapped, tables) = ok tt tables
  after_map (page_already_mapped, tables) = err memory_already_mapped tables
  after_map (parent_entry_huge_page, tables) = err memory_already_mapped tables
  after_map (frame_allocation_failed, tables) = err no_memory tables

  unfoldable pub map_one : ℕ → ℕ → PageTableFlags → Prog Tables SyscallError (Unit {0})
  map_one page frame flags tables = after_map (map_to_with_table_flags page frame flags tables)

  unfoldable pub take_frame : Prog Tables SyscallError ℕ
  take_frame tables =
      let (answer, rest) = allocate_frame tables in
      elim answer [ none ↦ err no_memory rest | some frame ↦ ok frame rest ]

  -- The loops of the two calls.
  unfoldable pub map_fresh : List ℕ → PageTableFlags → Prog Tables SyscallError (Unit {0})
  map_fresh [] flags = pure tt
  map_fresh (page ∷ pages) flags =
      let rest = map_fresh pages flags in do frame ← take_frame; map_one page frame flags; rest

  unfoldable pub map_pairs : List (ℕ × ℕ) → PageTableFlags → Prog Tables SyscallError (Unit {0})
  map_pairs [] flags = pure tt
  map_pairs ((page, frame) ∷ pairs) flags =
      let rest = map_pairs pairs flags in do map_one page frame flags; rest

  abbrev pub on_kernel :
      {A : Type 0} → Prog Kernel SyscallError A → Prog (Kernel × Tables) SyscallError A
  on_kernel = zoom (λ s. s.0) (λ k s. (k, s.1))

  abbrev pub on_tables :
      {A : Type 0} → Prog Tables SyscallError A → Prog (Kernel × Tables) SyscallError A
  on_tables = zoom (λ s. s.1) (λ t s. (s.0, t))

  module _ (sp : SpinRwLock) where
    -- The first capability of the caller that passes a test.
    unfoldable pub authorized : (CapabilityType → Bool) → Prog Kernel SyscallError (Unit {0})
    authorized test = do
      me ← current_task
      task ← read_context sp me
      _ ← ok_or (find (λ x. test x.1.ctype) task.capabilities.handles) wrong_capability
      pure tt

    unfoldable pub map_virt : ℕ → ℕ → ℕ → Prog (Kernel × Tables) SyscallError (Unit {0})
    map_virt at len perms = do
      page_range ← parse_page_range at len
      _ ← on_kernel (authorized is_map_virtual_to_ram)
      flags ← flags_from perms
      on_tables (map_fresh page_range (record flags { bit_10 = true }))

    unfoldable pub map_phys : ℕ → ℕ → ℕ → ℕ → Prog (Kernel × Tables) SyscallError (Unit {0})
    map_phys virt_at virt_len perms phys_at = do
      page_range ← parse_page_range virt_at virt_len
      let phys_from = new_truncate phys_at
      checked_sum phys_from virt_len
      sum ← unwrap (phys_addr (phys_from + virt_len))
      assert (leb 1 sum)
      phys_to ← unwrap (phys_addr (sum - 1))
      frame ← start_of frame_start phys_from
      behind ← unwrap (phys_addr (phys_to + 1))
      end_frame ← start_of frame_start behind
      let frame_range = range frame end_frame
      _ ← on_kernel (authorized (covers phys_from phys_to))
      flags ← flags_from perms
      on_tables (map_pairs (zip page_range frame_range) flags)
