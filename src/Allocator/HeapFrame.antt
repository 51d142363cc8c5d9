-- ===== src/Allocator/HeapFrame.antt =====
-- idker/src/allocator/heap_frame.rs: frames taken from the heap. The heap, the page table that
-- translates an address and `VirtAddr::new` are parameters; a panic is `none` or `panic`.
pub mod Laws
use idkernel.Base.{
  ℕ, ◌+◌, ◌-◌, ◌^◌, Bool, true, false, ◌&&◌, Option, none, some, List, [], ◌∷◌, if◌then◌else◌, ltb,
  leb, find, map_option, Outcome, ok, panic, Prog, ◌>>=◌, ◌>>◌, pure, get, modify, unwrap, assert,
}

-- A region of the boot loader's map.
pub record MemoryRegion : Type 0 where
  pub usable : Bool
  pub start : ℕ
  pub limit : ℕ

-- `limit` is the field `end`.
pub record HeapRegion : Type 0 where
  pub start : ℕ
  pub limit : ℕ
  pub virt_start : Option ℕ

-- The usable regions that hold a page, in order.
unfoldable pub new : List MemoryRegion → Option (List HeapRegion)
new [] = some []
new (x ∷ memory_map) =
    let entries = new memory_map in
    let entry : HeapRegion = record { start = x.start; limit = x.limit; virt_start = none } in
    if x.usable
    then (if ltb x.limit x.start
        then none
        else if leb 4096 (x.limit - x.start)
        then map_option (λ l. entry ∷ l) entries
        else entries)
    else entries

abbrev pub contains : ℕ → HeapRegion → Bool
contains addr x = leb x.start addr && ltb addr x.limit

-- The virtual start of a region from one pair of addresses in it, unless it is there.
unfoldable pub set_virt_start : ℕ → ℕ → HeapRegion → Option HeapRegion
set_virt_start paddr vaddr region = elim region.virt_start [
  | some _ ↦ some region
  | none ↦
      if ltb (paddr - region.start) vaddr
      then some (record region { virt_start = some (vaddr - (paddr - region.start)) })
      else none
]

-- `check_region_virt` on the entries; `none` is a panic.
unfoldable pub check_entries : ℕ → ℕ → List HeapRegion → Option (List HeapRegion)
check_entries paddr vaddr [] = none
check_entries paddr vaddr (x ∷ entries) =
    let rest = check_entries paddr vaddr entries in
    if contains paddr x
    then map_option (λ y. y ∷ entries) (set_virt_start paddr vaddr x)
    else map_option (λ l. x ∷ l) rest

unfoldable pub check_region_virt : {E : Type 0} → ℕ → ℕ → Prog (List HeapRegion) E (Unit {0})
check_region_virt paddr vaddr = do
  entries ← get
  checked ← unwrap (check_entries paddr vaddr entries)
  modify (λ _. checked)

module _ (virt_addr : ℕ → Option ℕ) where
  -- The translation by a region.
  unfoldable pub in_region : ℕ → HeapRegion → Option ℕ
  in_region paddr entry = elim entry.virt_start [
    | none ↦ none
    | some vstart ↦
        let vaddr = vstart + (paddr - entry.start) in
        if ltb vaddr (2 ^ 64) then virt_addr vaddr else none
  ]

  unfoldable pub phys_to_virt : ℕ → List HeapRegion → Option ℕ
  phys_to_virt paddr entries = elim (find (contains paddr) entries) [
    | none ↦ none
    | some entry ↦ in_region paddr entry
  ]

  -- `deallocate_frame`: the address of the box that is dropped.
  unfoldable pub deallocate_frame : {E : Type 0} → ℕ → Prog (List HeapRegion) E ℕ
  deallocate_frame paddr = do entries ← get; unwrap (phys_to_virt paddr entries)

-- `allocate_frame`, given the answer of the heap, the translation and the test of frame starts.
unfoldable pub allocate_frame :
    {E : Type 0} → Option ℕ → (ℕ → Option ℕ) → (ℕ → Bool) → Prog (List HeapRegion) E (Option ℕ)
allocate_frame none translate frame_start = pure none
allocate_frame (some vaddr) translate frame_start = do
  paddr ← unwrap (translate vaddr)
  check_region_virt paddr vaddr
  assert (frame_start paddr)
  pure (some paddr)
