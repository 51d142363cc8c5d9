-- ===== src/Allocator/LinkedList.antt =====
-- idker/src/allocator/linked_list.rs: a free list whose nodes stand in the free regions. A region
-- is its address and its size; the head node, which is no region, is left out.
pub mod Laws
use idkernel.Base.{
  ℕ, ◌+◌, ◌-◌, ◌*◌, ◌/◌, ◌^◌, max, Bool, true, false, ◌&&◌, Option, none, some, List, [], ◌∷◌,
  if◌then◌else◌, ltb, leb, ◌==◌, Outcome, ok, panic, Prog, ◌>>=◌, ◌>>◌, pure, modify, unwrap,
  assert,
}
use idkernel.Allocator.Align.{align_up}
use idkernel.Allocator.FixedSizeBlock.{Layout}

pub record Region : Type 0 where
  pub start_addr : ℕ
  pub size : ℕ

-- The size and the alignment of a `ListNode`.
abbrev pub list_node_size : ℕ
list_node_size = 16

abbrev pub list_node_align : ℕ
list_node_align = 8

-- `add_free_region`: to the front of the list.
unfoldable pub add_free_region : {E : Type 0} → ℕ → ℕ → Prog (List Region) E (Unit {0})
add_free_region addr size = do
  aligned ← unwrap (align_up addr list_node_align)
  assert (aligned == addr)
  assert (leb list_node_size size)
  modify (λ regions. record { start_addr = addr; size = size } ∷ regions)

-- The answers of `alloc_from_region`; a checked sum that overflows panics.
pub data Fit : Type 0 where
  suitable : ℕ → Fit
  unsuitable overflowing : Fit

unfoldable pub alloc_from_region : Region → ℕ → ℕ → Fit
alloc_from_region region size align = elim (align_up region.start_addr align) [
  | none ↦ overflowing
  | some alloc_start ↦
      let alloc_end = alloc_start + size in
      let end_addr = region.start_addr + region.size in
      let excess_size = end_addr - alloc_end in
      if leb (2 ^ 64) alloc_end
      then unsuitable
      else if leb (2 ^ 64) end_addr
      then overflowing
      else if ltb end_addr alloc_end
      then unsuitable
      else if ltb 0 excess_size && ltb excess_size list_node_size
      then unsuitable
      else suitable alloc_start
]

-- The answers of `find_region`: a region, where the allocation starts in it, and the other regions.
pub data Found : Type 0 where
  found : Region → ℕ → List Region → Found
  missing broken : Found

-- One region of the list passed over.
abbrev pub pass : Region → Found → Found
pass region (found r start rest) = found r start (region ∷ rest)
pass region missing = missing
pass region broken = broken

unfoldable pub find_region : ℕ → ℕ → List Region → Found
find_region size align [] = missing
find_region size align (region ∷ next) =
    let rest = find_region size align next in
    elim (alloc_from_region region size align) [
      | suitable alloc_start ↦ found region alloc_start next
      | unsuitable ↦ pass region rest
      | overflowing ↦ broken
    ]

-- `size_align`; `none` where `align_to` fails.
unfoldable pub size_align : Layout → Option (ℕ × ℕ)
size_align layout =
    let align = max layout.align list_node_align in
    let padded = (layout.size + align - 1) / align * align in
    if ltb padded (2 ^ 63) then some (max padded list_node_size, align) else none

-- The rest of a region behind the allocation goes back to the list.
unfoldable pub split : {E : Type 0} → Region → ℕ → ℕ → Prog (List Region) E ℕ
split region alloc_start size = do
  let excess_size = region.start_addr + region.size - (alloc_start + size)
  if ltb 0 excess_size then add_free_region (alloc_start + size) excess_size else pure tt
  pure alloc_start

-- `alloc`: 0 is the null pointer.
unfoldable pub alloc : {E : Type 0} → Layout → Prog (List Region) E ℕ
alloc layout regions = elim (size_align layout) [
  | none ↦ panic
  | some (size, align) ↦ elim (find_region size align regions) [
    | found region alloc_start rest ↦ split region alloc_start size rest
    | missing ↦ ok 0 regions
    | broken ↦ panic
  ]
]

unfoldable pub dealloc : {E : Type 0} → ℕ → Layout → Prog (List Region) E (Unit {0})
dealloc ptr layout = do sizes ← unwrap (size_align layout); add_free_region ptr sizes.0
