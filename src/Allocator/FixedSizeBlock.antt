-- ===== src/Allocator/FixedSizeBlock.antt =====
-- idker/src/allocator/fixed_size_block.rs: the global allocator of the kernel. A free block is its
-- address. The fallback heap of the crate linked_list_allocator is a parameter.
mod Positions
mod Blocks
pub mod Laws
use idkernel.Base.{
  ℕ, zero, suc, ◌+◌, ◌-◌, ◌≤◌, ◌≡◌, ◌⊎◌, Bool, true, false, Option, none, some, List, [], ◌∷◌,
  if◌then◌else◌, leb, ltb, ◌&&◌, ◌^◌, position, get_elem?, max, Outcome, ok, panic, Prog,
}

abbrev pub block_sizes : List ℕ
block_sizes = 8 ∷ 16 ∷ 32 ∷ 64 ∷ 128 ∷ 256 ∷ 512 ∷ 1024 ∷ 2048 ∷ []

-- `core::alloc::Layout`.
pub record Layout : Type 0 where
  pub size : ℕ
  pub align : ℕ

-- What the code calls of `linked_list_allocator::Heap`; an allocation that fails is `none`.
pub record FallbackHeap : Type 1 where
  pub Heap : Type 0
  pub allocate_first_fit : Layout → Heap → Option ℕ × Heap
  pub deallocate : ℕ → Layout → Heap → Heap
  pub used : Heap → ℕ
  pub free : Heap → ℕ
  pub size : Heap → ℕ

-- The index of the smallest block size that serves a layout.
unfoldable pub list_index : Layout → Option ℕ
list_index layout = position (λ s. leb (max layout.size layout.align) s) block_sizes

abbrev pub block_size : ℕ → ℕ
block_size index = elim (get_elem? block_sizes index) [ none ↦ 0 | some s ↦ s ]

-- The size and the alignment of a `ListNode`, one pointer.
abbrev pub node_size : ℕ
node_size = 8

-- A slot of the array of lists, and the array with another list there.
abbrev pub slot : ℕ → List (List ℕ) → List ℕ
slot index heads = elim (get_elem? heads index) [ none ↦ [] | some l ↦ l ]

abbrev pub set_slot : ℕ → List ℕ → List (List ℕ) → List (List ℕ)
set_slot index l [] = []
set_slot zero l (x ∷ heads) = l ∷ heads
set_slot (suc index) l (x ∷ heads) = x ∷ set_slot index l heads

module _ (fallback : FallbackHeap) where
  open fallback use {Heap, allocate_first_fit, deallocate}

  pub record Allocator : Type 0 where
    pub list_heads : List (List ℕ)
    pub fallback_allocator : Heap
    pub block_free : ℕ

  unfoldable pub new : Heap → Allocator
  new empty = record {
    list_heads = [] ∷ [] ∷ [] ∷ [] ∷ [] ∷ [] ∷ [] ∷ [] ∷ [] ∷ [];
    fallback_allocator = empty;
    block_free = 0;
  }

  -- `fallback_alloc`: 0 is the null pointer.
  unfoldable pub fallback_alloc : {E : Type 0} → Layout → Prog Allocator E ℕ
  fallback_alloc layout a =
      let (answer, heap) = allocate_first_fit layout a.fallback_allocator in
      ok (elim answer [ none ↦ 0 | some ptr ↦ ptr ]) (record a { fallback_allocator = heap })

  -- The two cases of a list head; `block_free` is checked on the subtraction.
  unfoldable pub alloc_block : {E : Type 0} → ℕ → List ℕ → Prog Allocator E ℕ
  alloc_block index [] a =
      fallback_alloc (record { size = block_size index; align = block_size index }) a
  alloc_block index (node ∷ next) a =
      if leb (block_size index) a.block_free
      then ok node (record a {
        list_heads = set_slot index next a.list_heads;
        block_free = a.block_free - block_size index;
      })
      else panic

  unfoldable pub alloc : {E : Type 0} → Layout → Prog Allocator E ℕ
  alloc layout a = elim (list_index layout) [
    | some index ↦ alloc_block index (slot index a.list_heads) a
    | none ↦ fallback_alloc layout a
  ]

  unfoldable pub dealloc : {E : Type 0} → ℕ → Layout → Prog Allocator E (Unit {0})
  dealloc ptr layout a = elim (list_index layout) [
    | some index ↦
        if leb node_size (block_size index) && ltb (a.block_free + block_size index) (2 ^ 64)
        then ok tt (record a {
          list_heads = set_slot index (ptr ∷ slot index a.list_heads) a.list_heads;
          block_free = a.block_free + block_size index;
        })
        else panic
    | none ↦
        if leb 1 ptr
        then ok tt (record a { fallback_allocator = deallocate ptr layout a.fallback_allocator })
        else panic
  ]

  -- `used` and `free` count the blocks on the lists as free; `none` where that overflows.
  unfoldable pub used : Allocator → Option ℕ
  used a =
      let heap = fallback.used a.fallback_allocator in
      if leb a.block_free heap then some (heap - a.block_free) else none

  unfoldable pub free : Allocator → Option ℕ
  free a =
      let sum = fallback.free a.fallback_allocator + a.block_free in
      if ltb sum (2 ^ 64) then some sum else none
