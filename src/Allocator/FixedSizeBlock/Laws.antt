-- ===== src/Allocator/FixedSizeBlock/Laws.antt =====
-- Size classes and accounting of the allocator of idker/src/allocator/fixed_size_block.rs.
use idkernel.Base.{
  ◌^◌, ℕ, ◌+◌, ◌-◌, ◌≤◌, ◌<◌, ◌≡◌, ◌⊎◌, inl, inr, refl, ◌∙◌, Option, none, some, List, [], ◌∷◌, leb,
  position, get_elem?, All, length, max, ok, ◌>>=◌, arith, ap, sym,
}
use idkernel.Allocator.FixedSizeBlock.{
  block_sizes, Layout, FallbackHeap, list_index, block_size, node_size, slot, set_slot, Allocator,
  fallback_alloc, alloc_block, alloc, dealloc,
}
use idkernel.Allocator.FixedSizeBlock.Positions.{
  position_at, position_least, position-none, get_elem?-lt, get_elem?-there, get_elem?-All,
}
use idkernel.Allocator.FixedSizeBlock.Blocks.{
  free_bytes, free_bytes-push, free_bytes-pop, slot-set_slot, set_slot-set_slot, length-set_slot,
  block_size-index,
}

block_size_at : (i s : ℕ) → get_elem? block_sizes i ≡ some s → block_size i ≡ s
block_size_at i s e = rw e

-- What the index of a layout says of its block.
abbrev pub Serves : Layout → Option ℕ → Type 0
Serves layout none = 2048 < max layout.size layout.align
Serves layout (some i) =
    (i < 9)
    × (layout.size ≤ block_size i)
    × (layout.align ≤ block_size i)
    × (node_size ≤ block_size i)
    × ((j : ℕ) → j < i → block_size j < max layout.size layout.align)

big_blocks : All (λ t. node_size ≤ t) block_sizes
big_blocks = ground arith

-- The index of a layout names one of the nine block sizes: it holds the layout's size and alignment
-- and a list node, and every smaller one is too small for the layout. A layout has no index only if
-- its size or its alignment is above 2048.
pub list_index_lem : (layout : Layout) → Serves layout (list_index layout)
unfolding list_index
list_index_lem layout = go (position (λ s. leb (max layout.size layout.align) s) block_sizes) refl
  where
    go :
        (r : Option ℕ)
        → position (λ s. leb (max layout.size layout.align) s) block_sizes ≡ r
        → Serves layout r
    go none e = position-none (max layout.size layout.align) block_sizes 8 2048 e refl
    go (some i) e =
        let n : ℕ = max layout.size layout.align in
        let (s, at, fits) = position_at n block_sizes i e in
        let i_lt = get_elem?-lt block_sizes i s at in
        let size = block_size_at i s at in
        let big = get_elem?-All (λ t. node_size ≤ t) block_sizes i s big_blocks at in
        (
          i_lt,
          omega (arith, fits, size),
          omega (arith, fits, size),
          omega (arith, big, size),
          λ j h.
              let (t, there) = get_elem?-there block_sizes j (omega (arith, i_lt, h)) in
              omega (arith, block_size_at j t there, position_least n block_sizes i j t e h there),
        )

serves : (layout : Layout) (i : ℕ) → list_index layout ≡ some i → Serves layout (some i)
serves layout i e = let h = list_index_lem layout in rw e at h

list_index-lt :
    (layout : Layout) (i : ℕ) → list_index layout ≡ some i → (i < 9) × (node_size ≤ block_size i)
list_index-lt layout i e =
    let (i_lt, fits, aligned, holds, least) = serves layout i e in (i_lt, holds)

module _ (fallback : FallbackHeap) where
  -- Nine lists, and the counter is the number of bytes on them.
  abbrev pub IsValid : Allocator fallback → Type 0
  IsValid a = (length a.list_heads ≡ 9) × (free_bytes 0 a.list_heads ≡ a.block_free)

  taken : ℕ → List ℕ → Allocator fallback → Allocator fallback
  taken i next a = record a {
    list_heads = set_slot i next a.list_heads;
    block_free = a.block_free - block_size i;
  }

  given : ℕ → ℕ → Allocator fallback → Allocator fallback
  given i ptr a = record a {
    list_heads = set_slot i (ptr ∷ slot i a.list_heads) a.list_heads;
    block_free = a.block_free + block_size i;
  }

  alloc_block_lem :
      {E : Type 0} (a : Allocator fallback) (i node : ℕ) (next : List ℕ)
      → IsValid a
      → slot i a.list_heads ≡ node ∷ next
      → (alloc_block fallback {E = E} i (node ∷ next) a ≡ ok node (taken i next a))
        × IsValid (taken i next a)
        × (block_size i ≤ a.block_free)
  unfolding alloc_block taken
  alloc_block_lem a i node next v e =
      let count = free_bytes-pop node 0 i next a.list_heads e in
      let named = block_size-index i in
      let enough : block_size i ≤ a.block_free = omega (arith, count, named, v.1) in
      (
        ground (arith, enough),
        (length-set_slot i next a.list_heads ∙ v.0, omega (arith, count, named, v.1)),
        enough,
      )

  dealloc_lem :
      {E : Type 0} (a : Allocator fallback) (layout : Layout) (i ptr : ℕ)
      → IsValid a
      → list_index layout ≡ some i
      → a.block_free + block_size i < 2 ^ 64
      → (dealloc fallback {E = E} ptr layout a ≡ ok tt (given i ptr a)) × IsValid (given i ptr a)
  unfolding dealloc given
  dealloc_lem a layout i ptr v e room =
      let (i_lt, holds) = list_index-lt layout i e in
      let count = free_bytes-push ptr 0 i a.list_heads (omega (arith, i_lt, v.0)) in
      let named = block_size-index i in
      (
        ground (arith, e, holds, room),
        (
          length-set_slot i (ptr ∷ slot i a.list_heads) a.list_heads ∙ v.0,
          omega (arith, count, named, v.1),
        ),
      )

  -- The block at the head of the layout's list.
  abbrev pub Reused : Layout → Allocator fallback → ℕ → Allocator fallback → Type 0
  Reused layout a ptr a' =
      (i : ℕ) × (list_index layout ≡ some i)
      × (slot i a.list_heads ≡ ptr ∷ slot i a'.list_heads)
      × (a'.block_free + block_size i ≡ a.block_free)
      × (a'.fallback_allocator ≡ a.fallback_allocator)

  -- An answer of the fallback heap to a request that is at least as large.
  abbrev pub Requested : Layout → Allocator fallback → ℕ → Allocator fallback → Type 0
  Requested layout a ptr a' =
      (l : Layout) × (layout.size ≤ l.size)
      × (layout.align ≤ l.align)
      × (a'.list_heads ≡ a.list_heads)
      × (a'.block_free ≡ a.block_free)
      × (ptr
          ≡ elim (fallback.allocate_first_fit l a.fallback_allocator).0 [ none ↦ 0 | some p ↦ p ])
      × (a'.fallback_allocator ≡ (fallback.allocate_first_fit l a.fallback_allocator).1)

  -- In a state with nine lists whose bytes are what is counted as free, an allocation succeeds with
  -- such a state after it: either it returns the first block of the list of the layout's index,
  -- takes it off the list and its size off the count; or it leaves lists and count and returns the
  -- answer of the fallback heap to a request at least as large and as aligned.
  pub alloc_lem :
      {E : Type 0} (a : Allocator fallback) (layout : Layout)
      → IsValid a
      → (ptr : ℕ) × (a' : Allocator fallback) × (alloc fallback {E = E} layout a ≡ ok ptr a')
        × IsValid a'
        × (Reused layout a ptr a' ⊎ Requested layout a ptr a')
  unfolding alloc fallback_alloc alloc_block taken
  alloc_lem {E = E} a layout v = go (list_index layout) refl (slot_of (list_index layout)) refl
    where
      slot_of : Option ℕ → List ℕ
      slot_of none = []
      slot_of (some i) = slot i a.list_heads

      go :
          (o : Option ℕ)
          → list_index layout ≡ o
          → (l : List ℕ) → slot_of o ≡ l
          → (ptr : ℕ) × (a' : Allocator fallback) × (alloc fallback {E = E} layout a ≡ ok ptr a')
            × IsValid a'
            × (Reused layout a ptr a' ⊎ Requested layout a ptr a')
      go none e l f =
          (_, _, rw (e, alloc), v, inr (layout, omega arith, omega arith, refl, refl, refl, refl))
      go (some i) e [] f =
          let (i_lt, fits, aligned, holds, least) = serves layout i e in
          (
            _,
            _,
            rw (e, alloc, f),
            v,
            inr (
              record { size = block_size i; align = block_size i },
              fits,
              aligned,
              refl,
              refl,
              refl,
              refl,
            ),
          )
      go (some i) e (node ∷ next) f =
          let (result, after, enough) = alloc_block_lem {E = E} a i node next v f in
          let (i_lt, holds) = list_index-lt layout i e in
          (
            node,
            taken i next a,
            ground (arith, e, f, result),
            after,
            inl (
              i,
              e,
              f
                  ∙ ap (λ t. node ∷ t)
                      (sym (slot-set_slot i next a.list_heads (omega (arith, i_lt, v.0)))),
              omega (arith, enough),
              refl,
            ),
          )

  given-slot :
      (a : Allocator fallback) (i ptr : ℕ)
      → i < length a.list_heads
      → slot i (given i ptr a).list_heads ≡ ptr ∷ slot i a.list_heads
  unfolding given
  given-slot a i ptr h = slot-set_slot i (ptr ∷ slot i a.list_heads) a.list_heads h

  taken-given :
      (a : Allocator fallback) (i ptr : ℕ) → taken i (slot i a.list_heads) (given i ptr a) ≡ a
  unfolding given taken
  taken-given a i ptr =
      let heads = set_slot-set_slot i (ptr ∷ slot i a.list_heads) a.list_heads in
      let count : a.block_free + block_size i - block_size i ≡ a.block_free = omega arith in
      rw (heads, count)

  -- In a state with nine lists whose bytes are what is counted as free, and whose count does not
  -- overflow with the size of one more block, giving back a block for a layout with a list and then
  -- allocating for a layout of the same list returns that block and restores the state.
  pub dealloc-alloc :
      {E : Type 0} (a : Allocator fallback) (layout again : Layout) (i ptr : ℕ)
      → IsValid a
      → list_index layout ≡ some i
      → list_index again ≡ some i
      → a.block_free + block_size i < 2 ^ 64
      → (dealloc fallback {E = E} ptr layout >>= λ _. alloc fallback again) a ≡ ok ptr a
  unfolding alloc
  dealloc-alloc {E = E} a layout again i ptr v e f room =
      let (result, after) = dealloc_lem {E = E} a layout i ptr v e room in
      let (i_lt, holds) = list_index-lt layout i e in
      let head = given-slot a i ptr (omega (arith, i_lt, v.0)) in
      let (taken_again, valid, enough) =
        alloc_block_lem {E = E} (given i ptr a) i ptr (slot i a.list_heads) after head in
      ground (arith, f, result, head, taken_again, taken-given a i ptr)
