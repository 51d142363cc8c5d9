-- ===== src/Allocator/LinkedList/Laws.antt =====
-- First fit in the free list of idker/src/allocator/linked_list.rs.
use idkernel.Base.{
  ℕ, ◌+◌, ◌*◌, ◌^◌, ◌≡◌, ◌≤◌, ◌<◌, ◌⊎◌, ap, subst, sym, refl, List, [], ◌∷◌, ◌++◌, All, arith,
}
use idkernel.Allocator.Align.{align_up_lem}
use idkernel.Allocator.LinkedList.{
  Region, Fit, suitable, unsuitable, overflowing, Found, found, missing, broken, pass,
  alloc_from_region, find_region, list_node_size,
}

-- For an alignment `2 ^ k` that fits into the 64-bit word and a region whose address does not
-- overflow with it: where `alloc_from_region` finds the region suitable, the allocation starts at a
-- multiple of the alignment in it, less than the alignment behind its start, and ends with the
-- region, or leaves room for a node behind it.
pub alloc_from_region_lem :
    (region : Region) (size k w start : ℕ)
    → k + w ≡ 64
    → region.start_addr + 2 ^ k < 2 ^ 64
    → alloc_from_region region size (2 ^ k) ≡ suitable start
    → (q : ℕ) × (start ≡ q * 2 ^ k)
      × (region.start_addr ≤ start)
      × (start < region.start_addr + 2 ^ k)
      × ((start + size ≡ region.start_addr + region.size)
          ⊎ (start + size + list_node_size ≤ region.start_addr + region.size))
unfolding alloc_from_region
alloc_from_region_lem region size k w start e room fit =
    let (r, q, up, multiple, low, high) = align_up_lem region.start_addr k w e room in
    let same : r ≡ start = ground (arith, up, fit) in
    (
      q,
      omega (arith, same, multiple),
      omega (arith, same, low),
      omega (arith, same, high),
      ground (arith, up, fit),
    )

-- The region that is found: those before it do not suit, and the others are left.
abbrev pub FirstFit : ℕ → ℕ → List Region → Region → ℕ → List Region → Type 0
FirstFit size align regions region start rest =
    (before : List Region) × (behind : List Region) × (regions ≡ before ++ region ∷ behind)
    × (rest ≡ before ++ behind)
    × (alloc_from_region region size align ≡ suitable start)
    × All (λ r. alloc_from_region r size align ≡ unsuitable) before

-- What each answer of a search says of the list.
abbrev pub Answers : ℕ → ℕ → List Region → Found → Type 0
Answers size align regions (found region start rest) = FirstFit size align regions region start rest
Answers size align regions missing = All (λ r. alloc_from_region r size align ≡ unsuitable) regions
Answers size align regions broken =
    (before : List Region) × (region : Region) × (behind : List Region) × (regions
      ≡ before ++ region ∷ behind)
    × (alloc_from_region region size align ≡ overflowing)

pass-Answers :
    (size align : ℕ) (r : Region) (next : List Region) (answer : Found)
    → alloc_from_region r size align ≡ unsuitable
    → Answers size align next answer
    → Answers size align (r ∷ next) (pass r answer)
pass-Answers size align r next (found region start rest) e
      (before, behind, all, left, fit, none_before) =
    (r ∷ before, behind, ap (λ l. r ∷ l) all, ap (λ l. r ∷ l) left, fit, (e, none_before))
pass-Answers size align r next missing e a = (e, a)
pass-Answers size align r next broken e (before, region, behind, all, over) =
    (r ∷ before, region, behind, ap (λ l. r ∷ l) all, over)

-- `find_region` takes the first region that is suitable, with all those before it unsuitable, and
-- leaves the others in order; if it finds none, all are unsuitable, and if it stops on an overflow,
-- there is a region on which a sum overflows.
pub find_region_lem :
    (size align : ℕ) (regions : List Region)
    → Answers size align regions (find_region size align regions)
unfolding find_region
find_region_lem size align [] = tt
find_region_lem size align (r ∷ next) =
    go (alloc_from_region r size align) refl (find_region_lem size align next)
  where
    go :
        (fit : Fit)
        → alloc_from_region r size align ≡ fit
        → Answers size align next (find_region size align next)
        → Answers size align (r ∷ next) (find_region size align (r ∷ next))
    go (suitable start) e a =
        let h : find_region size align (r ∷ next) ≡ found r start next = ground (arith, e) in
        subst (Answers size align (r ∷ next)) (sym h) ([], next, refl, refl, e, tt)
    go unsuitable e a =
        let h : find_region size align (r ∷ next) ≡ pass r (find_region size align next) =
          ground (arith, e) in
        subst (Answers size align (r ∷ next)) (sym h)
          (pass-Answers size align r next (find_region size align next) e a)
    go overflowing e a =
        let h : find_region size align (r ∷ next) ≡ broken = ground (arith, e) in
        subst (Answers size align (r ∷ next)) (sym h) ([], r, next, refl, e)
