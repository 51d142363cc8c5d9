-- ===== src/Paging/Frames/Laws.antt =====
-- Which frames `BootInfoFrameAllocator` of idker/src/arch/x86_64/paging/frame_allocator.rs hands out.
use idkernel.Base.{
  Among, ℕ, zero, suc, ◌%◌, ◌^◌, ◌<◌, ◌≡◌, ◌≢◌, inl, inr, refl, Option, none, some, List, [], ◌∷◌,
  drop, All, All-map, arith, ok, Prog, ◌>>=◌, pure,
}
use idkernel.Paging.Frames.{MemoryRegion, Physical, init, allocate_frame}
use idkernel.Paging.Frames.Regions.{
  Pairwise, Aligned, Apart, InUsable, init-InUsable, init-Distinct, init-Among,
}

-- So many requests after each other.
abbrev pub allocations : {E : Type 0} → Physical → ℕ → Prog (List ℕ) E (List (Option ℕ))
allocations p zero = pure []
allocations p (suc n) = allocate_frame p >>= λ f. allocations p n >>= λ fs. pure (f ∷ fs)

-- The frames in order, and nothing once they have run out.
abbrev pub answers : ℕ → List ℕ → List (Option ℕ)
answers zero fs = []
answers (suc n) [] = none ∷ answers n []
answers (suc n) (f ∷ fs) = some f ∷ answers n fs

-- What is used of the crate x86_64.
pub record Documented (p : Physical) : Type 0 where
  pub below : (a : ℕ) → a < 2 ^ 52 → p.phys_addr a ≡ some a
  pub whole : (a : ℕ) → a % 4096 ≡ 0 → p.containing_address a ≡ a

InUsable-below :
    (regions : List MemoryRegion) (f : ℕ)
    → All Aligned regions
    → InUsable regions f
    → (f < 2 ^ 52) × (f % 4096 ≡ 0)
InUsable-below [] f a h = absurd h
InUsable-below (r ∷ regions) f a (inl (u, h)) = (omega (arith, h.1, a.0.2), h.2)
InUsable-below (r ∷ regions) f a (inr h) = InUsable-below regions f a.1 h

drop-none : (n : ℕ) → drop {A = ℕ} n [] ≡ []
drop-none zero = refl
drop-none (suc n) = refl

allocations-answers :
    {E : Type 0} (p : Physical)
    → Documented p
    → (n : ℕ) (fs : List ℕ) → All (λ f. (f < 2 ^ 52) × (f % 4096 ≡ 0)) fs
    → allocations {E = E} p n fs ≡ ok (answers n fs) (drop n fs)
unfolding allocate_frame
allocations-answers {E} p d zero fs h = refl
allocations-answers {E} p d (suc n) [] h =
    ground (arith, allocations-answers {E = E} p d n [] h, drop-none n)
allocations-answers {E} p d (suc n) (f ∷ fs) h =
    ground (arith, d.below f h.0.0, d.whole f h.0.1, allocations-answers {E = E} p d n fs h.1)

module _ (p : Physical) (regions : List MemoryRegion) where
  -- Let every region of the memory map consist of whole pages below `2 ^ 52`, the regions be apart
  -- from each other, and the crate accept every address below that and keep the start of a frame.
  -- Then any number of requests to the boot frame allocator are answered with its frames in order,
  -- and with nothing once these have run out; each of the frames lies wholly in a usable region, no
  -- frame is handed out twice, and every frame that lies wholly in a usable region is among them.
  pub allocations_lem :
      Documented p
      → All Aligned regions
      → Pairwise Apart regions
      → (n f : ℕ) → InUsable regions f
      → (allocations {E = ⊥} p n (init regions)
          ≡ ok (answers n (init regions)) (drop n (init regions)))
        × All (InUsable regions) (init regions)
        × Pairwise (λ x y. x ≢ y) (init regions)
        × Among f (init regions)
  allocations_lem d a c n f h = (
    allocations-answers p d n (init regions) (
        All-map (InUsable regions) _ (init regions) (λ g u. InUsable-below regions g a u)
          (init-InUsable regions a)),
    init-InUsable regions a,
    init-Distinct regions a c,
    init-Among regions f a h,
  )
