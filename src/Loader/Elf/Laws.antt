-- ===== src/Loader/Elf/Laws.antt =====
-- What the pages of a program hold after idker/src/context/elf.rs has mapped it.
use idkernel.Base.{
  ℕ, ◌-◌, ◌≤◌, ◌≡◌, Outcome, Option, none, some, List, [], ◌∷◌, ◌++◌, length, take, replicate, min,
  Str, ok, panic, arith, ◌==◌, ◌||◌, Bool, false, length-append, length-replicate, length-take,
}
use idkernel.Memory.{Paging, PageTableFlags, mapped}
use idkernel.Loader.Elf.{page_bytes, page_image, Space}

-- A page is full.
length-page_image :
    (off : ℕ) (bytes : Str) → off ≤ page_bytes → length (page_image off bytes) ≡ page_bytes
unfolding page_image
length-page_image off bytes h =
    let n = min (page_bytes - off) (length bytes) in
    omega (
      arith,
      length-append (replicate off 0) (take n bytes ++ replicate (page_bytes - off - n) 0),
      length-append (take n bytes) (replicate (page_bytes - off - n) 0),
      length-replicate {A = ℕ} off 0,
      length-replicate {A = ℕ} (page_bytes - off - n) 0,
      length-take n bytes,
    )

-- Whether a frame is in a list.
abbrev pub listed : ℕ → List ℕ → Bool
listed f [] = false
listed f (x ∷ xs) = (f == x) || listed f xs

module _ (paging : Paging) where
  -- The pages stand behind the frames, in order: each frame is the next that the allocator gives, and
  -- the page table maps the page to it; the tables go from the first to the second state.
  abbrev pub Backed : ℕ → PageTableFlags → List ℕ → List ℕ → paging.Tables → paging.Tables → Type 0
  Backed table flags [] [] t t' = t' ≡ t
  Backed table flags [] (frame ∷ used) t t' = ⊥
  Backed table flags (page ∷ pages) [] t t' = ⊥
  Backed table flags (page ∷ pages) (frame ∷ used) t t' =
      (given : paging.Tables) × (left : paging.Tables) × (paging.allocate_frame t
        ≡ (some frame, given))
      × (paging.map_to table page frame flags given ≡ (mapped, left))
      × Backed table flags pages used left t'

  abbrev taken : {E : Type 0} → Option ℕ × paging.Tables → (ℕ → Str) → Outcome (Space paging) E ℕ
  taken (answer, rest) frames = elim answer [ none ↦ panic | some frame ↦ ok frame (rest, frames) ]
