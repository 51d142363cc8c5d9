-- ===== src/Paging/Frames/Regions.antt =====
-- The frames of the usable regions of a memory map, as
-- idker/src/arch/x86_64/paging/frame_allocator.rs lists them.
use idkernel.Base.{
  ℕ, zero, suc, ◌+◌, ◌-◌, ◌*◌, ◌/◌, ◌%◌, ◌^◌, ◌≤◌, ◌<◌, ◌≡◌, ◌≢◌, ◌⊎◌, inl, inr, refl, Bool, true,
  false, Bool-cases, List, [], ◌∷◌, ◌++◌, Among, Among-append, All, All-append, All-map, arith,
  ◌==◌, ==_iff, leb, if◌then◌else◌,
}
use idkernel.Paging.Frames.{MemoryRegion, stepped, addresses, usable_frames, init}

-- Each element apart from all those behind it.
abbrev pub Pairwise : {A : Type 0} → (A → A → Type 0) → List A → Type 0
Pairwise R [] = Unit
Pairwise R (x ∷ xs) = All (R x) xs × Pairwise R xs

-- A region of whole pages below the limit of physical addresses.
abbrev pub Aligned : MemoryRegion → Type 0
Aligned r = (r.start % 4096 ≡ 0) × (r.end % 4096 ≡ 0) × (r.end ≤ 2 ^ 52)

abbrev pub Apart : MemoryRegion → MemoryRegion → Type 0
Apart r q = (r.end ≤ q.start) ⊎ (q.end ≤ r.start)

-- A frame that lies wholly in a region.
abbrev pub Inside : MemoryRegion → ℕ → Type 0
Inside r f = (r.start ≤ f) × (f + 4096 ≤ r.end) × (f % 4096 ≡ 0)

-- A frame that lies wholly in a usable region of the map.
abbrev pub InUsable : List MemoryRegion → ℕ → Type 0
InUsable [] f = ⊥
InUsable (r ∷ regions) f = ((r.usable ≡ true) × Inside r f) ⊎ InUsable regions f

module _ {A : Type 0} (R : A → A → Type 0) where
  Pairwise-append :
      (xs ys : List A)
      → Pairwise R xs
      → Pairwise R ys
      → All (λ x. All (R x) ys) xs
      → Pairwise R (xs ++ ys)
  Pairwise-append [] ys h g c = g
  Pairwise-append (x ∷ xs) ys h g c =
      (All-append (R x) xs ys h.0 c.0, Pairwise-append xs ys h.1 g c.1)

stepped-Inside :
    (n s l e : ℕ)
    → s % 4096 ≡ 0
    → l ≤ s
    → s + n * 4096 ≤ e
    → All (λ f. (l ≤ f) × (f + 4096 ≤ e) × (f % 4096 ≡ 0)) (stepped n s)
stepped-Inside zero s l e a b c = tt
stepped-Inside (suc n) s l e a b c = (
  (b, omega (arith, c), a),
  stepped-Inside n (s + 4096) l e (omega (arith, a)) (omega (arith, b)) (omega (arith, c)),
)

stepped-Pairwise : (n s : ℕ) → s % 4096 ≡ 0 → Pairwise (λ x y. x ≢ y) (stepped n s)
stepped-Pairwise zero s a = tt
stepped-Pairwise (suc n) s a = (
  All-map _ (λ y. s ≢ y) (stepped n (s + 4096)) (λ y h e. omega (arith, h.0, e))
      (stepped-Inside n (s + 4096) (s + 4096) (s + 4096 + n * 4096) (omega (arith, a)) (omega arith)
        (omega arith)),
  stepped-Pairwise n (s + 4096) (omega (arith, a)),
)

stepped-Among :
    (n s f : ℕ) → s % 4096 ≡ 0 → f % 4096 ≡ 0 → s ≤ f → f < s + n * 4096 → Among f (stepped n s)
stepped-Among zero s f a b c d = absurd (omega (arith, c, d))
stepped-Among (suc n) s f a b c d = elim (Bool-cases (f == s)) [
  | inl here ↦ inl ((==_iff f s).0 here)
  | inr other ↦
      let apart : f ≢ s = ground (arith, other) in
      inr (
        stepped-Among n (s + 4096) f (omega (arith, a)) b (omega (arith, a, b, c, apart))
          (omega (arith, d)))
]

abbrev Distinct : List ℕ → Type 0
Distinct fs = Pairwise (λ x y. x ≢ y) fs

module _ (r : MemoryRegion) (a : Aligned r) where
  whole_pages : (r.start ≤ r.end) → r.start + (r.end - r.start + 4095) / 4096 * 4096 ≡ r.end
  whole_pages h = omega (arith, h, a.0, a.1)

  no_pages : r.end < r.start → (r.end - r.start + 4095) / 4096 ≡ 0
  no_pages h = omega (arith, h)

  addresses-Inside : All (Inside r) (addresses r)
  unfolding addresses
  addresses-Inside = elim (Bool-cases (leb r.start r.end)) [
    | inl up ↦
        stepped-Inside ((r.end - r.start + 4095) / 4096) r.start r.start r.end a.0 (omega arith)
          (omega (arith, whole_pages (ground (arith, up))))
    | inr down ↦ rw (no_pages (ground (arith, down))) tt
  ]

  addresses-Distinct : Distinct (addresses r)
  unfolding addresses
  addresses-Distinct = stepped-Pairwise ((r.end - r.start + 4095) / 4096) r.start a.0

  addresses-Among : (f : ℕ) → Inside r f → Among f (addresses r)
  unfolding addresses
  addresses-Among f h =
      stepped-Among ((r.end - r.start + 4095) / 4096) r.start f a.0 h.2 h.0
        (omega (arith, h.0, h.1, whole_pages (omega (arith, h.0, h.1))))

  -- A frame of the region is in no region apart from it.
  Inside-Apart :
      (regions : List MemoryRegion) (x y : ℕ)
      → All (Apart r) regions
      → Inside r x
      → InUsable regions y
      → x ≢ y
  Inside-Apart [] x y c h g = absurd g
  Inside-Apart (q ∷ regions) x y c h (inr g) = Inside-Apart regions x y c.1 h g
  Inside-Apart (q ∷ regions) x y c h (inl (u, g)) = λ e. elim c.0 [
    | inl before ↦ omega (arith, before, h.0, h.1, g.0, g.1, e)
    | inr behind ↦ omega (arith, behind, h.0, h.1, g.0, g.1, e)
  ]

-- The frames of a region in front of the others, if it is usable.
module _ (xs ys : List ℕ) where
  if-All :
      (P : ℕ → Type 0) (b : Bool)
      → (b ≡ true → All P xs)
      → All P ys
      → All P (if b then xs ++ ys else ys)
  if-All P true h g = All-append P xs ys (h refl) g
  if-All P false h g = g

  if-Distinct :
      (b : Bool)
      → Distinct xs
      → Distinct ys
      → All (λ x. All (λ y. x ≢ y) ys) xs
      → Distinct (if b then xs ++ ys else ys)
  if-Distinct true h g c = Pairwise-append (λ x y. x ≢ y) xs ys h g c
  if-Distinct false h g c = g

  if-Among :
      (f : ℕ) (b : Bool)
      → ((b ≡ true) × Among f xs) ⊎ Among f ys
      → Among f (if b then xs ++ ys else ys)
  if-Among f true (inl (u, h)) = Among-append f xs ys (inl h)
  if-Among f true (inr h) = Among-append f xs ys (inr h)
  if-Among f false (inl (u, h)) = absurd (ground (arith, u))
  if-Among f false (inr h) = h

pub init-InUsable :
    (regions : List MemoryRegion) → All Aligned regions → All (InUsable regions) (init regions)
unfolding init usable_frames
init-InUsable [] a = tt
init-InUsable (r ∷ regions) a =
    if-All (addresses r) (usable_frames regions) (InUsable (r ∷ regions)) r.usable
      (λ u. All-map (Inside r) _ (addresses r) (λ f h. inl (u, h)) (addresses-Inside r a.0))
      (All-map (InUsable regions) _ (usable_frames regions) (λ f h. inr h)
        (init-InUsable regions a.1))

pub init-Distinct :
    (regions : List MemoryRegion)
    → All Aligned regions
    → Pairwise Apart regions
    → Distinct (init regions)
unfolding init usable_frames
init-Distinct [] a c = tt
init-Distinct (r ∷ regions) a c =
    if-Distinct (addresses r) (usable_frames regions) r.usable (addresses-Distinct r a.0)
      (init-Distinct regions a.1 c.1)
      (All-map (Inside r) _ (addresses r)
        (λ x h.
          All-map (InUsable regions) _ (usable_frames regions)
            (λ y g. Inside-Apart r a.0 regions x y c.0 h g) (init-InUsable regions a.1))
        (addresses-Inside r a.0))

pub init-Among :
    (regions : List MemoryRegion) (f : ℕ)
    → All Aligned regions
    → InUsable regions f
    → Among f (init regions)
unfolding init usable_frames
init-Among [] f a h = absurd h
init-Among (r ∷ regions) f a (inl (u, h)) =
    if-Among (addresses r) (usable_frames regions) f r.usable (inl (u, addresses-Among r a.0 f h))
init-Among (r ∷ regions) f a (inr h) =
    if-Among (addresses r) (usable_frames regions) f r.usable (inr (init-Among regions f a.1 h))
