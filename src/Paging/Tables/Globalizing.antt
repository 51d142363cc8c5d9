-- ===== src/Paging/Tables/Globalizing.antt =====
-- What `globalize_kernelspace` of idker/src/arch/x86_64/paging/mod.rs marks.
use idkernel.Base.{
  ℕ, zero, suc, ◌+◌, ◌-◌, ◌/◌, ◌<◌, ◌≤◌, ◌≡◌, ◌≢◌, ◌⊎◌, inl, inr, refl, ◌∙◌, sym, subst, Bool, true,
  false, not, ◌&&◌, ◌||◌, ◌==◌, if◌then◌else◌, Bool-cases, arith, ==_iff,
}
use idkernel.Paging.Tables.{Tables, set, each, globalize_leaf, globalize_kernelspace}
use idkernel.Paging.Tables.Clearing.{set_field, if_case}

-- At most flags `GLOBAL` are gained.
pub record Globalized (mem mem' : Tables) : Type 0 where
  pub addr : (t i : ℕ) → (mem' t i).addr ≡ (mem t i).addr
  pub present : (t i : ℕ) → (mem' t i).present ≡ (mem t i).present
  pub huge_page : (t i : ℕ) → (mem' t i).huge_page ≡ (mem t i).huge_page
  pub global : (t i : ℕ) → (mem t i).global ≡ true → (mem' t i).global ≡ true

Globalized-refl : (mem : Tables) → Globalized mem mem
Globalized-refl mem = record {
  addr = λ t i. refl;
  present = λ t i. refl;
  huge_page = λ t i. refl;
  global = λ t i h. h;
}

Globalized-trans :
    (mem mem' mem'' : Tables) → Globalized mem mem' → Globalized mem' mem'' → Globalized mem mem''
Globalized-trans mem mem' mem'' c d = record {
  addr = λ t i. d.addr t i ∙ c.addr t i;
  present = λ t i. d.present t i ∙ c.present t i;
  huge_page = λ t i. d.huge_page t i ∙ c.huge_page t i;
  global = λ t i h. d.global t i (c.global t i h);
}

set-Globalized :
    (mem : Tables) (t i : ℕ) → Globalized mem (set t i (record (mem t i) { global = true }) mem)
set-Globalized mem t i = record {
  addr = λ u j. set_field (λ e. e.addr) mem t i u j _ refl;
  present = λ u j. set_field (λ e. e.present) mem t i u j _ refl;
  huge_page = λ u j. set_field (λ e. e.huge_page) mem t i u j _ refl;
  global = λ u j h. set_there u j h ((u == t) && (j == i));
}
  where
    set_there :
        (u j : ℕ)
        → (mem u j).global ≡ true
        → (b : Bool) → (if b then record (mem t i) { global = true } else mem u j).global ≡ true
    set_there u j h true = refl
    set_there u j h false = h

each-Globalized :
    (n : ℕ) (f : ℕ → Tables → Tables) (mem : Tables)
    → ((i : ℕ) (m : Tables) → Globalized m (f i m))
    → Globalized mem (each n f mem)
each-Globalized zero f mem h = Globalized-refl mem
each-Globalized (suc n) f mem h =
    Globalized-trans mem (each n f mem) (f n (each n f mem)) (each-Globalized n f mem h)
      (h n (each n f mem))

set_self :
    (mem : Tables) (t i : ℕ) → (set t i (record (mem t i) { global = true }) mem t i).global ≡ true
set_self mem t i = ground arith

module _ (size : ℕ) where
  abbrev marked : ℕ → ℕ → Tables → Tables
  marked t i mem = set t i (record (mem t i) { global = true }) mem

  globalize_leaf-Globalized :
      (level t i : ℕ) (mem : Tables) → Globalized mem (globalize_leaf size level t i mem)
  unfolding globalize_leaf
  globalize_leaf-Globalized zero t i mem =
      if_case (Globalized mem) (not (mem t i).present) mem _ (λ _. Globalized-refl mem)
        (λ _. set-Globalized mem t i)
  globalize_leaf-Globalized (suc level) t i mem =
      if_case (Globalized mem) (not (mem t i).present) mem _ (λ _. Globalized-refl mem)
        (λ _.
          if_case (Globalized mem) (mem t i).huge_page (marked t i mem) _
            (λ _. set-Globalized mem t i)
            (λ _. Globalized-trans mem (marked t i mem) _ (set-Globalized mem t i) (
              each-Globalized size (globalize_leaf size level (mem t i).addr) (marked t i mem)
                (λ j m. globalize_leaf-Globalized level (mem t i).addr j m))))

  -- What is present from an entry so many levels above level 1 down is global.
  abbrev Marked : ℕ → Tables → ℕ → ℕ → Type 0
  Marked zero mem t i = ((mem t i).present ≡ false) ⊎ ((mem t i).global ≡ true)
  Marked (suc level) mem t i =
      ((mem t i).present ≡ false)
      ⊎ (((mem t i).global ≡ true)
          × (((mem t i).huge_page ≡ true)
              ⊎ ((j : ℕ) → j < size → Marked level mem (mem t i).addr j)))

  Marked-Globalized :
      (level : ℕ) (mem mem' : Tables) (t i : ℕ)
      → Globalized mem mem'
      → Marked level mem t i
      → Marked level mem' t i
  Marked-Globalized zero mem mem' t i c (inl h) = inl (c.present t i ∙ h)
  Marked-Globalized zero mem mem' t i c (inr h) = inr (c.global t i h)
  Marked-Globalized (suc level) mem mem' t i c (inl h) = inl (c.present t i ∙ h)
  Marked-Globalized (suc level) mem mem' t i c (inr (g, inl h)) =
      inr (c.global t i g, inl (c.huge_page t i ∙ h))
  Marked-Globalized (suc level) mem mem' t i c (inr (g, inr h)) = inr (
    c.global t i g,
    inr (λ j b.
        subst (λ a. Marked level mem' a j) (sym (c.addr t i))
          (Marked-Globalized level mem mem' (mem t i).addr j c (h j b))),
  )

  -- A loop over the entries at the indices that `f` gives.
  abbrev looped : ℕ → ℕ → (ℕ → ℕ) → ℕ → Tables → Tables
  looped level t f n mem = each n (λ i. globalize_leaf size level t (f i)) mem

  each-Marked :
      (level t : ℕ) (f : ℕ → ℕ) (n : ℕ) (mem : Tables)
      → ((i : ℕ) (m : Tables) → Marked level (globalize_leaf size level t i m) t i)
      → (j : ℕ) → j < n
      → Marked level (looped level t f n mem) t (f j)
  each-Marked level t f zero mem h j b = absurd (omega (arith, b))
  each-Marked level t f (suc n) mem h j b = elim (Bool-cases (j == n)) [
    | inl here ↦
        subst (λ k. Marked level (looped level t f (suc n) mem) t (f k)) (sym ((==_iff j n).0 here))
          (h (f n) (looped level t f n mem))
    | inr other ↦
        let apart : j ≢ n = ground (arith, other) in
        Marked-Globalized level (looped level t f n mem) _ t (f j)
          (globalize_leaf-Globalized level t (f n) (looped level t f n mem))
          (each-Marked level t f n mem h j (omega (arith, b, apart)))
  ]

  globalize_leaf-Marked :
      (level t i : ℕ) (mem : Tables) → Marked level (globalize_leaf size level t i mem) t i
  unfolding globalize_leaf
  globalize_leaf-Marked zero t i mem =
      if_case (λ m. Marked zero m t i) (not (mem t i).present) mem _ (λ h. inl (ground (arith, h)))
        (λ _. inr (set_self mem t i))
  globalize_leaf-Marked (suc level) t i mem =
      if_case (λ m. Marked (suc level) m t i) (not (mem t i).present) mem _
        (λ h. inl (ground (arith, h)))
        (λ _.
          if_case (λ m. Marked (suc level) m t i) (mem t i).huge_page (marked t i mem) below
            (λ h. inr (set_self mem t i, inl ((set-Globalized mem t i).huge_page t i ∙ h)))
            (λ _. inr (
              kept.global t i (set_self mem t i),
              inr (λ j b.
                  subst (λ a. Marked level below a j)
                    (sym (kept.addr t i ∙ (set-Globalized mem t i).addr t i))
                    (each-Marked level (mem t i).addr (λ k. k) size (marked t i mem)
                      (λ k m. globalize_leaf-Marked level (mem t i).addr k m) j b)),
            )))
    where
      below : Tables
      below = each size (globalize_leaf size level (mem t i).addr) (marked t i mem)

      kept : Globalized (marked t i mem) below
      kept =
          each-Globalized size (globalize_leaf size level (mem t i).addr) (marked t i mem)
            (λ j m. globalize_leaf-Globalized level (mem t i).addr j m)

  -- Whether what is present on the way of an index at each level is global, up to the page.
  abbrev pub global_way : ℕ → Tables → ℕ → (ℕ → ℕ) → Bool
  global_way zero mem t ix = not (mem t (ix 0)).present || (mem t (ix 0)).global
  global_way (suc level) mem t ix =
      let e = mem t (ix (suc level)) in
      not e.present || (e.global && (e.huge_page || global_way level mem e.addr ix))

  Marked-global_way :
      (level : ℕ) (mem : Tables) (t : ℕ) (ix : ℕ → ℕ)
      → ((l : ℕ) → ix l < size)
      → Marked level mem t (ix level)
      → global_way level mem t ix ≡ true
  Marked-global_way zero mem t ix b (inl h) = ground (arith, h)
  Marked-global_way zero mem t ix b (inr h) = ground (arith, h)
  Marked-global_way (suc level) mem t ix b (inl h) = ground (arith, h)
  Marked-global_way (suc level) mem t ix b (inr (g, inl h)) = ground (arith, g, h)
  Marked-global_way (suc level) mem t ix b (inr (g, inr h)) = ground (
    arith,
    g,
    Marked-global_way level mem (mem t (ix (suc level))).addr ix b (h (ix level) (b level)),
  )

  module _ (root : ℕ) (mem : Tables) (ix : ℕ → ℕ) where
    -- After `globalize_kernelspace`, by any indices within the tables of which the one at level 4
    -- is in the upper half, each entry that is present on the way, up to the one of the page, has
    -- the flag `GLOBAL`; and nothing changes but that entries gain it.
    pub globalize_kernelspace_lem :
        ((l : ℕ) → ix l < size)
        → size / 2 ≤ ix 3
        → (global_way 3 (globalize_kernelspace size root mem) root ix ≡ true)
          × Globalized mem (globalize_kernelspace size root mem)
    unfolding globalize_kernelspace
    globalize_kernelspace_lem b high = (
      Marked-global_way 3 after root ix b (
          subst (λ k. Marked 3 after root k) (omega (arith, high))
            (each-Marked 3 root (λ i. size / 2 + i) (size - size / 2) mem
              (λ i m. globalize_leaf-Marked 3 root i m) (ix 3 - size / 2)
              (omega (arith, b 3, high)))),
      each-Globalized (size - size / 2) (λ i. globalize_leaf size 3 root (size / 2 + i)) mem
          (λ i m. globalize_leaf-Globalized 3 root (size / 2 + i) m),
    )
      where
        after : Tables
        after = looped 3 root (λ i. size / 2 + i) (size - size / 2) mem
