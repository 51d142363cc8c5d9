-- ===== src/Paging/Tables/Clearing.antt =====
-- What `fix_bootloader_pollution` of idker/src/arch/x86_64/paging/mod.rs leaves mapped.
use idkernel.Base.{
  ℕ, zero, suc, ◌/◌, ◌<◌, ◌≡◌, ◌≢◌, ◌⊎◌, inl, inr, refl, ◌∙◌, sym, ap, subst, Bool, true, false,
  not, ◌&&◌, ◌||◌, ◌==◌, if◌then◌else◌, Bool-cases, arith, ==_iff,
}
use idkernel.Paging.Tables.{Entry, Tables, set, each, clear_leaf, fix_bootloader_pollution}

-- What a write leaves at an entry, in a field in which it agrees with what was there.
pub set_field :
    {A : Type 0} (field : Entry → A) (mem : Tables) (t i u j : ℕ) (e : Entry)
    → field e ≡ field (mem t i)
    → field (set t i e mem u j) ≡ field (mem u j)
set_field field mem t i u j e same = go (u == t) (j == i) refl refl
  where
    go :
        (b c : Bool)
        → (u == t) ≡ b
        → (j == i) ≡ c
        → field (if b && c then e else mem u j) ≡ field (mem u j)
    go true true p q =
        same
        ∙ sym (
            ap (λ x. field (mem x j)) ((==_iff u t).0 p)
            ∙ ap (λ y. field (mem t y)) ((==_iff j i).0 q))
    go true false p q = refl
    go false c p q = refl

-- At most the flags of presence are lost.
pub record Cleared (mem mem' : Tables) : Type 0 where
  pub addr : (t i : ℕ) → (mem' t i).addr ≡ (mem t i).addr
  pub global : (t i : ℕ) → (mem' t i).global ≡ (mem t i).global
  pub huge_page : (t i : ℕ) → (mem' t i).huge_page ≡ (mem t i).huge_page
  pub present : (t i : ℕ) → (mem t i).present ≡ false → (mem' t i).present ≡ false

Cleared-refl : (mem : Tables) → Cleared mem mem
Cleared-refl mem = record {
  addr = λ t i. refl;
  global = λ t i. refl;
  huge_page = λ t i. refl;
  present = λ t i h. h;
}

Cleared-trans :
    (mem mem' mem'' : Tables) → Cleared mem mem' → Cleared mem' mem'' → Cleared mem mem''
Cleared-trans mem mem' mem'' c d = record {
  addr = λ t i. d.addr t i ∙ c.addr t i;
  global = λ t i. d.global t i ∙ c.global t i;
  huge_page = λ t i. d.huge_page t i ∙ c.huge_page t i;
  present = λ t i h. d.present t i (c.present t i h);
}

set-Cleared :
    (mem : Tables) (t i : ℕ) → Cleared mem (set t i (record (mem t i) { present = false }) mem)
set-Cleared mem t i = record {
  addr = λ u j. set_field (λ e. e.addr) mem t i u j _ refl;
  global = λ u j. set_field (λ e. e.global) mem t i u j _ refl;
  huge_page = λ u j. set_field (λ e. e.huge_page) mem t i u j _ refl;
  present = λ u j h. absent u j h ((u == t) && (j == i));
}
  where
    absent :
        (u j : ℕ)
        → (mem u j).present ≡ false
        → (b : Bool) → (if b then record (mem t i) { present = false } else mem u j).present ≡ false
    absent u j h true = refl
    absent u j h false = h

if-Cleared :
    (b : Bool) (mem m m' : Tables)
    → Cleared mem m
    → Cleared mem m'
    → Cleared mem (if b then m else m')
if-Cleared true mem m m' c d = c
if-Cleared false mem m m' c d = d

each-Cleared :
    (n : ℕ) (f : ℕ → Tables → Tables) (mem : Tables)
    → ((i : ℕ) (m : Tables) → Cleared m (f i m))
    → Cleared mem (each n f mem)
each-Cleared zero f mem h = Cleared-refl mem
each-Cleared (suc n) f mem h =
    Cleared-trans mem (each n f mem) (f n (each n f mem)) (each-Cleared n f mem h)
      (h n (each n f mem))

pub if_case :
    (P : Tables → Type 0) (b : Bool) (m m' : Tables)
    → (b ≡ true → P m)
    → (b ≡ false → P m')
    → P (if b then m else m')
if_case P true m m' h g = h refl
if_case P false m m' h g = g refl

cleared_self :
    (mem : Tables) (t i : ℕ)
    → (set t i (record (mem t i) { present = false }) mem t i).present ≡ false
cleared_self mem t i = ground arith

module _ (size : ℕ) where
  clear_leaf-Cleared : (level t i : ℕ) (mem : Tables) → Cleared mem (clear_leaf size level t i mem)
  unfolding clear_leaf
  clear_leaf-Cleared zero t i mem =
      if-Cleared (not (mem t i).present) mem mem _ (Cleared-refl mem) (set-Cleared mem t i)
  clear_leaf-Cleared (suc level) t i mem =
      if-Cleared (not (mem t i).present) mem mem _ (Cleared-refl mem) (
        if-Cleared (mem t i).global mem _ _ (set-Cleared mem t i) (
          each-Cleared size (clear_leaf size level (mem t i).addr) mem
            (λ j m. clear_leaf-Cleared level (mem t i).addr j m)))

  -- Nothing is present behind an entry so many levels above level 1, its descent ending where the
  -- source's does.
  abbrev Closed : ℕ → Tables → ℕ → ℕ → Type 0
  Closed zero mem t i = (mem t i).present ≡ false
  Closed (suc level) mem t i =
      ((mem t i).present ≡ false)
      ⊎ (((mem t i).global ≡ false) × ((j : ℕ) → j < size → Closed level mem (mem t i).addr j))

  Closed-Cleared :
      (level : ℕ) (mem mem' : Tables) (t i : ℕ)
      → Cleared mem mem'
      → Closed level mem t i
      → Closed level mem' t i
  Closed-Cleared zero mem mem' t i c h = c.present t i h
  Closed-Cleared (suc level) mem mem' t i c (inl h) = inl (c.present t i h)
  Closed-Cleared (suc level) mem mem' t i c (inr (g, h)) = inr (
    c.global t i ∙ g,
    λ j b.
        subst (λ a. Closed level mem' a j) (sym (c.addr t i))
          (Closed-Cleared level mem mem' (mem t i).addr j c (h j b)),
  )

  each-Closed :
      (level t n : ℕ) (mem : Tables)
      → ((i : ℕ) (m : Tables) → Closed level (clear_leaf size level t i m) t i)
      → (j : ℕ) → j < n
      → Closed level (each n (clear_leaf size level t) mem) t j
  each-Closed level t zero mem h j b = absurd (omega (arith, b))
  each-Closed level t (suc n) mem h j b = elim (Bool-cases (j == n)) [
    | inl here ↦
        subst (λ k. Closed level (each (suc n) (clear_leaf size level t) mem) t k)
          (sym ((==_iff j n).0 here)) (h n (each n (clear_leaf size level t) mem))
    | inr other ↦
        let apart : j ≢ n = ground (arith, other) in
        Closed-Cleared level (each n (clear_leaf size level t) mem) _ t j
          (clear_leaf-Cleared level t n (each n (clear_leaf size level t) mem))
          (each-Closed level t n mem h j (omega (arith, b, apart)))
  ]

  clear_leaf-Closed :
      (level t i : ℕ) (mem : Tables) → Closed level (clear_leaf size level t i mem) t i
  unfolding clear_leaf
  clear_leaf-Closed zero t i mem =
      if_case (λ m. Closed zero m t i) (not (mem t i).present) mem _ (λ h. ground (arith, h))
        (λ _. cleared_self mem t i)
  clear_leaf-Closed (suc level) t i mem =
      if_case (λ m. Closed (suc level) m t i) (not (mem t i).present) mem _
        (λ h. inl (ground (arith, h)))
        (λ _.
          if_case (λ m. Closed (suc level) m t i) (mem t i).global _ below
            (λ _. inl (cleared_self mem t i))
            (λ g. inr (
              kept.global t i ∙ g,
              λ j b.
                  subst (λ a. Closed level below a j) (sym (kept.addr t i))
                    (each-Closed level (mem t i).addr size mem
                      (λ k m. clear_leaf-Closed level (mem t i).addr k m) j b),
            )))
    where
      below : Tables
      below = each size (clear_leaf size level (mem t i).addr) mem

      kept : Cleared mem below
      kept =
          each-Cleared size (clear_leaf size level (mem t i).addr) mem
            (λ j m. clear_leaf-Cleared level (mem t i).addr j m)

  -- Whether the processor finds a page by an index at each level.
  abbrev pub walk : ℕ → Tables → ℕ → (ℕ → ℕ) → Bool
  walk zero mem t ix = (mem t (ix 0)).present
  walk (suc level) mem t ix =
      (mem t (ix (suc level))).present
      && ((mem t (ix (suc level))).huge_page || walk level mem (mem t (ix (suc level))).addr ix)

  -- Whether that way passes a present entry, above level 1, that has the flag of a huge page and not
  -- the flag `GLOBAL`.
  abbrev pub huge_way : ℕ → Tables → ℕ → (ℕ → ℕ) → Bool
  huge_way zero mem t ix = false
  huge_way (suc level) mem t ix =
      (mem t (ix (suc level))).present
      && (((mem t (ix (suc level))).huge_page && not (mem t (ix (suc level))).global)
          || huge_way level mem (mem t (ix (suc level))).addr ix)

  Closed-walk :
      (level : ℕ) (mem : Tables) (t : ℕ) (ix : ℕ → ℕ)
      → ((l : ℕ) → ix l < size)
      → Closed level mem t (ix level)
      → walk level mem t ix ≡ huge_way level mem t ix
  Closed-walk zero mem t ix b h = h
  Closed-walk (suc level) mem t ix b (inl h) = ground (arith, h)
  Closed-walk (suc level) mem t ix b (inr (n, h)) =
      ground (
        arith,
        n,
        Closed-walk level mem (mem t (ix (suc level))).addr ix b (h (ix level) (b level)),
      )

  module _ (root : ℕ) (mem : Tables) (ix : ℕ → ℕ) where
    -- After `fix_bootloader_pollution`, whichever tables share memory, the processor finds a page
    -- by indices within the tables, the one at level 4 in the lower half, exactly if the way there
    -- passes a present entry above level 1 with the flag of a huge page and without the flag
    -- `GLOBAL`: no page is left mapped but in huge pages that are not global. Nothing changes but
    -- that entries lose their presence.
    pub fix_bootloader_pollution_lem :
        ((l : ℕ) → ix l < size)
        → ix 3 < size / 2
        → (walk 3 (fix_bootloader_pollution size root mem) root ix
            ≡ huge_way 3 (fix_bootloader_pollution size root mem) root ix)
          × Cleared mem (fix_bootloader_pollution size root mem)
    unfolding fix_bootloader_pollution
    fix_bootloader_pollution_lem b low = (
      Closed-walk 3 after root ix b
          (each-Closed 3 root (size / 2) mem (λ i m. clear_leaf-Closed 3 root i m) (ix 3) low),
      each-Cleared (size / 2) (clear_leaf size 3 root) mem (λ i m. clear_leaf-Cleared 3 root i m),
    )
      where
        after : Tables
        after = each (size / 2) (clear_leaf size 3 root) mem
