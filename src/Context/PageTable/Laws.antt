-- ===== src/Context/PageTable/Laws.antt =====
-- Which tables idker/src/context/page_table.rs gives back with the table of a task.
use idkernel.Base.{
  ℕ, zero, suc, Bool, true, false, not, ◌||◌, if◌then◌else◌, ◌≡◌, ◌↔◌, ◌⊎◌, inl, inr, refl, sym,
  ◌∙◌, ap, subst, List, [], ◌∷◌, ◌++◌, Among, Among-append, ◌+◌, ◌==◌, ◌&&◌, Among-split, arith,
  take, drop, replicate, length, length-replicate, take-append, drop-append,
}
use idkernel.Context.PageTable.{
  PageTableEntry, unused, new_from, for_each, unmap_worker, drop_table,
}

cut :
    (n : ℕ) (lower rest : List PageTableEntry)
    → length lower ≡ n
    → (take n (lower ++ rest) ≡ lower) × (drop n (lower ++ rest) ≡ rest)
cut n lower rest e =
    subst (λ m. (take m (lower ++ rest) ≡ lower) × (drop m (lower ++ rest) ≡ rest)) e
      (take-append lower rest, drop-append lower rest)

-- A task's table with other entries in its lower half.
abbrev pub with_lower : List PageTableEntry → List PageTableEntry → List PageTableEntry
with_lower lower table = lower ++ drop 256 table

kernel_half : (table : List PageTableEntry) → drop 256 (new_from table) ≡ drop 256 table
unfolding new_from
kernel_half table =
    (cut 256 (replicate 256 unused) (drop 256 table) (length-replicate 256 unused)).1

-- How often a frame stands in a list.
abbrev pub times : ℕ → List ℕ → ℕ
times f [] = 0
times f (x ∷ xs) = (if x == f then 1 else 0) + times f xs

abbrev pub sum : {A : Type 0} → (A → ℕ) → List A → ℕ
sum count [] = 0
sum count (x ∷ xs) = count x + sum count xs

times-append : (f : ℕ) (xs ys : List ℕ) → times f (xs ++ ys) ≡ times f xs + times f ys
times-append f [] ys = omega arith
times-append f (x ∷ xs) ys = omega (arith, times-append f xs ys)

module _ (table_at : ℕ → List PageTableEntry) where
  unused_frees : (n : ℕ) → for_each (unmap_worker table_at 2) (replicate n unused) ≡ []
  unfolding unmap_worker
  unused_frees zero = refl
  unused_frees (suc n) = unused_frees n

  fresh_frees :
      (table : List PageTableEntry)
      → for_each (unmap_worker table_at 2) (take 256 (new_from table)) ≡ []
  unfolding new_from
  fresh_frees table =
      ap (for_each (unmap_worker table_at 2))
        (cut 256 (replicate 256 unused) (drop 256 table) (length-replicate 256 unused)).0
      ∙ unused_frees 256

  -- Whether an entry so many levels above level 2 leads to the table in the frame `f`: it is present
  -- and no huge page, and `f` is the frame that it names or one that an entry of the table there
  -- leads to, down to the tables of level 1.
  abbrev pub Leads : ℕ → PageTableEntry → ℕ → Type 0
  Leads zero e f = (e.present ≡ true) × (e.huge_page ≡ false) × (f ≡ e.addr)
  Leads (suc level) e f =
      (e.present ≡ true)
      × (e.huge_page ≡ false)
      × ((f ≡ e.addr) ⊎ ((x : PageTableEntry) × Among x (table_at e.addr) × Leads level x f))

  -- Whether an entry of a table does.
  abbrev pub LeadsAny : ℕ → List PageTableEntry → ℕ → Type 0
  LeadsAny level es f = (e : PageTableEntry) × Among e es × Leads level e f

  guarded :
      (b c : Bool) (f : ℕ) (xs : List ℕ)
      → Among f (if not b || c then [] else xs)
      → (b ≡ true) × (c ≡ false) × Among f xs
  guarded true false f xs h = (refl, refl, h)
  guarded true true f xs h = absurd h
  guarded false c f xs h = absurd h

  unguarded :
      (b c : Bool) (f : ℕ) (xs : List ℕ)
      → b ≡ true
      → c ≡ false
      → Among f xs
      → Among f (if not b || c then [] else xs)
  unguarded true false f xs p q h = h
  unguarded true true f xs p q h = absurd (ground (arith, q))
  unguarded false c f xs p q h = absurd (ground (arith, p))

  -- In how many ways an entry so many levels above level 2 leads to the table in the frame `f`.
  abbrev pub ways : ℕ → ℕ → PageTableEntry → ℕ
  ways f zero e = if e.present && not e.huge_page && (e.addr == f) then 1 else 0
  ways f (suc level) e =
      if e.present && not e.huge_page
      then sum (ways f level) (table_at e.addr) + (if e.addr == f then 1 else 0)
      else 0

  times-for_each :
      (f : ℕ) (worker : PageTableEntry → List ℕ) (count : PageTableEntry → ℕ)
      → ((e : PageTableEntry) → times f (worker e) ≡ count e)
      → (es : List PageTableEntry) → times f (for_each worker es) ≡ sum count es
  times-for_each f worker count h [] = refl
  times-for_each f worker count h (e ∷ es) =
      let here = h e in
      let rest = times-for_each f worker count h es in
      ground (arith, times-append f (worker e) (for_each worker es), here, rest)

  times-worker :
      (f level : ℕ) (e : PageTableEntry) → times f (unmap_worker table_at level e) ≡ ways f level e
  unfolding unmap_worker
  times-worker f zero e = ground arith
  times-worker f (suc level) e =
      let lower = for_each (unmap_worker table_at level) (table_at e.addr) in
      let below : times f lower ≡ sum (ways f level) (table_at e.addr) =
        times-for_each f (unmap_worker table_at level) (ways f level) (times-worker f level)
          (table_at e.addr) in
      ground (arith, times-append f lower (e.addr ∷ []), below)

  module _ (f : ℕ) where
    -- What a loop over entries frees is what the worker frees of one of them.
    of_entry :
        (worker : PageTableEntry → List ℕ) (es : List PageTableEntry)
        → Among f (for_each worker es)
        → (e : PageTableEntry) × Among e es × Among f (worker e)
    of_entry worker [] h = absurd h
    of_entry worker (x ∷ es) h = elim (Among-split f (worker x) (for_each worker es) h) [
      | inl here ↦ (x, inl refl, here)
      | inr there ↦ let (e, member, freed) = of_entry worker es there in (e, inr member, freed)
    ]

    in_loop :
        (worker : PageTableEntry → List ℕ) (es : List PageTableEntry) (e : PageTableEntry)
        → Among e es
        → Among f (worker e)
        → Among f (for_each worker es)
    in_loop worker [] e h freed = absurd h
    in_loop worker (x ∷ es) e (inl same) freed =
        Among-append f (worker x) (for_each worker es)
          (inl (subst (λ y. Among f (worker y)) same freed))
    in_loop worker (x ∷ es) e (inr member) freed =
        Among-append f (worker x) (for_each worker es) (inr (in_loop worker es e member freed))

    freed-Leads :
        (level : ℕ) (e : PageTableEntry) → Among f (unmap_worker table_at level e) → Leads level e f
    unfolding unmap_worker
    freed-Leads zero e h =
        let (present, small, own) = guarded e.present e.huge_page f (e.addr ∷ []) h in
        (present, small, elim own [ inl same ↦ same | inr none_left ↦ absurd none_left ])
    freed-Leads (suc level) e h =
        let lower = for_each (unmap_worker table_at level) (table_at e.addr) in
        let (present, small, freed) = guarded e.present e.huge_page f (lower ++ e.addr ∷ []) h in
        (
          present,
          small,
          elim (Among-split f lower (e.addr ∷ []) freed) [
            | inl below ↦
                let (x, member, inside) =
                  of_entry (unmap_worker table_at level) (table_at e.addr) below in
                inr (x, member, freed-Leads level x inside)
            | inr own ↦ elim own [ inl same ↦ inl same | inr none_left ↦ absurd none_left ]
          ],
        )

    Leads-freed :
        (level : ℕ) (e : PageTableEntry) → Leads level e f → Among f (unmap_worker table_at level e)
    unfolding unmap_worker
    Leads-freed zero e (present, small, same) =
        unguarded e.present e.huge_page f (e.addr ∷ []) present small (inl same)
    Leads-freed (suc level) e (present, small, way) =
        let lower = for_each (unmap_worker table_at level) (table_at e.addr) in
        unguarded e.present e.huge_page f (lower ++ e.addr ∷ []) present small (
          Among-append f lower (e.addr ∷ []) (elim way [
            | inl same ↦ inr (inl same)
            | inr (x, member, inside) ↦ inl (
                in_loop (unmap_worker table_at level) (table_at e.addr) x member
                  (Leads-freed level x inside))
          ]))

  -- A task's table made from another keeps the upper half of the other. Whatever 256 entries its
  -- lower half then gets, dropping it gives back a frame exactly if one of these entries leads to
  -- it over present entries that are no huge pages, as a table of level 3, 2 or 1, and as often as
  -- there are such ways to it; and dropping the table as it was made gives back none.
  pub drop_table-new_from :
      (table lower : List PageTableEntry) (f : ℕ)
      → length lower ≡ 256
      → (drop 256 (with_lower lower (new_from table)) ≡ drop 256 table)
        × (Among f (drop_table table_at (with_lower lower (new_from table))) ↔ LeadsAny 2 lower f)
        × (times f (drop_table table_at (with_lower lower (new_from table))) ≡ sum (ways f 2) lower)
        × (drop_table table_at (new_from table) ≡ [])
  unfolding drop_table
  drop_table-new_from table lower f e =
      let used = cut 256 lower (drop 256 (new_from table)) e in
      let freed = ap (for_each (unmap_worker table_at 2)) used.0 in
      (
        used.1 ∙ kernel_half table,
        (
          (λ h.
              let (x, member, inside) =
                of_entry f (unmap_worker table_at 2) lower (subst (Among f) freed h) in
              (x, member, freed-Leads f 2 x inside)),
          λ (x, member, inside).
              subst (Among f) (sym freed)
                (in_loop f (unmap_worker table_at 2) lower x member (Leads-freed f 2 x inside)),
        ),
        ap (times f) freed
            ∙ times-for_each f (unmap_worker table_at 2) (ways f 2) (times-worker f 2) lower,
        fresh_frees table,
      )
