-- ===== src/Ranges.antt =====
-- idker/src/arch/x86_64/paging/debug.rs: `explore_page_ranges`, the ranges of addresses that the page
-- tables map, with their flags. Flags and addresses of the crate x86_64 and `coalesce` of the crate
-- itertools are parameters; `none` is a panic on an address.
pub mod Coalescing
pub mod Laws
use idkernel.Base.{
  ℕ, zero, suc, ◌+◌, ◌*◌, ◌≤◌, ◌≡◌, ◌⊎◌, inl, inr, Bool, true, not, ◌&&◌, Option, none, some, List,
  [], ◌∷◌, ◌++◌, map, ◌==◌, if◌then◌else◌, map_option,
}

-- `both` is `&`, `without` takes the accessed, dirty and huge bits away, `same` is `==`.
pub record PageFlags : Type 1 where
  pub Flags : Type 0
  pub both : Flags → Flags → Flags
  pub present : Flags → Bool
  pub huge : Flags → Bool
  pub without : Flags → Flags
  pub same : Flags → Flags → Bool
  pub same_sound : (f g : Flags) → same f g ≡ true → f ≡ g

-- `coalesce` merges each element with the next as long as the closure does, and emits it otherwise.
pub record Coalesce (A : Type 0) : Type 0 where
  pub coalesce : (A → A → A ⊎ (A × A)) → List A → List A
  pub none_left : (f : A → A → A ⊎ (A × A)) → coalesce f [] ≡ []
  pub one_left : (f : A → A → A ⊎ (A × A)) (x : A) → coalesce f (x ∷ []) ≡ x ∷ []
  pub merged :
      (f : A → A → A ⊎ (A × A)) (x y z : A) (rest : List A)
      → f x y ≡ inl z
      → coalesce f (x ∷ y ∷ rest) ≡ coalesce f (z ∷ rest)
  pub parted :
      (f : A → A → A ⊎ (A × A)) (x y x' y' : A) (rest : List A)
      → f x y ≡ inr (x', y')
      → coalesce f (x ∷ y ∷ rest) ≡ x' ∷ coalesce f (y' ∷ rest)

abbrev pub size_4_kib : ℕ
size_4_kib = 4096

abbrev pub size_2_mib : ℕ
size_2_mib = 512 * size_4_kib

abbrev pub size_1_gib : ℕ
size_1_gib = 512 * size_2_mib

module _ (flags : PageFlags) where
  open flags use {Flags, both, present, huge, without, same}

  pub record Entry : Type 0 where
    pub entry_flags : Flags
    pub addr : ℕ

  pub record Range : Type 0 where
    pub from : ℕ
    pub to : ℕ
    pub range_flags : Flags

  -- The loop over a table from the index `i` on, with what one entry yields.
  unfoldable pub entries : (ℕ → Entry → Option (List Range)) → ℕ → List Entry → Option (List Range)
  entries body i [] = some []
  entries body i (x ∷ xs) =
      let rest = entries body (suc i) xs in
      elim (body i x) [ none ↦ none | some here ↦ map_option (λ behind. here ++ behind) rest ]

  abbrev pub range_of : ℕ → Flags → ℕ → List Range
  range_of from f to = record { from = from; to = to; range_flags = f } ∷ []

  -- `new` is `VirtAddr::new`, `add` the sum of an address and a number, and `table_at` the page
  -- table at a physical address.
  module _ (new : ℕ → Option ℕ) (add : ℕ → ℕ → Option ℕ) (table_at : ℕ → List Entry) where
    -- A range of the given size from an address on.
    unfoldable pub yielded : ℕ → ℕ → Flags → Option (List Range)
    yielded start size f = map_option (range_of start f) (add start size)

    unfoldable pub level_1 : ℕ → ℕ → Entry → Option (List Range)
    level_1 start2 i1 x1 =
        if not (present x1.entry_flags) then some [] else elim (add start2 (i1 * size_4_kib)) [
          | none ↦ none
          | some start1 ↦ yielded start1 size_4_kib x1.entry_flags
        ]

    unfoldable pub level_2 : Flags → ℕ → ℕ → Entry → Option (List Range)
    level_2 x3f start3 i2 x2 =
        let x2f = both x2.entry_flags x3f in
        if not (present x2f) then some [] else elim (add start3 (i2 * size_2_mib)) [
          | none ↦ none
          | some start2 ↦
              if huge x2.entry_flags
              then yielded start2 size_2_mib x2f
              else entries (level_1 start2) 0 (table_at x2.addr)
        ]

    unfoldable pub level_3 : Flags → ℕ → ℕ → Entry → Option (List Range)
    level_3 x4f start4 i3 x3 =
        let x3f = both x3.entry_flags x4f in
        if not (present x3f) then some [] else elim (add start4 (i3 * size_1_gib)) [
          | none ↦ none
          | some start3 ↦
              if huge x3.entry_flags
              then yielded start3 size_1_gib x3f
              else entries (level_2 x3f start3) 0 (table_at x3.addr)
        ]

    unfoldable pub level_4 : ℕ → Entry → Option (List Range)
    level_4 i4 x4 =
        if not (present x4.entry_flags) then some [] else elim (new (i4 * 512 * size_1_gib)) [
          | none ↦ none
          | some start4 ↦ entries (level_3 x4.entry_flags start4) 0 (table_at x4.addr)
        ]

    -- What the coroutine yields.
    unfoldable pub explore : List Entry → Option (List Range)
    explore level_4_table = entries level_4 0 level_4_table

  abbrev pub strip : Range → Range
  strip r = record r { range_flags = without r.range_flags }

  -- One range follows the other, with the same flags.
  abbrev pub joins : Range → Range → Bool
  joins a b = (a.to == b.from) && same a.range_flags b.range_flags

  abbrev pub join : Range → Range → Range ⊎ (Range × Range)
  join a b =
      if joins a b
      then inl (record { from = a.from; to = b.to; range_flags = a.range_flags })
      else inr (a, b)

  module _ (itertools : Coalesce Range) (new : ℕ → Option ℕ) (add : ℕ → ℕ → Option ℕ)
      (table_at : ℕ → List Entry) where
    unfoldable pub explore_page_ranges : List Entry → Option (List Range)
    explore_page_ranges level_4_table =
        map_option (λ ranges. itertools.coalesce join (map strip ranges))
          (explore new add table_at level_4_table)
