-- ===== src/Tests/Ranges.antt =====
-- A run of the listing of mapped ranges on two neighbouring large pages.
use idkernel.Base.{
  ℕ, ◌+◌, ◌≤◌, ◌≡◌, ◌↔◌, ◌⊎◌, inl, inr, refl, some, Option, List, [], ◌∷◌, map, ltb, ◌==◌, ==_iff,
  min, arith,
}
use idkernel.Ranges.{
  PageFlags, Coalesce, Entry, Range, entries, yielded, level_3, level_4, explore,
  explore_page_ranges, size_1_gib, strip,
}
use idkernel.Ranges.Coalescing.{Shows, Maximal}
use idkernel.Ranges.Laws.{explore_page_ranges_lem}

-- No flag, present, and present and huge.
abbrev flags : PageFlags
flags = record {
  Flags = ℕ;
  both = λ f g. min f g;
  present = λ f. ltb 0 f;
  huge = λ f. f == 2;
  without = λ f. min f 1;
  same = λ f g. f == g;
  same_sound = λ f g e. (==_iff f g).0 e;
}

module _ {A : Type 0} where
  abbrev go_on : (A → A → A ⊎ (A × A)) → A → List A → List A
  go_on f x [] = x ∷ []
  go_on f x (y ∷ rest) = elim (f x y) [ inl z ↦ go_on f z rest | inr p ↦ p.0 ∷ go_on f p.1 rest ]

  abbrev joined_all : (A → A → A ⊎ (A × A)) → List A → List A
  joined_all f [] = []
  joined_all f (x ∷ rest) = go_on f x rest

joined_all-merged :
    {A : Type 0} (f : A → A → A ⊎ (A × A)) (x y z : A) (rest : List A)
    → f x y ≡ inl z
    → joined_all f (x ∷ y ∷ rest) ≡ joined_all f (z ∷ rest)
joined_all-merged f x y z rest e = ground (arith, e)

joined_all-parted :
    {A : Type 0} (f : A → A → A ⊎ (A × A)) (x y x' y' : A) (rest : List A)
    → f x y ≡ inr (x', y')
    → joined_all f (x ∷ y ∷ rest) ≡ x' ∷ joined_all f (y' ∷ rest)
joined_all-parted f x y x' y' rest e = ground (arith, e)

abbrev itertools : Coalesce (Range flags)
itertools = record {
  coalesce = joined_all;
  none_left = λ f. refl;
  one_left = λ f x. refl;
  merged = joined_all-merged;
  parted = joined_all-parted;
}

abbrev large_page : Entry flags
large_page = record { entry_flags = 2; addr = 0 }

abbrev table : List (Entry flags)
table = record { entry_flags = 1; addr = 1 } ∷ []

abbrev table_at : ℕ → List (Entry flags)
table_at n = large_page ∷ large_page ∷ []

abbrev new : ℕ → Option ℕ
new n = some n

abbrev add : ℕ → ℕ → Option ℕ
add a b = some (a + b)

add-climbs : (a b c : ℕ) → add a b ≡ some c → a ≤ c
add-climbs a b c e = ground (arith, e)

abbrev yields : List (Range flags)
yields =
    record { from = 0; to = size_1_gib; range_flags = 1 }
    ∷ record { from = size_1_gib; to = size_1_gib + size_1_gib; range_flags = 1 }
    ∷ []

explored : explore flags new add table_at table ≡ some yields
unfolding explore entries level_4 level_3 yielded
explored = refl

explore_page_ranges_lem_example :
    (out : List (Range flags)) × (explore_page_ranges flags itertools new add table_at table
      ≡ some out)
    × Maximal flags out
    × ((a f : ℕ) → Shows flags a f out ↔ Shows flags a f (map (strip flags) yields))
explore_page_ranges_lem_example =
    explore_page_ranges_lem flags new add table_at add-climbs itertools table yields explored
