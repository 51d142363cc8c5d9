-- ===== src/Ranges/Laws.antt =====
-- What the ranges of idker/src/arch/x86_64/paging/debug.rs show.
use idkernel.Base.{
  ℕ, suc, ◌*◌, ◌≤◌, ◌≡◌, ◌↔◌, refl, ◌∙◌, sym, ap, subst, Bool, true, false, not, Option, none, some,
  List, [], ◌∷◌, ◌++◌, map, if◌then◌else◌, map_option, All, All-append,
}
use idkernel.Ranges.Coalescing.{Shows, Maximal, Upwards, merge, merge-Maximal, merge-Shows}
use idkernel.Ranges.{
  PageFlags, Coalesce, Entry, Range, join, strip, entries, yielded, level_1, level_2, level_3,
  level_4, explore, explore_page_ranges, size_2_mib, size_1_gib,
}

module _ (flags : PageFlags) where
  -- Every range that is yielded goes upwards.
  abbrev pub Raised : Option (List (Range flags)) → Type 0
  Raised none = Unit {0}
  Raised (some rs) = All (Upwards flags) rs

  pub record Rising (o : Option (List (Range flags))) : Type 0 where
    pub rises : Raised o

  if-Rising :
      (b : Bool) (o o' : Option (List (Range flags)))
      → Rising o
      → Rising o'
      → Rising (if b then o else o')
  if-Rising true o o' h h' = h
  if-Rising false o o' h h' = h'

  nothing-Rising : Rising (some [])
  nothing-Rising = record { rises = tt }

  from-Rising :
      (o : Option ℕ) (rest : ℕ → Option (List (Range flags)))
      → ((start : ℕ) → Rising (rest start))
      → Rising (elim o [ none ↦ none | some start ↦ rest start ])
  from-Rising none rest h = record { rises = tt }
  from-Rising (some start) rest h = h start

  entries-Rising :
      (body : ℕ → Entry flags → Option (List (Range flags))) (i : ℕ) (xs : List (Entry flags))
      → ((i : ℕ) (x : Entry flags) → Rising (body i x))
      → Rising (entries flags body i xs)
  unfolding entries
  entries-Rising body i [] h = record { rises = tt }
  entries-Rising body i (x ∷ xs) h = record {
    rises =
        go (body i x) (entries flags body (suc i) xs) (h i x).rises
          (entries-Rising body (suc i) xs h).rises;
  }
    where
      go :
          (here rest : Option (List (Range flags)))
          → Raised here
          → Raised rest
          → Raised
              (elim here [ none ↦ none | some here ↦ map_option (λ behind. here ++ behind) rest ])
      go none rest r q = tt
      go (some rs) none r q = tt
      go (some rs) (some qs) r q = All-append (Upwards flags) rs qs r q

  module _ (new : ℕ → Option ℕ) (add : ℕ → ℕ → Option ℕ) (table_at : ℕ → List (Entry flags))
      (climbs : (a b c : ℕ) → add a b ≡ some c → a ≤ c) where
    yielded-Rising :
        (start size : ℕ) (f : flags.Flags) → Rising (yielded flags new add table_at start size f)
    unfolding yielded
    yielded-Rising start size f = record { rises = go (add start size) refl }
      where
        go :
            (o : Option ℕ)
            → add start size ≡ o
            → Raised (map_option (λ to. record { from = start; to = to; range_flags = f } ∷ []) o)
        go none e = tt
        go (some to) e = (climbs start size to e, tt)

    level_1-Rising :
        (start2 i : ℕ) (x : Entry flags) → Rising (level_1 flags new add table_at start2 i x)
    unfolding level_1
    level_1-Rising start2 i x =
        if-Rising _ _ _ nothing-Rising
          (from-Rising _ _ λ start1. yielded-Rising start1 _ x.entry_flags)

    level_2-Rising :
        (x3f : flags.Flags) (start3 i : ℕ) (x : Entry flags)
        → Rising (level_2 flags new add table_at x3f start3 i x)
    unfolding level_2
    level_2-Rising x3f start3 i x =
        if-Rising (not (flags.present (flags.both x.entry_flags x3f))) _ _ nothing-Rising (
          from-Rising (add start3 (i * size_2_mib)) _ λ start2.
            if-Rising (flags.huge x.entry_flags) _ _
              (yielded-Rising start2 size_2_mib (flags.both x.entry_flags x3f))
              (entries-Rising _ 0 (table_at x.addr) (level_1-Rising start2)))

    level_3-Rising :
        (x4f : flags.Flags) (start4 i : ℕ) (x : Entry flags)
        → Rising (level_3 flags new add table_at x4f start4 i x)
    unfolding level_3
    level_3-Rising x4f start4 i x =
        if-Rising (not (flags.present (flags.both x.entry_flags x4f))) _ _ nothing-Rising (
          from-Rising (add start4 (i * size_1_gib)) _ λ start3.
            if-Rising (flags.huge x.entry_flags) _ _
              (yielded-Rising start3 size_1_gib (flags.both x.entry_flags x4f))
              (entries-Rising _ 0 (table_at x.addr)
                (level_2-Rising (flags.both x.entry_flags x4f) start3)))

    level_4-Rising : (i : ℕ) (x : Entry flags) → Rising (level_4 flags new add table_at i x)
    unfolding level_4
    level_4-Rising i x = if-Rising _ _ _ nothing-Rising (
        from-Rising _ _
          λ start4. entries-Rising _ 0 (table_at x.addr) (level_3-Rising x.entry_flags start4))

    explore-Rising : (table : List (Entry flags)) → Rising (explore flags new add table_at table)
    unfolding explore
    explore-Rising table = entries-Rising _ 0 table level_4-Rising

    -- Let no sum of an address and a number lie below the address, and let `coalesce` be as
    -- documented. If the walk over the page tables yields ranges, then `explore_page_ranges`
    -- returns ranges of which none can be joined with the next, and which show an address with some
    -- flags exactly if the ranges of the walk do, without the flags that are taken away.
    pub explore_page_ranges_lem :
        (itertools : Coalesce (Range flags)) (table : List (Entry flags)) (rs : List (Range flags))
        → explore flags new add table_at table ≡ some rs
        → (out : List (Range flags)) × (explore_page_ranges flags itertools new add table_at table
            ≡ some out)
          × Maximal flags out
          × ((a : ℕ) (f : flags.Flags)
              → Shows flags a f out ↔ Shows flags a f (map (strip flags) rs))
    unfolding explore_page_ranges
    explore_page_ranges_lem itertools table rs e =
        let ups : All (Upwards flags) rs = (subst Rising e (explore-Rising table)).rises in
        go rs ups (ap (map_option (λ ranges. merge flags itertools (map (strip flags) ranges))) e)
      where
        strip-Upwards :
            (rs : List (Range flags))
            → All (Upwards flags) rs
            → All (Upwards flags) (map (strip flags) rs)
        strip-Upwards [] h = tt
        strip-Upwards (r ∷ rs) h = (h.0, strip-Upwards rs h.1)

        go :
            (rs : List (Range flags))
            → All (Upwards flags) rs
            → explore_page_ranges flags itertools new add table_at table
              ≡ some (merge flags itertools (map (strip flags) rs))
            → (out : List (Range flags)) × (explore_page_ranges flags itertools new add table_at
                  table
                ≡ some out)
              × Maximal flags out
              × ((a : ℕ) (f : flags.Flags)
                  → Shows flags a f out ↔ Shows flags a f (map (strip flags) rs))
        go [] ups q =
            ([], q ∙ ap some (itertools.none_left (join flags)), tt, λ a f. ((λ h. h), (λ h. h)))
        go (r ∷ rs) ups q =
            let first = strip flags r in
            let rest = map (strip flags) rs in
            let (h, t, same, _, _, maximal) = merge-Maximal flags itertools first rest in
            (
              merge flags itertools (first ∷ rest),
              q,
              subst (Maximal flags) (sym same) maximal,
              λ a f. merge-Shows flags itertools a f first rest ups.0 (strip-Upwards rs ups.1),
            )
