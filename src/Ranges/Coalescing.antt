-- ===== src/Ranges/Coalescing.antt =====
-- What joining the ranges of idker/src/arch/x86_64/paging/debug.rs leaves of them.
use idkernel.Base.{
  ℕ, ◌≤◌, ◌<◌, ◌≡◌, ◌↔◌, ◌⊎◌, inl, inr, refl, ◌∙◌, sym, ap, subst, true, false, List, [], ◌∷◌, All,
  arith, Bool-cases, ltb,
}
use idkernel.Ranges.{PageFlags, Coalesce, Range, joins, join}

module _ (flags : PageFlags) where
  -- The ranges show an address with flags.
  abbrev pub Shows : ℕ → flags.Flags → List (Range flags) → Type 0
  Shows a f [] = ⊥
  Shows a f (r ∷ rs) = ((r.from ≤ a) × (a < r.to) × (r.range_flags ≡ f)) ⊎ Shows a f rs

  -- No range can be joined with the next.
  abbrev pub Parted : Range flags → List (Range flags) → Type 0
  Parted r [] = Unit {0}
  Parted r (s ∷ rs) = joins flags r s ≡ false

  abbrev pub Maximal : List (Range flags) → Type 0
  Maximal [] = Unit {0}
  Maximal (r ∷ rs) = Parted r rs × Maximal rs

  abbrev pub Upwards : Range flags → Type 0
  Upwards r = r.from ≤ r.to

  abbrev joined : Range flags → Range flags → Range flags
  joined x y = record { from = x.from; to = y.to; range_flags = x.range_flags }

  joins-ends :
      (x y : Range flags)
      → joins flags x y ≡ true
      → (x.to ≡ y.from) × (x.range_flags ≡ y.range_flags)
  joins-ends x y e =
      (ground (arith, e), flags.same_sound x.range_flags y.range_flags (ground (arith, e)))

  -- A joined range shows what its two parts show.
  Shows-joined :
      (a : ℕ) (f : flags.Flags) (x y : Range flags) (rs : List (Range flags))
      → Upwards x
      → Upwards y
      → joins flags x y ≡ true
      → Shows a f (joined x y ∷ rs) ↔ Shows a f (x ∷ y ∷ rs)
  Shows-joined a f x y rs up_x up_y e = (there, back)
    where
      ends : (x.to ≡ y.from) × (x.range_flags ≡ y.range_flags)
      ends = joins-ends x y e

      there : Shows a f (joined x y ∷ rs) → Shows a f (x ∷ y ∷ rs)
      there (inr h) = inr (inr h)
      there (inl (low, high, same)) = elim (Bool-cases (ltb a x.to)) [
        | inl before ↦ inl (low, ground (arith, before), same)
        | inr behind ↦ inr (inl (ground (arith, behind, ends.0), high, sym ends.1 ∙ same))
      ]

      back : Shows a f (x ∷ y ∷ rs) → Shows a f (joined x y ∷ rs)
      back (inl (low, high, same)) = inl (low, omega (arith, ends.0, up_y), same)
      back (inr (inl (low, high, same))) = inl (omega (arith, ends.0, up_x), high, ends.1 ∙ same)
      back (inr (inr h)) = inr h

  beside :
      (a : ℕ) (f : flags.Flags) (x : Range flags) (rs ss : List (Range flags))
      → Shows a f rs ↔ Shows a f ss
      → Shows a f (x ∷ rs) ↔ Shows a f (x ∷ ss)
  beside a f x rs ss h = (
    (λ s. elim s [ inl here ↦ inl here | inr there ↦ inr (h.0 there) ]),
    (λ s. elim s [ inl here ↦ inl here | inr there ↦ inr (h.1 there) ]),
  )

  module _ (itertools : Coalesce (Range flags)) where
    abbrev pub merge : List (Range flags) → List (Range flags)
    merge = itertools.coalesce (join flags)

    merge-true :
        (x y : Range flags) (rs : List (Range flags))
        → joins flags x y ≡ true
        → merge (x ∷ y ∷ rs) ≡ merge (joined x y ∷ rs)
    merge-true x y rs e = itertools.merged (join flags) x y (joined x y) rs (rw e refl)

    merge-false :
        (x y : Range flags) (rs : List (Range flags))
        → joins flags x y ≡ false
        → merge (x ∷ y ∷ rs) ≡ x ∷ merge (y ∷ rs)
    merge-false x y rs e = itertools.parted (join flags) x y x y rs (rw e refl)

    -- The result starts as the first range does, and none of its ranges can be joined.
    pub merge-Maximal :
        (x : Range flags) (rs : List (Range flags))
        → (h : Range flags) × (t : List (Range flags)) × (merge (x ∷ rs) ≡ h ∷ t)
          × (h.from ≡ x.from)
          × (h.range_flags ≡ x.range_flags)
          × Maximal (h ∷ t)
    merge-Maximal x [] = (x, [], itertools.one_left (join flags) x, refl, refl, (tt, tt))
    merge-Maximal x (y ∷ rs) = elim (Bool-cases (joins flags x y)) [
      | inl meet ↦
          let (h, t, e, start, same, maximal) = merge-Maximal (joined x y) rs in
          (h, t, merge-true x y rs meet ∙ e, start, same, maximal)
      | inr miss ↦
          let (h, t, e, start, same, maximal) = merge-Maximal y rs in
          let apart : joins flags x h ≡ false = rw (start, same) miss in
          (x, h ∷ t, merge-false x y rs miss ∙ ap (λ l. x ∷ l) e, refl, refl, (apart, maximal))
    ]

    -- The result shows what the ranges do.
    pub merge-Shows :
        (a : ℕ) (f : flags.Flags) (x : Range flags) (rs : List (Range flags))
        → Upwards x
        → All Upwards rs
        → Shows a f (merge (x ∷ rs)) ↔ Shows a f (x ∷ rs)
    merge-Shows a f x [] up ups =
        subst (λ l. Shows a f l ↔ Shows a f (x ∷ [])) (sym (itertools.one_left (join flags) x))
          ((λ h. h), (λ h. h))
    merge-Shows a f x (y ∷ rs) up ups = elim (Bool-cases (joins flags x y)) [
      | inl meet ↦
          let e = joins-ends x y meet in
          let whole = merge-Shows a f (joined x y) rs (omega (arith, e.0, up, ups.0)) ups.1 in
          let parts = Shows-joined a f x y rs up ups.0 meet in
          subst (λ l. Shows a f l ↔ Shows a f (x ∷ y ∷ rs)) (sym (merge-true x y rs meet))
            ((λ h. parts.0 (whole.0 h)), (λ h. whole.1 (parts.1 h)))
      | inr miss ↦
          let rest = merge-Shows a f y rs ups.0 ups.1 in
          subst (λ l. Shows a f l ↔ Shows a f (x ∷ y ∷ rs)) (sym (merge-false x y rs miss))
            (beside a f x (merge (y ∷ rs)) (y ∷ rs) rest)
    ]
