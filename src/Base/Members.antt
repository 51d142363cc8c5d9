-- ===== src/Base/Members.antt =====
-- The members of a list.
use mathlib.Core.Path.{◌≡◌}
use mathlib.Core.Logic.{◌⊎◌, inl, inr}
use mathlib.Core.List.{List, [], ◌∷◌, ◌++◌}

abbrev pub Among : {A : Type 0} → A → List A → Type 0
Among a [] = ⊥
Among a (x ∷ xs) = (a ≡ x) ⊎ Among a xs

pub Among-append :
    {A : Type 0} (a : A) (xs ys : List A) → Among a xs ⊎ Among a ys → Among a (xs ++ ys)
Among-append a [] ys (inl h) = absurd h
Among-append a [] ys (inr h) = h
Among-append a (x ∷ xs) ys (inl (inl e)) = inl e
Among-append a (x ∷ xs) ys (inl (inr h)) = inr (Among-append a xs ys (inl h))
Among-append a (x ∷ xs) ys (inr h) = inr (Among-append a xs ys (inr h))

pub Among-split :
    {A : Type 0} (a : A) (xs ys : List A) → Among a (xs ++ ys) → Among a xs ⊎ Among a ys
Among-split a [] ys h = inr h
Among-split a (x ∷ xs) ys (inl e) = inl (inl e)
Among-split a (x ∷ xs) ys (inr h) = elim (Among-split a xs ys h) [
  | inl front ↦ inl (inr front)
  | inr back ↦ inr back
]
