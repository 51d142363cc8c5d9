-- ===== src/Base/Table.antt =====
-- A vector of (handle, value) pairs whose handles come from a counter: the representation of the
-- capability table and of the file table of a task.
use Prim.Native.Nat.{ℕ, suc, ◌≤◌, ◌<◌}
use mathlib.Core.Path.{◌≡◌, refl}
use mathlib.Core.Logic.{inl, inr}
use mathlib.Core.List.{List, [], ◌∷◌, ◌++◌}
use mathlib.Core.Option.{none, some}
use native.Mathlib.Omega.{arith}
use idkernel.Base.Tests.{◌==◌, Bool-cases}
use idkernel.Base.Lists.{assoc, assoc_set, assoc_remove, position, remove_at, get_elem?}

module _ {ℓ} {V : Type ℓ} where
  -- The handles ascend strictly along the vector, from `lo` on and below `hi`.
  abbrev pub Within : ℕ → ℕ → List (ℕ × V) → Type 0
  Within lo hi [] = lo ≤ hi
  Within lo hi ((h, v) ∷ t) = (lo ≤ h) × Within (suc h) hi t

  pub Within-le : (lo hi : ℕ) (t : List (ℕ × V)) → Within lo hi t → lo ≤ hi
  Within-le lo hi [] w = w
  Within-le lo hi ((h, v) ∷ t) w = omega (arith, Within-le (suc h) hi t w.1)

  pub Within-mono : (lo lo' hi : ℕ) (t : List (ℕ × V)) → lo' ≤ lo → Within lo hi t → Within lo' hi t
  Within-mono lo lo' hi [] e w = omega arith
  Within-mono lo lo' hi ((h, v) ∷ t) e w = (omega arith, w.1)

  pub Within-grow : (lo hi : ℕ) (t : List (ℕ × V)) → Within lo hi t → Within lo (suc hi) t
  Within-grow lo hi [] w = omega arith
  Within-grow lo hi ((h, v) ∷ t) w = (w.0, Within-grow (suc h) hi t w.1)

  -- The counter's value is a good handle for the next entry.
  pub Within-push :
      (lo hi : ℕ) (v : V) (t : List (ℕ × V))
      → Within lo hi t
      → Within lo (suc hi) (t ++ (hi, v) ∷ [])
  Within-push lo hi v [] w = (w, omega arith)
  Within-push lo hi v ((h, u) ∷ t) w = (w.0, Within-push (suc h) hi v t w.1)

  pub Within-remove :
      (k lo hi : ℕ) (t : List (ℕ × V)) → Within lo hi t → Within lo hi (assoc_remove k t)
  Within-remove k lo hi [] w = w
  Within-remove k lo hi ((h, u) ∷ t) w =
      ground (arith, Within-remove k (suc h) hi t w.1, Within-mono (suc h) lo hi t)

  pub Within-set :
      (k lo hi : ℕ) (v : V) (t : List (ℕ × V)) → Within lo hi t → Within lo hi (assoc_set k v t)
  Within-set k lo hi v [] w = w
  Within-set k lo hi v ((h, u) ∷ t) w = ground (arith, Within-set k (suc h) hi v t w.1)

  pub assoc_below : (k lo hi : ℕ) (t : List (ℕ × V)) → Within lo hi t → k < lo → assoc k t ≡ none
  assoc_below k lo hi [] w e = refl
  assoc_below k lo hi ((h, u) ∷ t) w e = ground (arith, assoc_below k (suc h) hi t w.1)

  pub assoc_above : (k lo hi : ℕ) (t : List (ℕ × V)) → Within lo hi t → hi ≤ k → assoc k t ≡ none
  assoc_above k lo hi [] w e = refl
  assoc_above k lo hi ((h, u) ∷ t) w e =
      ground (arith, Within-le (suc h) hi t w.1, assoc_above k (suc h) hi t w.1)

  -- A removed handle is gone.
  pub assoc-remove_self :
      (k lo hi : ℕ) (t : List (ℕ × V)) → Within lo hi t → assoc k (assoc_remove k t) ≡ none
  assoc-remove_self k lo hi [] w = refl
  assoc-remove_self k lo hi ((h, u) ∷ t) w =
      ground (arith, assoc_below k (suc h) hi t w.1, assoc-remove_self k (suc h) hi t w.1)

  -- `position` then `remove` is removal by key.
  pub position_missing :
      (k : ℕ) (t : List (ℕ × V)) → assoc k t ≡ none → position (λ e. e.0 == k) t ≡ none
  position_missing k [] e = refl
  position_missing k ((h, u) ∷ t) e = ground (arith, position_missing k t)

  pub position_found :
      (k : ℕ) (v : V) (t : List (ℕ × V))
      → assoc k t ≡ some v
      → (i : ℕ) × (position (λ e. e.0 == k) t ≡ some i)
        × (get_elem? t i ≡ some (k, v))
        × (remove_at i t ≡ assoc_remove k t)
  position_found k v [] e = absurd (ground arith)
  position_found k v ((h, u) ∷ t) e = elim (Bool-cases (h == k)) [
    | inl hit ↦ (0, rw hit, ground arith, rw hit)
    | inr miss ↦
        let (i, p, g, r) = position_found k v t (ground arith) in
        (suc i, rw (miss, p), g, rw (miss, r))
  ]
