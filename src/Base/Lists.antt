-- ===== src/Base/Lists.antt =====
-- Lists as Rust's `Vec`, slices and iterators use them, measured by native numbers, and the
-- association list that stands for a map.
use Prim.Native.Nat.{ℕ, zero, suc, ◌+◌, ◌-◌, min}
use mathlib.Core.Path.{ap, ◌≡◌, refl}
use mathlib.Core.Logic.{◌≢◌}
use mathlib.Core.Bool.{Bool}
use mathlib.Core.List.{List, [], ◌∷◌, ◌++◌}
use mathlib.Core.Option.{Option, none, some}
use native.Mathlib.Omega.{arith}
use idkernel.Base.Tests.{◌==◌, if◌then◌else◌}

module _ {ℓ} {A : Type ℓ} where
  abbrev pub length : List A → ℕ
  length [] = 0
  length (x ∷ xs) = suc (length xs)

  abbrev pub get_elem? : List A → ℕ → Option A
  get_elem? [] i = none
  get_elem? (x ∷ xs) zero = some x
  get_elem? (x ∷ xs) (suc i) = get_elem? xs i

  abbrev pub take : ℕ → List A → List A
  take zero xs = []
  take (suc n) [] = []
  take (suc n) (x ∷ xs) = x ∷ take n xs

  abbrev pub drop : ℕ → List A → List A
  drop zero xs = xs
  drop (suc n) [] = []
  drop (suc n) (x ∷ xs) = drop n xs

  abbrev pub replicate : ℕ → A → List A
  replicate zero a = []
  replicate (suc n) a = a ∷ replicate n a

  -- A predicate on every element.
  abbrev pub All {κ} : (A → Type κ) → List A → Type κ
  All P [] = Unit
  All P (x ∷ xs) = P x × All P xs

  -- `iter().find(p)`.
  abbrev pub find : (A → Bool) → List A → Option A
  find p [] = none
  find p (x ∷ xs) = if p x then some x else find p xs

  -- `iter().position(p)`.
  abbrev pub position : (A → Bool) → List A → Option ℕ
  position p [] = none
  position p (x ∷ xs) =
      if p x then some 0 else elim (position p xs) [ none ↦ none | some i ↦ some (suc i) ]

  -- `Vec::remove(i)`: the vector without its element at `i`.
  abbrev pub remove_at : ℕ → List A → List A
  remove_at i [] = []
  remove_at zero (x ∷ xs) = xs
  remove_at (suc i) (x ∷ xs) = x ∷ remove_at i xs

  pub length-append : (xs ys : List A) → length (xs ++ ys) ≡ length xs + length ys
  length-append [] ys = omega arith
  length-append (x ∷ xs) ys = omega (arith, length-append xs ys)

  pub length-replicate : (n : ℕ) (a : A) → length (replicate n a) ≡ n
  length-replicate zero a = refl
  length-replicate (suc n) a = omega (arith, length-replicate n a)

  -- A list cut where it was put together.
  pub take-append : (xs ys : List A) → take (length xs) (xs ++ ys) ≡ xs
  take-append [] ys = refl
  take-append (x ∷ xs) ys = ap (λ l. x ∷ l) (take-append xs ys)

  pub drop-append : (xs ys : List A) → drop (length xs) (xs ++ ys) ≡ ys
  drop-append [] ys = refl
  drop-append (x ∷ xs) ys = drop-append xs ys

  pub length-take : (n : ℕ) (xs : List A) → length (take n xs) ≡ min n (length xs)
  length-take zero xs = omega arith
  length-take (suc n) [] = omega arith
  length-take (suc n) (x ∷ xs) = omega (arith, length-take n xs)

  pub take-min : (n : ℕ) (xs : List A) → take (min n (length xs)) xs ≡ take n xs
  take-min zero xs = ground arith
  take-min (suc n) [] = ground arith
  take-min (suc n) (x ∷ xs) =
      let e : min (suc n) (suc (length xs)) ≡ suc (min n (length xs)) = omega arith in
      rw (e, take-min n xs)

  pub length-drop : (n : ℕ) (xs : List A) → length (drop n xs) ≡ length xs - n
  length-drop zero xs = omega arith
  length-drop (suc n) [] = omega arith
  length-drop (suc n) (x ∷ xs) = omega (arith, length-drop n xs)

  pub All-append {κ} : (P : A → Type κ) (xs ys : List A) → All P xs → All P ys → All P (xs ++ ys)
  All-append P [] ys hx hy = hy
  All-append P (x ∷ xs) ys hx hy = (hx.0, All-append P xs ys hx.1 hy)

  pub All-map {κ η} :
      (P : A → Type κ) (Q : A → Type η) (xs : List A) → ((x : A) → P x → Q x) → All P xs → All Q xs
  All-map P Q [] f h = tt
  All-map P Q (x ∷ xs) f h = (f x h.0, All-map P Q xs f h.1)

-- A map with number keys: the first entry with the key counts.
module _ {ℓ} {V : Type ℓ} where
  abbrev pub assoc : ℕ → List (ℕ × V) → Option V
  assoc k [] = none
  assoc k ((j, v) ∷ m) = if j == k then some v else assoc k m

  -- A write to an entry that is there.
  abbrev pub assoc_set : ℕ → V → List (ℕ × V) → List (ℕ × V)
  assoc_set k v [] = []
  assoc_set k v ((j, w) ∷ m) = if j == k then (k, v) ∷ m else (j, w) ∷ assoc_set k v m

  abbrev pub assoc_map : ℕ → (V → V) → List (ℕ × V) → List (ℕ × V)
  assoc_map k f [] = []
  assoc_map k f ((j, w) ∷ m) = if j == k then (j, f w) ∷ m else (j, w) ∷ assoc_map k f m

  abbrev pub assoc_remove : ℕ → List (ℕ × V) → List (ℕ × V)
  assoc_remove k [] = []
  assoc_remove k ((j, w) ∷ m) = if j == k then m else (j, w) ∷ assoc_remove k m

  pub assoc-set_self :
      (k : ℕ) (v w : V) (m : List (ℕ × V)) → assoc k m ≡ some w → assoc k (assoc_set k v m) ≡ some v
  assoc-set_self k v w [] h = ground arith
  assoc-set_self k v w ((j, u) ∷ m) h = ground (arith, assoc-set_self k v w m)

  pub assoc-set_ne :
      (k q : ℕ) (v : V) (m : List (ℕ × V)) → q ≢ k → assoc q (assoc_set k v m) ≡ assoc q m
  assoc-set_ne k q v [] h = refl
  assoc-set_ne k q v ((j, u) ∷ m) h = ground (arith, assoc-set_ne k q v m h)

  pub assoc-remove_ne :
      (k q : ℕ) (m : List (ℕ × V)) → q ≢ k → assoc q (assoc_remove k m) ≡ assoc q m
  assoc-remove_ne k q [] h = refl
  assoc-remove_ne k q ((j, u) ∷ m) h = ground (arith, assoc-remove_ne k q m h)

  pub assoc-append :
      (k : ℕ) (m n : List (ℕ × V)) (v : V) → assoc k m ≡ some v → assoc k (m ++ n) ≡ some v
  assoc-append k [] n v h = ground arith
  assoc-append k ((j, u) ∷ m) n v h = ground (arith, assoc-append k m n v)

  pub assoc-append_none :
      (k : ℕ) (m n : List (ℕ × V)) → assoc k m ≡ none → assoc k (m ++ n) ≡ assoc k n
  assoc-append_none k [] n h = refl
  assoc-append_none k ((j, u) ∷ m) n h = ground (arith, assoc-append_none k m n)

  pub assoc-map_self :
      (k : ℕ) (f : V → V) (m : List (ℕ × V)) {v : V}
      → assoc k m ≡ some v
      → assoc k (assoc_map k f m) ≡ some (f v)
  assoc-map_self k f [] {v} h = ground arith
  assoc-map_self k f ((j, w) ∷ m) {v} h = ground (arith, assoc-map_self k f m {v = v})

  pub assoc-map_ne :
      (k q : ℕ) (f : V → V) (m : List (ℕ × V)) → q ≢ k → assoc q (assoc_map k f m) ≡ assoc q m
  assoc-map_ne k q f [] h = refl
  assoc-map_ne k q f ((j, w) ∷ m) h = ground (arith, assoc-map_ne k q f m h)

  abbrev pub map_option {κ} : {W : Type κ} → (V → W) → Option V → Option W
  map_option f none = none
  map_option f (some v) = some (f v)

  pub assoc-map :
      (k q : ℕ) (f : V → V) (m : List (ℕ × V))
      → assoc q (assoc_map k f m) ≡ (if q == k then map_option f (assoc q m) else assoc q m)
  assoc-map k q f [] = ground arith
  assoc-map k q f ((j, w) ∷ m) = ground (arith, assoc-map k q f m)

  -- Two changes of one entry, and a change that depends on the entry's value only.
  pub assoc_map-assoc_map :
      (k : ℕ) (f g : V → V) (m : List (ℕ × V))
      → assoc_map k f (assoc_map k g m) ≡ assoc_map k (λ v. f (g v)) m
  assoc_map-assoc_map k f g [] = refl
  assoc_map-assoc_map k f g ((j, w) ∷ m) = ground (arith, assoc_map-assoc_map k f g m)

  pub assoc_map_congr :
      (k : ℕ) (f g : V → V) (m : List (ℕ × V)) (v : V)
      → assoc k m ≡ some v
      → f v ≡ g v
      → assoc_map k f m ≡ assoc_map k g m
  assoc_map_congr k f g [] v h e = refl
  assoc_map_congr k f g ((j, w) ∷ m) v h e = ground (arith, assoc_map_congr k f g m v)

  pub assoc_map-id : (k : ℕ) (m : List (ℕ × V)) → assoc_map k (λ v. v) m ≡ m
  assoc_map-id k [] = refl
  assoc_map-id k ((j, w) ∷ m) = ground (arith, assoc_map-id k m)

  pub assoc_set_same : (k : ℕ) (v : V) (m : List (ℕ × V)) → assoc k m ≡ some v → assoc_set k v m ≡ m
  assoc_set_same k v [] h = refl
  assoc_set_same k v ((j, w) ∷ m) h = ground (arith, assoc_set_same k v m)

  pub assoc_set-assoc_set :
      (k : ℕ) (v w : V) (m : List (ℕ × V)) → assoc_set k v (assoc_set k w m) ≡ assoc_set k v m
  assoc_set-assoc_set k v w [] = refl
  assoc_set-assoc_set k v w ((j, u) ∷ m) = ground (arith, assoc_set-assoc_set k v w m)

  -- An entry at the end, removed again, with another one changed in between or not.
  pub assoc_remove-append :
      (k : ℕ) (c : V) (m : List (ℕ × V)) → assoc k m ≡ none → assoc_remove k (m ++ (k, c) ∷ []) ≡ m
  assoc_remove-append k c [] h = ground arith
  assoc_remove-append k c ((j, u) ∷ m) h = ground (arith, assoc_remove-append k c m)

  pub assoc_remove-set_append :
      (k p : ℕ) (c v w : V) (m : List (ℕ × V))
      → assoc k m ≡ none
      → assoc p m ≡ some w
      → assoc_remove k (assoc_set p v (m ++ (k, c) ∷ [])) ≡ assoc_set p v m
  assoc_remove-set_append k p c v w [] h e = ground arith
  assoc_remove-set_append k p c v w ((j, u) ∷ m) h e =
      ground (arith, assoc_remove-set_append k p c v w m, assoc_remove-append k c m)
