-- ===== src/Allocator/FixedSizeBlock/Positions.antt =====
-- Searching the block sizes of idker/src/allocator/fixed_size_block.rs.
use idkernel.Base.{
  ℕ, zero, suc, ◌≤◌, ◌<◌, ◌≡◌, inl, inr, refl, none, some, List, [], ◌∷◌, leb, position, get_elem?,
  All, length, arith, Option-cases,
}

-- The first size that is large enough, among any sizes.
pub position_head : (n x : ℕ) (xs : List ℕ) → position (λ s. leb n s) (x ∷ xs) ≡ some 0 → n ≤ x
position_head n x xs e = elim (Option-cases (position (λ s. leb n s) xs)) [
  | inl left ↦ ground (arith, left, e)
  | inr (k, found) ↦ ground (arith, found, e)
]

pub position_tail :
    (n x i : ℕ) (xs : List ℕ)
    → position (λ s. leb n s) (x ∷ xs) ≡ some (suc i)
    → (position (λ s. leb n s) xs ≡ some i) × (x < n)
position_tail n x i xs e = elim (Option-cases (position (λ s. leb n s) xs)) [
  | inl left ↦ absurd (ground (arith, left, e))
  | inr (k, found) ↦ (ground (arith, found, e), ground (arith, found, e))
]

pub position_absent :
    (n x : ℕ) (xs : List ℕ)
    → position (λ s. leb n s) (x ∷ xs) ≡ none
    → (position (λ s. leb n s) xs ≡ none) × (x < n)
position_absent n x xs e = elim (Option-cases (position (λ s. leb n s) xs)) [
  | inl left ↦ (left, ground (arith, left, e))
  | inr (k, found) ↦ absurd (ground (arith, found, e))
]

pub position_at :
    (n : ℕ) (sizes : List ℕ) (i : ℕ)
    → position (λ s. leb n s) sizes ≡ some i
    → (s : ℕ) × (get_elem? sizes i ≡ some s) × (n ≤ s)
position_at n [] i e = absurd (ground arith)
position_at n (x ∷ xs) zero e = (x, refl, position_head n x xs e)
position_at n (x ∷ xs) (suc i) e = position_at n xs i (position_tail n x i xs e).0

pub position_least :
    (n : ℕ) (sizes : List ℕ) (i j t : ℕ)
    → position (λ s. leb n s) sizes ≡ some i
    → j < i
    → get_elem? sizes j ≡ some t
    → t < n
position_least n [] i j t e h g = absurd (ground arith)
position_least n (x ∷ xs) zero j t e h g = absurd (omega arith)
position_least n (x ∷ xs) (suc i) zero t e h g = ground (arith, (position_tail n x i xs e).1)
position_least n (x ∷ xs) (suc i) (suc j) t e h g =
    position_least n xs i j t (position_tail n x i xs e).0 (omega arith) g

pub position-none :
    (n : ℕ) (sizes : List ℕ) (j t : ℕ)
    → position (λ s. leb n s) sizes ≡ none
    → get_elem? sizes j ≡ some t
    → t < n
position-none n [] j t e g = absurd (ground arith)
position-none n (x ∷ xs) zero t e g = ground (arith, (position_absent n x xs e).1)
position-none n (x ∷ xs) (suc j) t e g = position-none n xs j t (position_absent n x xs e).0 g

-- An index that is in range, and only such an index, names an element.
pub get_elem?-lt : (xs : List ℕ) (i s : ℕ) → get_elem? xs i ≡ some s → i < length xs
get_elem?-lt [] i s e = absurd (ground arith)
get_elem?-lt (x ∷ xs) zero s e = omega arith
get_elem?-lt (x ∷ xs) (suc i) s e = omega (arith, get_elem?-lt xs i s e)

pub get_elem?-there : (xs : List ℕ) (i : ℕ) → i < length xs → (s : ℕ) × (get_elem? xs i ≡ some s)
get_elem?-there [] i h = absurd (omega arith)
get_elem?-there (x ∷ xs) zero h = (x, refl)
get_elem?-there (x ∷ xs) (suc i) h = get_elem?-there xs i (omega arith)

pub get_elem?-All :
    (P : ℕ → Type 0) (xs : List ℕ) (i s : ℕ) → All P xs → get_elem? xs i ≡ some s → P s
get_elem?-All P [] i s h e = absurd (ground arith)
get_elem?-All P (x ∷ xs) zero s h e = let f : x ≡ s = ground (arith, e) in rw f at h.0
get_elem?-All P (x ∷ xs) (suc i) s h e = get_elem?-All P xs i s h.1 e
