-- ===== src/Allocator/FixedSizeBlock/Blocks.antt =====
-- The lists of free blocks of idker/src/allocator/fixed_size_block.rs and their bytes.
use idkernel.Base.{ℕ, zero, suc, ◌+◌, ◌*◌, ◌<◌, ◌≡◌, refl, List, [], ◌∷◌, length, arith, ap}
use idkernel.Allocator.FixedSizeBlock.{block_size, slot, set_slot}

-- The bytes on the lists, the list at `index` first.
abbrev pub free_bytes : ℕ → List (List ℕ) → ℕ
free_bytes index [] = 0
free_bytes index (l ∷ heads) = block_size index * length l + free_bytes (suc index) heads

abbrev pub add_index : ℕ → ℕ → ℕ
add_index i zero = i
add_index i (suc n) = add_index (suc i) n

pub free_bytes-push :
    (ptr first index : ℕ) (heads : List (List ℕ))
    → index < length heads
    → free_bytes first (set_slot index (ptr ∷ slot index heads) heads)
      ≡ free_bytes first heads + block_size (add_index first index)
free_bytes-push ptr first index [] h = absurd (omega arith)
free_bytes-push ptr first zero (l ∷ heads) h = ground arith
free_bytes-push ptr first (suc index) (l ∷ heads) h =
    ground (arith, free_bytes-push ptr (suc first) index heads)

pub free_bytes-pop :
    (ptr first index : ℕ) (next : List ℕ) (heads : List (List ℕ))
    → slot index heads ≡ ptr ∷ next
    → free_bytes first (set_slot index next heads) + block_size (add_index first index)
      ≡ free_bytes first heads
free_bytes-pop ptr first index next [] h = absurd (ground arith)
free_bytes-pop ptr first zero next (l ∷ heads) h = ground arith
free_bytes-pop ptr first (suc index) next (l ∷ heads) h =
    ground (arith, free_bytes-pop ptr (suc first) index next heads)

pub slot-set_slot :
    (index : ℕ) (l : List ℕ) (heads : List (List ℕ))
    → index < length heads
    → slot index (set_slot index l heads) ≡ l
slot-set_slot index l [] h = absurd (omega arith)
slot-set_slot zero l (x ∷ heads) h = refl
slot-set_slot (suc index) l (x ∷ heads) h = slot-set_slot index l heads (omega arith)

pub set_slot-set_slot :
    (index : ℕ) (l : List ℕ) (heads : List (List ℕ))
    → set_slot index (slot index heads) (set_slot index l heads) ≡ heads
set_slot-set_slot index l [] = refl
set_slot-set_slot zero l (x ∷ heads) = refl
set_slot-set_slot (suc index) l (x ∷ heads) = ap (λ t. x ∷ t) (set_slot-set_slot index l heads)

pub length-set_slot :
    (index : ℕ) (l : List ℕ) (heads : List (List ℕ))
    → length (set_slot index l heads) ≡ length heads
length-set_slot index l [] = refl
length-set_slot zero l (x ∷ heads) = refl
length-set_slot (suc index) l (x ∷ heads) = omega (arith, length-set_slot index l heads)

pub add_index_sum : (i n : ℕ) → add_index i n ≡ i + n
add_index_sum i zero = omega arith
add_index_sum i (suc n) = omega (arith, add_index_sum (suc i) n)

pub block_size-index : (i : ℕ) → block_size (add_index 0 i) ≡ block_size i
block_size-index i = ap block_size (omega (arith, add_index_sum 0 i))
