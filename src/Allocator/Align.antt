-- ===== src/Allocator/Align.antt =====
-- idker/src/allocator/mod.rs: `align_up` on 64-bit words.
use Prim.Native.Nat.{bit_and}
use idkernel.Base.{
  ℕ, ◌+◌, ◌-◌, ◌*◌, ◌/◌, ◌%◌, ◌^◌, ◌≤◌, ◌<◌, ◌≡◌, refl, sym, ◌∙◌, Option, none, some, if◌then◌else◌,
  ltb, leb, zero, suc, ap, arith,
}
use native.Mathlib.Nat.{pow-suc, one-le-pow, div-add-mod', mod-lt, div-lt_iff_lt-mul}
use idkernel.Base.Bits.{and_high}

-- `(addr + align - 1) & !(align - 1)`; `none` where the checked sum or difference overflows.
unfoldable pub align_up : ℕ → ℕ → Option ℕ
align_up addr align =
    if ltb (addr + align) (2 ^ 64)
    then (if leb 1 align
        then some (bit_and (addr + align - 1) (2 ^ 64 - 1 - (align - 1)))
        else none)
    else none

pow_sum : (k w : ℕ) → 2 ^ (k + w) ≡ 2 ^ w * 2 ^ k
pow_sum zero w = let e : 0 + w ≡ w = omega arith in rw e (omega arith)
pow_sum (suc k) w =
    let e : suc k + w ≡ suc (k + w) = omega arith in
    rw e (
      omega (
        arith,
        pow_sum k w,
        pow-suc 2 k,
        pow-suc 2 (k + w),
        ap (λ (t : ℕ). 2 ^ w * t) (pow-suc 2 k),
      ))

-- Rounding by the mask, where the word has `w` bits above the alignment.
rounded : (s k w : ℕ) → s < 2 ^ (k + w) → bit_and s ((2 ^ w - 1) * 2 ^ k) ≡ s / 2 ^ k * 2 ^ k
rounded s k w h =
    let d = one-le-pow k 2 (omega arith) in
    let q : s / 2 ^ k < 2 ^ w = (div-lt_iff_lt-mul d).1 (rw (sym (pow_sum k w)) h) in
    let whole = div-add-mod' s (2 ^ k) in
    let kept = and_high k w (s / 2 ^ k) (s % 2 ^ k) (mod-lt s d) q in rw whole at kept

mask_shift : (a b : ℕ) {n : ℕ} → n ≡ b * a → n ≡ 2 ^ 64 → 2 ^ 64 - 1 - (a - 1) ≡ (b - 1) * a
mask_shift zero b h e = absurd (omega (arith, h, e))
mask_shift (suc a) zero h e = absurd (omega (arith, h, e))
mask_shift (suc a) (suc b) {n} h e =
    let p : n ≡ b * suc a + suc a = h ∙ omega arith in
    let c : suc b - 1 ≡ b = omega arith in rw c (omega (arith, p, e))

-- For an alignment `2 ^ k` that fits into the 64-bit word and an address whose sum with it does not
-- overflow, `align_up` returns a multiple of the alignment that is at least the address and less
-- than the alignment above it.
pub align_up_lem :
    (addr k w : ℕ)
    → k + w ≡ 64
    → addr + 2 ^ k < 2 ^ 64
    → (r : ℕ) × (q : ℕ) × (align_up addr (2 ^ k) ≡ some r)
      × (r ≡ q * 2 ^ k)
      × (addr ≤ r)
      × (r < addr + 2 ^ k)
unfolding align_up
align_up_lem addr k w e h =
    let d = one-le-pow k 2 (omega arith) in
    let s = addr + 2 ^ k - 1 in
    let width : 2 ^ (k + w) ≡ 2 ^ 64 = rw e in
    let mask : 2 ^ 64 - 1 - (2 ^ k - 1) ≡ (2 ^ w - 1) * 2 ^ k =
      mask_shift (2 ^ k) (2 ^ w) (pow_sum k w) width in
    let cut = rounded s k w (omega (arith, h, width, d)) in
    (
      s / 2 ^ k * 2 ^ k,
      s / 2 ^ k,
      ground (arith, h, mask, cut, d),
      refl,
      omega (arith, div-add-mod' s (2 ^ k), mod-lt s d, d),
      omega (arith, div-add-mod' s (2 ^ k), mod-lt s d, d),
    )
