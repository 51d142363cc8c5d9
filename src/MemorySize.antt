-- ===== src/MemorySize.antt =====
-- idker/src/memory.rs: how a number of bytes is displayed, as a number and the index of its suffix
-- (`B`, `KiB` and so on up to `EiB`, which is 6).
use native.Mathlib.Nat.{div-div-eq-div-mul, pow-suc}
use idkernel.Base.{
  ℕ, zero, suc, ◌+◌, ◌/◌, ◌^◌, ◌≤◌, ◌<◌, ◌≡◌, ◌⊎◌, inl, inr, refl, ◌∙◌, ap, sym, ◌&&◌,
  if◌then◌else◌, ltb, leb, Bool-cases, arith,
}

-- The loop; it has run 6 rounds at the most when it reaches the last suffix.
unfoldable pub scale : ℕ → ℕ → ℕ → ℕ × ℕ
scale zero i x = (x, i)
scale (suc rounds) i x =
    let rest = scale rounds (i + 1) (x / 1024) in if leb 1024 x && ltb i 6 then rest else (x, i)

unfoldable pub fmt : ℕ → ℕ × ℕ
fmt n = scale 6 0 n

-- A number of bytes in units of 1024 to the power of the suffix.
abbrev pub Displays : ℕ → ℕ × ℕ → Type 0
Displays n (x, i) = (x ≡ n / 1024 ^ i) × (i ≤ 6) × ((x < 1024) ⊎ (i ≡ 6))

scale_lem : (rounds i x n : ℕ) → x ≡ n / 1024 ^ i → rounds + i ≡ 6 → Displays n (scale rounds i x)
unfolding scale
scale_lem zero i x n e h = (e, omega (arith, h), inr (omega (arith, h)))
scale_lem (suc rounds) i x n e h = elim (Bool-cases (leb 1024 x && ltb i 6)) [
  | inl more ↦
      let next : x / 1024 ≡ n / 1024 ^ (i + 1) =
        ap (λ (y : ℕ). y / 1024) e
        ∙ div-div-eq-div-mul n (1024 ^ i) 1024
        ∙ ap (λ (m : ℕ). n / m) (sym (pow-suc 1024 i) ∙ ap (λ (j : ℕ). 1024 ^ j) (omega arith)) in
      rw more (scale_lem rounds (i + 1) (x / 1024) n next (omega (arith, h)))
  | inr stop ↦ rw stop (e, omega (arith, h), inl (ground (arith, stop, h)))
]

-- The number displayed for a number of bytes is the number of bytes divided by 1024 to the power of
-- the suffix's index, rounded down; the index is at most 6, and the number is below 1024 or the
-- index is 6.
pub fmt_lem : (n : ℕ) → Displays n (fmt n)
unfolding fmt
fmt_lem n = scale_lem 6 0 n n (omega arith) refl
