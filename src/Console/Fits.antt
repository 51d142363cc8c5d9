-- ===== src/Console/Fits.antt =====
-- Where the loops of idker/src/vga_framebuffer.rs stay in the buffer.
use native.Mathlib.Nat.{add-mul, suc-mul}
use idkernel.Base.{
  ℕ, zero, suc, ◌+◌, ◌-◌, ◌*◌, ◌/◌, ◌%◌, ◌≤◌, ◌<◌, ◌≡◌, refl, ◌∙◌, sym, ap, subst, List, [], ◌∷◌,
  length, Str, leb, ◌==◌, if◌then◌else◌, Prog, arith, Completes, bind-Completes, pure-Completes,
  map-Completes, assert-Completes,
}
use idkernel.Console.{
  FrameBufferInfo, set_byte, put, put_pixel, fill_row, fill_rows, splat_bits, splat_rows,
}

length-set_byte : (i b : ℕ) (s : Str) → length (set_byte i b s) ≡ length s
unfolding set_byte
length-set_byte i b [] = refl
length-set_byte zero b (x ∷ xs) = refl
length-set_byte (suc i) b (x ∷ xs) = ap suc (length-set_byte i b xs)

module _ (size : ℕ) where
  -- Code on the bytes of a buffer that keeps their number.
  abbrev pub Fits : {E : Type 0} → Str → Prog Str E (Unit {0}) → Type 0
  Fits s m = Completes (λ _ t. length t ≡ size) s m

  -- The same, with the index behind what was written.
  abbrev FitsUpTo : {E : Type 0} → ℕ → Str → Prog Str E ℕ → Type 0
  FitsUpTo j s m = Completes (λ i t. (i ≡ j) × (length t ≡ size)) s m

  put-Fits :
      {E : Type 0} (i b : ℕ) (s : Str) → length s ≡ size → i < size → Fits {E = E} s (put i b)
  unfolding put
  put-Fits i b s e h = record {
    result = tt;
    after = set_byte i b s;
    ends = ground arith;
    holds = length-set_byte i b s ∙ e;
  }

  put_pixel-Fits :
      {E : Type 0} (i : ℕ) (bs : List ℕ) (s : Str)
      → length s ≡ size
      → i + length bs ≤ size
      → Fits {E = E} s (put_pixel i bs)
  unfolding put_pixel
  put_pixel-Fits i [] s e h = pure-Completes tt e
  put_pixel-Fits i (b ∷ bs) s e h =
      bind-Completes (put-Fits i b s e (omega arith))
        λ _ t e'. put_pixel-Fits (suc i) bs t e' (omega arith)

  fill_row-Fits :
      {E : Type 0} (bpp : ℕ) (bytes : List ℕ) (n i : ℕ) (s : Str)
      → length bytes ≤ bpp
      → length s ≡ size
      → i + n * bpp ≤ size
      → FitsUpTo {E = E} (i + n * bpp) s (fill_row bpp bytes n i)
  unfolding fill_row
  fill_row-Fits bpp bytes zero i s small e h = pure-Completes i (omega arith, e)
  fill_row-Fits bpp bytes (suc n) i s small e h =
      bind-Completes (put_pixel-Fits i bytes s e (omega arith)) λ _ t e'.
        map-Completes (fill_row-Fits bpp bytes n (i + bpp) t small e' (omega arith))
          λ j u r. (omega (arith, r.0), r.1)

  splat_bits-Fits :
      {E : Type 0} (bpp : ℕ) (on off : List ℕ) (n row i : ℕ) (s : Str)
      → length on ≤ bpp
      → length off ≤ bpp
      → length s ≡ size
      → i + n * bpp ≤ size
      → FitsUpTo {E = E} (i + n * bpp) s (splat_bits bpp on off n row i)
  unfolding splat_bits
  splat_bits-Fits bpp on off zero row i s small_on small_off e h = pure-Completes i (omega arith, e)
  splat_bits-Fits bpp on off (suc n) row i s small_on small_off e h =
      bind-Completes (put_pixel-Fits i (if row % 2 == 1 then on else off) s e (ground arith))
        λ _ t e'.
          map-Completes
            (splat_bits-Fits bpp on off n (row / 2) (i + bpp) t small_on small_off e' (omega arith))
            λ j u r. (omega (arith, r.0), r.1)

row_split : (w stride b : ℕ) → w ≤ stride → w * b + (stride - w) * b ≡ stride * b
row_split w stride b h =
    let whole : w + (stride - w) ≡ stride = omega arith in
    sym (add-mul w (stride - w) b) ∙ ap (λ n. n * b) whole

row_step : (n stride b : ℕ) → suc n * (stride * b) ≡ stride * b + n * (stride * b)
row_step n stride b = omega (arith, suc-mul n (stride * b))

module _ (size : ℕ) (info : FrameBufferInfo) where
  open info use {stride, bytes_per_pixel}

  pub fill_rows-Fits :
      {E : Type 0} (bytes : List ℕ) (w n i : ℕ) (s : Str)
      → length bytes ≤ bytes_per_pixel
      → w ≤ stride
      → length s ≡ size
      → i + n * (stride * bytes_per_pixel) ≤ size
      → Fits size {E = E} s (fill_rows info bytes w n i)
  unfolding fill_rows
  fill_rows-Fits bytes w zero i s small inside e h = pure-Completes tt e
  fill_rows-Fits bytes w (suc n) i s small inside e h =
      let split = row_split w stride bytes_per_pixel inside in
      let step = row_step n stride bytes_per_pixel in
      bind-Completes
        (fill_row-Fits size bytes_per_pixel bytes w i s small e (omega (arith, split, step)))
        λ j t r.
          bind-Completes {P' = λ _ u. length u ≡ size}
            (assert-Completes (leb w stride) (ground arith) r.1)
            λ _ u e'. fill_rows-Fits bytes w n _ u small inside e' (omega (arith, split, step, r.0))

  -- `r` is where the row starts, and `x` where the character starts in it.
  pub splat_rows-Fits :
      {E : Type 0} (on off : List ℕ) (image : ℕ → ℕ) (n r x : ℕ) (s : Str)
      → length on ≤ bytes_per_pixel
      → length off ≤ bytes_per_pixel
      → 8 ≤ stride
      → length s ≡ size
      → x + 8 * bytes_per_pixel ≤ stride * bytes_per_pixel
      → r + n * (stride * bytes_per_pixel) ≤ size
      → Fits size {E = E} s (splat_rows info on off image n (r + x))
  unfolding splat_rows
  splat_rows-Fits on off image zero r x s small_on small_off wide e inside h = pure-Completes tt e
  splat_rows-Fits {E = E} on off image (suc n) r x s small_on small_off wide e inside h =
      let split = row_split 8 stride bytes_per_pixel wide in
      let step = row_step n stride bytes_per_pixel in
      bind-Completes
        (splat_bits-Fits size bytes_per_pixel on off 8 (image (8 - suc n)) (r + x) s small_on
          small_off e (omega (arith, step)))
        λ j t q.
          bind-Completes {P' = λ _ u. length u ≡ size}
            (assert-Completes (leb 8 stride) (ground arith) q.1)
            λ _ u e'.
              let next : r + stride * bytes_per_pixel + x ≡ j + (stride - 8) * bytes_per_pixel =
                omega (arith, split, q.0) in
              subst (λ k. Fits size {E = E} u (splat_rows info on off image n k)) next
                (splat_rows-Fits on off image n (r + stride * bytes_per_pixel) x u small_on
                  small_off wide e' inside (omega (arith, step)))
