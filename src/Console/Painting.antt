-- ===== src/Console/Painting.antt =====
-- The painting of idker/src/vga_framebuffer.rs stays in the frame buffer.
use native.Mathlib.Nat.{add-mul, mul-le-mul_right, div-mul-le_self}
use idkernel.Base.{
  ℕ, suc, ◌+◌, ◌*◌, ◌/◌, ◌≤◌, ◌<◌, ◌≡◌, ◌≢◌, refl, sym, length, Str, Prog, arith, Completes,
  map-Completes, zoom-Completes, step-Completes, get-Completes, modify_bind-Completes,
}
use idkernel.Console.Fits.{Fits, fill_rows-Fits, splat_rows-Fits}
use idkernel.Console.{
  PixelFormat, rgb, bgr, u8, unknown, Color, VgaColorWriter, pixels, channels, fill_rows,
  splat_rows, on_buffer, fill_rect, clean_row, next_row, new_line,
}

-- The bytes of a pixel that a format has.
abbrev pub depth : PixelFormat → ℕ
depth rgb = 3
depth bgr = 3
depth u8 = 1
depth unknown = 0

length-channels : (f : PixelFormat) (color : Color) → length (channels (depth f) color) ≡ depth f
length-channels rgb color = refl
length-channels bgr color = refl
length-channels u8 color = refl
length-channels unknown color = refl

pub pixels-Completes :
    {S E : Type 0} (f : PixelFormat) (s : S)
    → f ≢ unknown
    → Completes {E = E} (λ n t. (n ≡ depth f) × (t ≡ s)) s (pixels f)
unfolding pixels
pixels-Completes rgb s h = record { result = 3; after = s; ends = refl; holds = (refl, refl) }
pixels-Completes bgr s h = record { result = 3; after = s; ends = refl; holds = (refl, refl) }
pixels-Completes u8 s h = record { result = 1; after = s; ends = refl; holds = (refl, refl) }
pixels-Completes unknown s h = absurd (h refl)

-- A writer on a frame buffer that holds what its description says, of a format that is known.
pub record OnScreen (w : VgaColorWriter) : Type 0 where
  pub columns : w.max_x ≡ w.info.width / 8
  pub rows : w.max_y ≡ w.info.height / 8
  pub narrow : w.info.width ≤ w.info.stride
  pub known : w.info.pixel_format ≢ unknown
  pub whole : depth w.info.pixel_format ≤ w.info.bytes_per_pixel
  pub full : w.info.height * (w.info.stride * w.info.bytes_per_pixel) ≤ length w.buffer

-- Its cursor is on the screen, too.
pub record IsValid (w : VgaColorWriter) : Type 0 where
  pub on_screen : OnScreen w
  pub in_row : w.curr_x < w.max_x
  pub in_column : w.curr_y < w.max_y

-- Only bytes of the buffer changed.
abbrev pub Painted : VgaColorWriter → VgaColorWriter → Type 0
Painted w w' = (b : Str) × (length b ≡ length w.buffer) × (w' ≡ record w { buffer = b })

pub Painted-OnScreen :
    (w : VgaColorWriter) (b : Str)
    → length b ≡ length w.buffer
    → OnScreen w
    → OnScreen (record w { buffer = b })
Painted-OnScreen w b e v = record {
  columns = v.columns;
  rows = v.rows;
  narrow = v.narrow;
  known = v.known;
  whole = v.whole;
  full = omega (arith, v.full, e);
}

module _ (w : VgaColorWriter) (v : OnScreen w) where
  -- Rows of characters on the screen are rows of pixels in the buffer.
  rows_full :
      (n : ℕ) → n ≤ w.max_y → n * 8 * (w.info.stride * w.info.bytes_per_pixel) ≤ length w.buffer
  rows_full n h =
      let fits : n * 8 ≤ w.info.height = omega (arith, div-mul-le_self w.info.height 8, v.rows) in
      omega (arith, mul-le-mul_right (w.info.stride * w.info.bytes_per_pixel) fits, v.full)

  columns_fit : (n : ℕ) → n ≤ w.max_x → n * 8 ≤ w.info.stride
  columns_fit n h = omega (arith, div-mul-le_self w.info.width 8, v.columns, v.narrow)

  rect_index :
      (y h s b size : ℕ)
      → (y + h) * 8 * (s * b) ≤ size
      → (y * s + 0) * 8 * b + h * 8 * (s * b) ≤ size
  rect_index y h s b size fits = omega (arith, fits)

  on_buffer-Painted :
      {E : Type 0} {m : Prog Str E (Unit {0})}
      → Fits (length w.buffer) {E = E} w.buffer m
      → Completes (λ _ t. Painted w t) w (on_buffer m)
  on_buffer-Painted h =
      zoom-Completes (λ (x : VgaColorWriter). x.buffer) (λ b x. record x { buffer = b })
        (map-Completes h (λ _ b e. (b, e, refl)))

  small :
      (color : Color) → length (channels (depth w.info.pixel_format) color) ≤ w.info.bytes_per_pixel
  small color = omega (arith, length-channels w.info.pixel_format color, v.whole)

  fill_rect_rows :
      {E : Type 0} (y h : ℕ) (color : Color) (self : VgaColorWriter) (n : ℕ)
      → y + h ≤ w.max_y
      → self ≡ w
      → n ≡ depth self.info.pixel_format
      → Completes {E = E}
          (λ _ t. Painted w t)
          w
          (on_buffer (
            fill_rows self.info
              (channels n color)
              (w.max_x * 8)
              (h * 8)
              ((y * self.info.stride + 0) * 8 * self.info.bytes_per_pixel)))
  fill_rect_rows y h color self n inside e1 e2 =
      rw (e2, e1)
        (on_buffer-Painted (
          fill_rows-Fits (length w.buffer) w.info (channels (depth w.info.pixel_format) color)
            (w.max_x * 8) (h * 8) _ w.buffer (small color) (columns_fit w.max_x (omega arith)) refl
            (rect_index y h w.info.stride w.info.bytes_per_pixel (length w.buffer)
              (rows_full (y + h) inside))))

  pub fill_rect-Painted :
      {E : Type 0} (y h : ℕ) (color : Color)
      → y + h ≤ w.max_y
      → Completes {E = E} (λ _ t. Painted w t) w (fill_rect 0 y w.max_x h color)
  unfolding fill_rect
  fill_rect-Painted y h color inside = step-Completes get-Completes λ self e1.
      step-Completes (pixels-Completes self.info.pixel_format w (rw e1 v.known))
        λ n e2. fill_rect_rows y h color self n inside e1 e2

  row_at_cursor :
      {E : Type 0} (self : VgaColorWriter)
      → w.curr_y < w.max_y
      → self ≡ w
      → Completes {E = E}
          (λ _ t. Painted w t)
          w
          (fill_rect 0 self.curr_y self.max_x 1 self.background)
  row_at_cursor self inside e = rw e (fill_rect-Painted w.curr_y 1 w.background (omega arith))

  clean_row-Painted :
      {E : Type 0} → w.curr_y < w.max_y → Completes {E = E} (λ _ t. Painted w t) w clean_row
  unfolding clean_row
  clean_row-Painted inside = step-Completes get-Completes λ self e. row_at_cursor self inside e

  -- The pixels of the character at the cursor.
  char_fits :
      (x y s b size height : ℕ)
      → x * 8 + 8 ≤ s
      → y * 8 + 8 ≤ height
      → height * (s * b) ≤ size
      → (x * 8 * b + 8 * b ≤ s * b) × (y * 8 * (s * b) + 8 * (s * b) ≤ size)
  char_fits x y s b size height across down full = (
    omega (arith, mul-le-mul_right b across, add-mul (x * 8) 8 b),
    omega (arith, mul-le-mul_right (s * b) down, add-mul (y * 8) 8 (s * b), full),
  )

  char_index : (x y s b : ℕ) → y * 8 * (s * b) + x * 8 * b ≡ (y * 8 * s + x * 8) * b
  char_index x y s b = omega arith

  pub splat_rows-Painted :
      {E : Type 0} (image : ℕ → ℕ) (self : VgaColorWriter) (n : ℕ)
      → w.curr_x < w.max_x
      → w.curr_y < w.max_y
      → self ≡ w
      → n ≡ depth self.info.pixel_format
      → Completes {E = E}
          (λ _ t. Painted w t)
          w
          (on_buffer (
            splat_rows self.info
              (channels n self.foreground)
              (channels n self.background)
              image
              8
              ((w.curr_y * 8 * self.info.stride + w.curr_x * 8) * self.info.bytes_per_pixel)))
  splat_rows-Painted image self n in_row in_column e1 e2 =
      let (across, down) =
        char_fits w.curr_x w.curr_y w.info.stride w.info.bytes_per_pixel (length w.buffer)
          w.info.height (omega (arith, columns_fit (suc w.curr_x) in_row))
          (omega (arith, div-mul-le_self w.info.height 8, v.rows)) v.full in
      let at = char_index w.curr_x w.curr_y w.info.stride w.info.bytes_per_pixel in
      rw (e2, e1, sym at)
        (on_buffer-Painted (
          splat_rows-Fits (length w.buffer) w.info _ _ image 8 _ _ w.buffer (small w.foreground)
            (small w.background) (omega (arith, columns_fit (suc w.curr_x) in_row)) refl across
            down))

-- The next row of a screen is on the screen.
pub next_row-OnScreen : (w : VgaColorWriter) → OnScreen w → OnScreen (next_row w)
unfolding next_row
next_row-OnScreen w v = record {
  columns = v.columns;
  rows = v.rows;
  narrow = v.narrow;
  known = v.known;
  whole = v.whole;
  full = v.full;
}

pub next_row_inside : (w : VgaColorWriter) → 0 < w.max_y → (next_row w).curr_y < (next_row w).max_y
unfolding next_row
next_row_inside w h = ground arith

pub new_line-Painted :
    {E : Type 0} (w : VgaColorWriter)
    → OnScreen w
    → 0 < w.max_y
    → Completes {E = E} (λ _ t. Painted (next_row w) t) w new_line
unfolding new_line
new_line-Painted w v h =
    modify_bind-Completes next_row
      λ _. clean_row-Painted (next_row w) (next_row-OnScreen w v) (next_row_inside w h)
