-- ===== src/Console.antt =====
-- idker/src/vga_framebuffer.rs: text on the pixels of a frame buffer. The font of the crate font8x8
-- is a parameter: the eight rows of a character, if the font has it. An index that overflows a word
-- is behind the end of the buffer, and both panic.
mod Fits
pub mod Painting
pub mod Cursor
pub mod Laws
use idkernel.Base.{
  ℕ, zero, suc, ◌+◌, ◌-◌, ◌*◌, ◌/◌, ◌%◌, Bool, ◌&&◌, ◌||◌, Option, none, some, List, [], ◌∷◌, ltb,
  leb, ◌==◌, if◌then◌else◌, length, take, Str, Outcome, ok, err, panic, hang, Prog, ◌>>=◌, ◌>>◌,
  pure, get, modify, unwrap, assert, zoom,
}

pub data PixelFormat : Type 0 where
  rgb bgr u8 unknown : PixelFormat

pub record FrameBufferInfo : Type 0 where
  pub width : ℕ
  pub height : ℕ
  pub stride : ℕ
  pub bytes_per_pixel : ℕ
  pub pixel_format : PixelFormat

-- `Color([first, second, third])`.
pub record Color : Type 0 where
  pub first : ℕ
  pub second : ℕ
  pub third : ℕ

pub record VgaColorWriter : Type 0 where
  pub curr_x : ℕ
  pub curr_y : ℕ
  pub max_x : ℕ
  pub max_y : ℕ
  pub info : FrameBufferInfo
  pub buffer : Str
  pub background : Color
  pub foreground : Color

abbrev pub black : Color
black = record { first = 0; second = 0; third = 0 }

abbrev pub white : Color
white = record { first = 255; second = 255; third = 255 }

unfoldable pub new : FrameBufferInfo → Str → VgaColorWriter
new info buffer = record {
  curr_x = 0;
  curr_y = 0;
  max_x = info.width / 8;
  max_y = info.height / 8;
  info = info;
  buffer = buffer;
  background = black;
  foreground = white;
}

-- The number of bytes of a pixel that are written.
unfoldable pub pixels : {S E : Type 0} → PixelFormat → Prog S E ℕ
pixels rgb s = ok 3 s
pixels bgr s = ok 3 s
pixels u8 s = ok 1 s
pixels unknown s = panic

abbrev pub channels : ℕ → Color → List ℕ
channels n color = take n (color.first ∷ color.second ∷ color.third ∷ [])

unfoldable pub set_byte : ℕ → ℕ → Str → Str
set_byte i b [] = []
set_byte zero b (x ∷ xs) = b ∷ xs
set_byte (suc i) b (x ∷ xs) = x ∷ set_byte i b xs

-- `buffer_mut()[i] = b`.
unfoldable pub put : {E : Type 0} → ℕ → ℕ → Prog Str E (Unit {0})
put i b s = if ltb i (length s) then ok tt (set_byte i b s) else panic

-- The loop over the bytes of a pixel.
unfoldable pub put_pixel : {E : Type 0} → ℕ → List ℕ → Prog Str E (Unit {0})
put_pixel i [] = pure tt
put_pixel i (b ∷ bs) = let rest = put_pixel (suc i) bs in do put i b; rest

-- `n` pixels of a row from `i` on; the result is the index behind them.
unfoldable pub fill_row : {E : Type 0} → ℕ → List ℕ → ℕ → ℕ → Prog Str E ℕ
fill_row bpp bytes zero i = pure i
fill_row bpp bytes (suc n) i =
    let rest = fill_row bpp bytes n (i + bpp) in do put_pixel i bytes; rest

-- `n` rows of `w` pixels.
unfoldable pub fill_rows :
    {E : Type 0} → FrameBufferInfo → List ℕ → ℕ → ℕ → ℕ → Prog Str E (Unit {0})
fill_rows info bytes w zero i = pure tt
fill_rows info bytes w (suc n) i = do
  j ← fill_row info.bytes_per_pixel bytes w i
  assert (leb w info.stride)
  fill_rows info bytes w n (j + (info.stride - w) * info.bytes_per_pixel)

-- One row of a character, whose lowest bit is its first pixel.
unfoldable pub splat_bits : {E : Type 0} → ℕ → List ℕ → List ℕ → ℕ → ℕ → ℕ → Prog Str E ℕ
splat_bits bpp on off zero row i = pure i
splat_bits bpp on off (suc n) row i =
    let rest = splat_bits bpp on off n (row / 2) (i + bpp) in
    do put_pixel i (if row % 2 == 1 then on else off); rest

-- The last `n` of the eight rows.
unfoldable pub splat_rows :
    {E : Type 0} → FrameBufferInfo → List ℕ → List ℕ → (ℕ → ℕ) → ℕ → ℕ → Prog Str E (Unit {0})
splat_rows info on off image zero i = pure tt
splat_rows info on off image (suc n) i = do
  j ← splat_bits info.bytes_per_pixel on off 8 (image (8 - suc n)) i
  assert (leb 8 info.stride)
  splat_rows info on off image n (j + (info.stride - 8) * info.bytes_per_pixel)

abbrev pub on_buffer : {E A : Type 0} → Prog Str E A → Prog VgaColorWriter E A
on_buffer = zoom (λ w. w.buffer) (λ b w. record w { buffer = b })

unfoldable pub fill_rect : {E : Type 0} → ℕ → ℕ → ℕ → ℕ → Color → Prog VgaColorWriter E (Unit {0})
fill_rect x y w h color = do
  self ← get
  let index = (y * self.info.stride + x) * 8 * self.info.bytes_per_pixel
  n ← pixels self.info.pixel_format
  on_buffer (fill_rows self.info (channels n color) (w * 8) (h * 8) index)

unfoldable pub clean_row : {E : Type 0} → Prog VgaColorWriter E (Unit {0})
clean_row = do self ← get; fill_rect 0 self.curr_y self.max_x 1 self.background

unfoldable pub clean_screen : {E : Type 0} → Prog VgaColorWriter E (Unit {0})
clean_screen = do
  self ← get
  fill_rect 0 0 self.max_x self.max_y self.background
  modify (λ w. record w { curr_x = 0; curr_y = 0 })

-- The cursor at the start of the next row, or of the first behind the last.
unfoldable pub next_row : VgaColorWriter → VgaColorWriter
next_row w = record w {
  curr_x = 0;
  curr_y = if leb w.max_y (w.curr_y + 1) then 0 else w.curr_y + 1;
}

unfoldable pub new_line : {E : Type 0} → Prog VgaColorWriter E (Unit {0})
new_line = do modify next_row; clean_row

unfoldable pub advance_char : {E : Type 0} → Prog VgaColorWriter E (Unit {0})
advance_char = do
  modify (λ w. record w { curr_x = w.curr_x + 1 })
  self ← get
  if leb self.max_x self.curr_x then new_line else pure tt

-- 0x20 to 0x7e, and the newline.
abbrev pub newline : ℕ
newline = 10

abbrev pub shown : ℕ → ℕ
shown byte = if (leb 0x20 byte && leb byte 0x7e) || (byte == newline) then byte else 63

-- "VGA text initializated\n".
abbrev pub greeting : Str
greeting =
    86 ∷ 71 ∷ 65 ∷ 32 ∷ 116 ∷ 101 ∷ 120 ∷ 116 ∷ 32 ∷ 105 ∷ 110 ∷ 105 ∷ 116 ∷ 105 ∷ 97 ∷ 108 ∷ 105
    ∷ 122 ∷ 97 ∷ 116 ∷ 101 ∷ 100 ∷ 10 ∷ []

-- A writer in the cell of the static.
abbrev pub stored :
    {E : Type 0}
    → Outcome VgaColorWriter E (Unit {0})
    → Outcome (Option VgaColorWriter) E (Unit {0})
stored r = elim r [
  | ok a w ↦ ok tt (some w)
  | err e w ↦ err e (some w)
  | panic ↦ panic
  | hang ↦ hang
]

module _ (font : ℕ → Option (ℕ → ℕ)) where
  unfoldable pub splat_char : {E : Type 0} → ℕ → ℕ → ℕ → Prog VgaColorWriter E (Unit {0})
  splat_char c x y = do
    self ← get
    let begin_pixel = (y * self.info.stride + x) * self.info.bytes_per_pixel
    image ← unwrap (font c)
    n ← pixels self.info.pixel_format
    on_buffer (
        splat_rows self.info (channels n self.foreground) (channels n self.background) image 8
          begin_pixel)

  unfoldable pub write_byte : {E : Type 0} → ℕ → Prog VgaColorWriter E (Unit {0})
  write_byte byte = do
    self ← get
    if byte == newline
        then new_line
        else (do splat_char byte (self.curr_x * 8) (self.curr_y * 8); advance_char)

  unfoldable pub write_string : {E : Type 0} → Str → Prog VgaColorWriter E (Unit {0})
  write_string [] = pure tt
  write_string (byte ∷ bytes) = let rest = write_string bytes in do write_byte (shown byte); rest

  -- The writer that `init_vga_framebuffer` puts into the cell, on the first call.
  unfoldable pub first_writer : {E : Type 0} → Prog VgaColorWriter E (Unit {0})
  first_writer = do clean_screen; write_string greeting

  unfoldable pub init_vga_framebuffer :
      {E : Type 0} → FrameBufferInfo → Str → Prog (Option VgaColorWriter) E (Unit {0})
  init_vga_framebuffer info buffer none = stored (first_writer (new info buffer))
  init_vga_framebuffer info buffer (some w) = panic

  -- `_print` of the pieces that `write_fmt` hands to `write_str` one by one.
  unfoldable pub print_pieces : {E : Type 0} → List Str → Prog VgaColorWriter E (Unit {0})
  print_pieces [] = pure tt
  print_pieces (s ∷ pieces) = let rest = print_pieces pieces in do write_string s; rest

  unfoldable pub print : {E : Type 0} → List Str → Prog (Option VgaColorWriter) E (Unit {0})
  print pieces none = panic
  print pieces (some w) = stored (print_pieces pieces w)
