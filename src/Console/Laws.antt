-- ===== src/Console/Laws.antt =====
-- What idker/src/vga_framebuffer.rs makes of a text, and its set-up.
use native.Mathlib.Nat.{mul-add-div_right, div-eq_of_lt}
use idkernel.Base.{
  ℕ, suc, ◌*◌, ◌/◌, ◌%◌, ◌≤◌, ◌<◌, ◌≡◌, ◌≢◌, refl, ◌∙◌, sym, ap, Bool, true, false, Option, none,
  some, [], ◌∷◌, length, Str, ◌==◌, if◌then◌else◌, ok, Prog, ◌>>◌, arith, Completes, bind-Completes,
  pure-Completes, unwrap-Completes, map-Completes, step-Completes, get-Completes,
}
use idkernel.Console.Cursor.{
  Showing, cell_after, HasAscii, advance_char-Showing, clean_screen-Showing, new_line-Showing,
  Painted-Showing,
}
use idkernel.Console.{
  FrameBufferInfo, unknown, stored, VgaColorWriter, new_line, advance_char, shown, newline,
  first_writer, greeting, init_vga_framebuffer, new, splat_char, write_byte, write_string,
}
use idkernel.Console.Painting.{depth, OnScreen, pixels-Completes, splat_rows-Painted}

module _ (cols rows : ℕ) where
  module _ (font : ℕ → Option (ℕ → ℕ)) (ascii : HasAscii font) where
    splat_char-Showing :
        {E : Type 0} (byte c : ℕ) (w : VgaColorWriter)
        → byte < 128
        → Showing cols rows c w
        → Completes {E = E}
            (λ _ t. Showing cols rows c t)
            w
            (splat_char font byte (w.curr_x * 8) (w.curr_y * 8))
    unfolding splat_char
    splat_char-Showing byte c w h s =
        let (image, found) = ascii byte h in
        map-Completes
          (step-Completes get-Completes λ self e1.
            step-Completes (unwrap-Completes (font byte) image found (refl, refl)) λ picture e2.
              step-Completes
                (pixels-Completes self.info.pixel_format w (rw e1 s.valid.on_screen.known))
                λ n e3.
                  splat_rows-Painted w s.valid.on_screen picture self n s.valid.in_row
                    s.valid.in_column e1 e3)
          (λ _ t painted. Painted-Showing cols rows c w t painted s)

    -- One byte that the font has or that ends the line.
    written :
        {E : Type 0} (byte c : ℕ) (w self : VgaColorWriter)
        → byte < 128
        → Showing cols rows c w
        → self ≡ w
        → Completes {E = E}
            (λ _ t.
              Showing cols rows
                ((if byte == newline then suc (c / cols) * cols else suc c) % (rows * cols))
                t)
            w
            (if byte == newline
              then new_line
              else (do splat_char font byte (self.curr_x * 8) (self.curr_y * 8); advance_char))
    written {E} byte c w self h s e = rw e (go (byte == newline))
      where
        short : w.curr_x < cols
        short = omega (arith, s.valid.in_row, s.columns)

        row : c / cols ≡ w.curr_y
        row =
            ap (λ n. n / cols) (sym s.cell)
            ∙ mul-add-div_right (omega (arith, s.valid.in_row, s.columns)) w.curr_y w.curr_x
            ∙ omega (arith, div-eq_of_lt short)

        go :
            (b : Bool)
            → Completes {E = E}
                (λ _ t.
                  Showing cols rows
                    ((if b then suc (c / cols) * cols else suc c) % (rows * cols))
                    t)
                w
                (if b
                  then new_line
                  else (do splat_char font byte (w.curr_x * 8) (w.curr_y * 8); advance_char))
        go true = rw row (
            new_line-Showing cols rows w s.valid.on_screen s.columns s.lines
              (omega (arith, s.valid.in_row, s.columns))
              (omega (arith, s.valid.in_column, s.lines)))
        go false =
            bind-Completes (splat_char-Showing byte c w h s)
              λ _ t s'. advance_char-Showing cols rows c t s'

    write_byte-Showing :
        {E : Type 0} (byte c : ℕ) (w : VgaColorWriter)
        → byte < 128
        → Showing cols rows c w
        → Completes {E = E}
            (λ _ t.
              Showing cols rows
                ((if byte == newline then suc (c / cols) * cols else suc c) % (rows * cols))
                t)
            w
            (write_byte font byte)
    unfolding write_byte
    write_byte-Showing byte c w h s =
        step-Completes get-Completes λ self e. written byte c w self h s e

    shown-small : (byte : ℕ) → shown byte < 128
    shown-small byte = ground arith

    shown-newline : (byte : ℕ) → (shown byte == newline) ≡ (byte == newline)
    shown-newline byte = ground arith

    -- On a frame buffer as large as its description says, of a known format with at least as many
    -- bytes in a pixel as are written, with a font of the 128 characters of ASCII and with the
    -- cursor on the screen, writing any text ends without a panic and keeps all this; the cursor is
    -- then on the cell that is found by counting cells row by row: a newline goes on to the next
    -- row, any other byte to the next cell, and the last cell is followed by the first.
    pub write_string-Showing :
        {E : Type 0} (text : Str) (c : ℕ) (w : VgaColorWriter)
        → Showing cols rows c w
        → Completes {E = E}
            (λ _ t. Showing cols rows (cell_after cols rows c text) t)
            w
            (write_string font text)
    unfolding write_string
    write_string-Showing [] c w s = pure-Completes tt s
    write_string-Showing (byte ∷ text) c w s =
        bind-Completes (write_byte-Showing (shown byte) c w (shown-small byte) s)
          λ _ t s'. write_string-Showing text _ t (rw (sym (shown-newline byte)) s')

-- A frame buffer as its description says, with room for one character.
pub record Fitting (info : FrameBufferInfo) (buffer : Str) : Type 0 where
  pub narrow : info.width ≤ info.stride
  pub known : info.pixel_format ≢ unknown
  pub whole : depth info.pixel_format ≤ info.bytes_per_pixel
  pub full : info.height * (info.stride * info.bytes_per_pixel) ≤ length buffer
  pub some_column : 0 < info.width / 8
  pub some_row : 0 < info.height / 8

new-OnScreen :
    (info : FrameBufferInfo) (buffer : Str) → Fitting info buffer → OnScreen (new info buffer)
unfolding new
new-OnScreen info buffer f = record {
  columns = refl;
  rows = refl;
  narrow = f.narrow;
  known = f.known;
  whole = f.whole;
  full = f.full;
}

new_size :
    (info : FrameBufferInfo) (buffer : Str)
    → ((new info buffer).max_x ≡ info.width / 8) × ((new info buffer).max_y ≡ info.height / 8)
unfolding new
new_size info buffer = (refl, refl)

-- The cell holds a writer as described.
abbrev pub Holds : (VgaColorWriter → Type 0) → Option VgaColorWriter → Type 0
Holds P o = (w : VgaColorWriter) × (o ≡ some w) × P w

stored-ok :
    {E : Type 0} {P : VgaColorWriter → Type 0} {w : VgaColorWriter}
    {m : Prog VgaColorWriter E (Unit {0})}
    → Completes (λ _ t. P t) w m
    → (t : Option VgaColorWriter) × (stored (m w) ≡ ok tt t) × Holds P t
stored-ok h = (some h.after, ground (arith, h.ends), (h.after, refl, h.holds))

module _ (font : ℕ → Option (ℕ → ℕ)) (ascii : HasAscii font) (info : FrameBufferInfo) (buffer : Str)
    (fits : Fitting info buffer) where
  abbrev cols : ℕ
  cols = info.width / 8

  abbrev rows : ℕ
  rows = info.height / 8

  first_writer-Showing :
      {E : Type 0}
      → Completes {E = E}
          (λ _ t. Showing cols rows (cell_after cols rows 0 greeting) t)
          (new info buffer)
          (first_writer font)
  unfolding first_writer
  first_writer-Showing =
      let (columns, lines) = new_size info buffer in
      bind-Completes
        (clean_screen-Showing cols rows (new info buffer) (new-OnScreen info buffer fits) columns
          lines fits.some_column fits.some_row)
        λ _ t s. write_string-Showing cols rows font ascii greeting 0 t s

  -- For a frame buffer as large as its description says, of a known format with at least as many
  -- bytes in a pixel as are written and with room for a character, and a font of the 128 characters
  -- of ASCII, the first set-up ends without a panic and stores a writer whose cursor is on the cell
  -- behind the greeting.
  pub init_vga_framebuffer_lem :
      {E : Type 0}
      → Completes {E = E}
          (λ _ t. Holds (Showing cols rows (cell_after cols rows 0 greeting)) t)
          none
          (init_vga_framebuffer font info buffer)
  unfolding init_vga_framebuffer
  init_vga_framebuffer_lem =
      let (t, ends, holds) = stored-ok first_writer-Showing in
      record { result = tt; after = t; ends = ends; holds = holds }
