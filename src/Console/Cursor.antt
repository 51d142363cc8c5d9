-- ===== src/Console/Cursor.antt =====
-- The cursor of idker/src/vga_framebuffer.rs as one number.
use native.Mathlib.Nat.{suc-mul, zero-mul, mul-le-mul_right, mod-eq_of_lt, mod_self}
use idkernel.Base.{
  ℕ, suc, ◌+◌, ◌*◌, ◌/◌, ◌%◌, ◌≤◌, ◌<◌, ◌≡◌, refl, ◌∙◌, sym, ap, subst, Bool, true, false, Option,
  some, [], ◌∷◌, Str, leb, ◌==◌, Bool-cases, inl, inr, if◌then◌else◌, pure, arith, Completes,
  bind-Completes, pure-Completes, map-Completes, modify-Completes, step-Completes, get-Completes,
  modify_bind-Completes,
}
use idkernel.Console.{
  VgaColorWriter, next_row, new_line, advance_char, newline, clean_screen, fill_rect,
}
use idkernel.Console.Painting.{
  OnScreen, IsValid, Painted, fill_rect-Painted, Painted-OnScreen, new_line-Painted,
  next_row-OnScreen, next_row_inside,
}

-- A writer of `cols` columns and `rows` rows with its cursor on cell `c`, counted row by row.
pub record Showing (cols rows c : ℕ) (w : VgaColorWriter) : Type 0 where
  pub valid : IsValid w
  pub columns : w.max_x ≡ cols
  pub lines : w.max_y ≡ rows
  pub cell : w.curr_y * cols + w.curr_x ≡ c

-- The cell behind a text: a newline goes on to the next row, anything else to the next cell, and
-- the last cell is followed by the first.
abbrev pub cell_after : ℕ → ℕ → ℕ → Str → ℕ
cell_after cols rows c [] = c
cell_after cols rows c (byte ∷ text) =
    let next = if byte == newline then suc (c / cols) * cols else suc c in
    cell_after cols rows (next % (rows * cols)) text

wrapped :
    (y cols rows : ℕ)
    → y < rows
    → 0 < cols
    → (if leb rows (y + 1) then 0 else y + 1) * cols ≡ suc y * cols % (rows * cols)
wrapped y cols rows h positive = elim (Bool-cases (leb rows (y + 1))) [
  | inl last ↦
      let same : suc y ≡ rows = ground (arith, last) in
      rw (last, same) (zero-mul cols ∙ sym (mod_self (rows * cols)))
  | inr inside ↦
      let below : suc (suc y) ≤ rows = ground (arith, inside) in
      let fits : suc y * cols < rows * cols =
        omega (arith, mul-le-mul_right cols below, suc-mul (suc y) cols) in
      rw inside (ap (λ n. n * cols) (omega arith) ∙ sym (mod-eq_of_lt fits))
]

pub Painted-Showing :
    (cols rows c : ℕ) (w t : VgaColorWriter)
    → Painted w t
    → Showing cols rows c w
    → Showing cols rows c t
Painted-Showing cols rows c w t (b, e, same) s = subst (Showing cols rows c) (sym same) (record {
  valid = record {
    on_screen = Painted-OnScreen w b e s.valid.on_screen;
    in_row = s.valid.in_row;
    in_column = s.valid.in_column;
  };
  columns = s.columns;
  lines = s.lines;
  cell = s.cell;
})

next_row-Showing :
    (cols rows : ℕ) (w : VgaColorWriter)
    → OnScreen w
    → w.max_x ≡ cols
    → w.max_y ≡ rows
    → 0 < cols
    → w.curr_y < rows
    → Showing cols rows (suc w.curr_y * cols % (rows * cols)) (next_row w)
unfolding next_row
next_row-Showing cols rows w v columns lines positive h = record {
  valid = record {
    on_screen = next_row-OnScreen w v;
    in_row = omega (arith, columns, positive);
    in_column = next_row_inside w (omega (arith, lines, h));
  };
  columns = columns;
  lines = lines;
  cell = omega (arith, at_start);
}
  where
    at_start :
        (if leb w.max_y (w.curr_y + 1) then 0 else w.curr_y + 1) * cols
        ≡ suc w.curr_y * cols % (rows * cols)
    at_start = rw lines (wrapped w.curr_y cols rows h positive)

-- A font with the 128 characters of ASCII.
abbrev pub HasAscii : (ℕ → Option (ℕ → ℕ)) → Type 0
HasAscii font = (c : ℕ) → c < 128 → (image : ℕ → ℕ) × (font c ≡ some image)

module _ (cols rows : ℕ) where
  pub new_line-Showing :
      {E : Type 0} (w : VgaColorWriter)
      → OnScreen w
      → w.max_x ≡ cols
      → w.max_y ≡ rows
      → 0 < cols
      → w.curr_y < rows
      → Completes {E = E}
          (λ _ t. Showing cols rows (suc w.curr_y * cols % (rows * cols)) t)
          w
          new_line
  new_line-Showing w v columns lines positive h =
      map-Completes (new_line-Painted w v (omega (arith, lines, h))) λ _ t painted.
        Painted-Showing cols rows (suc w.curr_y * cols % (rows * cols)) (next_row w) t painted
          (next_row-Showing cols rows w v columns lines positive h)

  moved-OnScreen :
      (w : VgaColorWriter) (x y : ℕ) → OnScreen w → OnScreen (record w { curr_x = x; curr_y = y })
  moved-OnScreen w x y v = record {
    columns = v.columns;
    rows = v.rows;
    narrow = v.narrow;
    known = v.known;
    whole = v.whole;
    full = v.full;
  }

  -- At the edge the cursor goes on to the next row, before it to the next cell.
  at_edge :
      {E : Type 0} (c : ℕ) (w self : VgaColorWriter)
      → Showing cols rows c w
      → self ≡ record w { curr_x = w.curr_x + 1 }
      → Completes {E = E}
          (λ _ t. Showing cols rows (suc c % (rows * cols)) t)
          (record w { curr_x = w.curr_x + 1 })
          (if leb self.max_x self.curr_x then new_line else pure tt)
  at_edge {E} c w self s e = rw e (go (leb w.max_x (w.curr_x + 1)) refl)
    where
      on_screen : OnScreen (record w { curr_x = w.curr_x + 1 })
      on_screen = moved-OnScreen w (w.curr_x + 1) w.curr_y s.valid.on_screen

      inside : w.curr_y < rows
      inside = omega (arith, s.valid.in_column, s.lines)

      positive : 0 < cols
      positive = omega (arith, s.valid.in_row, s.columns)

      go :
          (b : Bool)
          → leb w.max_x (w.curr_x + 1) ≡ b
          → Completes {E = E}
              (λ _ t. Showing cols rows (suc c % (rows * cols)) t)
              (record w { curr_x = w.curr_x + 1 })
              (if b then new_line else pure tt)
      go true edge =
          let next : suc w.curr_y * cols ≡ suc c =
            ground (arith, edge, s.cell, s.columns, s.valid.in_row, suc-mul w.curr_y cols) in
          subst
            (λ n.
              Completes {E = E} (λ _ t. Showing cols rows (n % (rows * cols)) t)
                (record w { curr_x = w.curr_x + 1 }) new_line)
            next
            (new_line-Showing (record w { curr_x = w.curr_x + 1 }) on_screen s.columns s.lines
              positive inside)
      go false within =
          let short : suc w.curr_x < w.max_x = ground (arith, within) in
          let fits : suc w.curr_y * cols ≤ rows * cols = mul-le-mul_right cols inside in
          let below : suc c < rows * cols =
            omega (arith, short, s.cell, s.columns, fits, suc-mul w.curr_y cols) in
          pure-Completes tt (record {
            valid = record {
              on_screen = on_screen;
              in_row = omega (arith, short);
              in_column = s.valid.in_column;
            };
            columns = s.columns;
            lines = s.lines;
            cell = omega (arith, s.cell, mod-eq_of_lt below);
          })

  pub advance_char-Showing :
      {E : Type 0} (c : ℕ) (w : VgaColorWriter)
      → Showing cols rows c w
      → Completes {E = E} (λ _ t. Showing cols rows (suc c % (rows * cols)) t) w advance_char
  unfolding advance_char
  advance_char-Showing c w s =
      modify_bind-Completes (λ (x : VgaColorWriter). record x { curr_x = x.curr_x + 1 })
        λ _. step-Completes get-Completes λ self e. at_edge c w self s e

  -- The screen filled, whatever the cursor was.
  screen_filled :
      {E : Type 0} (w self : VgaColorWriter)
      → OnScreen w
      → self ≡ w
      → Completes {E = E}
          (λ _ t. Painted w t)
          w
          (fill_rect 0 0 self.max_x self.max_y self.background)
  screen_filled w self v e = rw e (fill_rect-Painted w v 0 w.max_y w.background (omega arith))

  pub clean_screen-Showing :
      {E : Type 0} (w : VgaColorWriter)
      → OnScreen w
      → w.max_x ≡ cols
      → w.max_y ≡ rows
      → 0 < cols
      → 0 < rows
      → Completes {E = E} (λ _ t. Showing cols rows 0 t) w clean_screen
  unfolding clean_screen
  clean_screen-Showing w v columns lines some_column some_row =
      step-Completes get-Completes λ self e.
        bind-Completes (screen_filled w self v e) λ _ t painted.
          modify-Completes (λ (x : VgaColorWriter). record x { curr_x = 0; curr_y = 0 })
            (let same = painted.2 in
              record {
                valid = record {
                  on_screen =
                      moved-OnScreen t 0 0
                        (subst OnScreen (sym same) (Painted-OnScreen w painted.0 painted.1 v));
                  in_row =
                      omega
                        (arith, columns, some_column, ap (λ (x : VgaColorWriter). x.max_x) same);
                  in_column =
                      omega (arith, lines, some_row, ap (λ (x : VgaColorWriter). x.max_y) same);
                };
                columns = ap (λ (x : VgaColorWriter). x.max_x) same ∙ columns;
                lines = ap (λ (x : VgaColorWriter). x.max_y) same ∙ lines;
                cell = omega arith;
              })
