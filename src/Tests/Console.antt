-- ===== src/Tests/Console.antt =====
-- Runs of the console on a grey screen of two rows of two characters.
use idkernel.Base.{ℕ, ◌≢◌, refl, Option, some, [], ◌∷◌, replicate, Str, arith, subst, Completes}
use idkernel.Console.{
  FrameBufferInfo, PixelFormat, u8, unknown, VgaColorWriter, black, white, write_string,
}
use idkernel.Console.Cursor.{Showing, HasAscii}
use idkernel.Console.Laws.{Fitting, write_string-Showing}

-- All characters are blocks.
abbrev font : ℕ → Option (ℕ → ℕ)
font c = some (λ row. 255)

font-HasAscii : HasAscii font
font-HasAscii c h = (λ row. 255, refl)

abbrev info : FrameBufferInfo
info = record { width = 16; height = 16; stride = 16; bytes_per_pixel = 1; pixel_format = u8 }

abbrev buffer : Str
buffer = replicate 256 0

IsGrey : PixelFormat → Type 0
IsGrey u8 = Unit {0}
IsGrey _ = ⊥

u8-known : ◌≢◌ {A = PixelFormat} u8 unknown
unfolding IsGrey
u8-known e = subst IsGrey e tt

-- The cursor on the last of the four cells.
abbrev writer : VgaColorWriter
writer = record {
  curr_x = 1;
  curr_y = 1;
  max_x = 2;
  max_y = 2;
  info = info;
  buffer = buffer;
  background = black;
  foreground = white;
}

writer-Showing : Showing 2 2 3 writer
writer-Showing = record {
  valid = record {
    on_screen = record {
      columns = refl;
      rows = refl;
      narrow = omega arith;
      known = u8-known;
      whole = omega arith;
      full = omega arith;
    };
    in_row = omega arith;
    in_column = omega arith;
  };
  columns = refl;
  lines = refl;
  cell = refl;
}

-- Three characters from the last cell: the second goes on at the first one.
write_string-Showing_example :
    Completes {E = ⊥} (λ _ t. Showing 2 2 2 t) writer (write_string font (72 ∷ 105 ∷ 33 ∷ []))
write_string-Showing_example =
    write_string-Showing 2 2 font font-HasAscii (72 ∷ 105 ∷ 33 ∷ []) 3 writer writer-Showing

info-Fitting : Fitting info buffer
info-Fitting = record {
  narrow = omega arith;
  known = u8-known;
  whole = omega arith;
  full = omega arith;
  some_column = omega arith;
  some_row = omega arith;
}
