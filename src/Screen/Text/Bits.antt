-- ===== src/Screen/Text/Bits.antt =====
-- `render_char` paints the dots of the character's bits.
use ofgwrite.Base.{
  ℕ, zero, suc, ◌+◌, ◌-◌, ◌*◌, ◌/◌, ◌%◌, ◌^◌, ◌≤◌, ◌≡◌, Bool, Option, none, some, List, [],
}
use ofgwrite.Base.{◌∷◌, ◌++◌, ◌==◌, if◌then◌else◌, refl, ap, arith}
use mathlib.Core.Option
use native.Mathlib.Nat.{div-div-eq-div-mul, pow-suc}
use ofgwrite.Screen.{Screen, Color, Pixel, pixel_at}
use ofgwrite.Screen.Font.{glyph}
use ofgwrite.Screen.Text.{dots, render_row, render_rows, render_char}

-- The 16 bits of a row are numbered from the left.
abbrev pub has_dot : ℕ → ℕ → Bool
has_dot row column = row / 2 ^ (15 - column) % 2 == 1

-- The dots of the first columns of a row, from the right, and those of the rows.
unfoldable pub row_dots : (ℕ → ℕ → List Pixel) → ℕ → ℕ → ℕ → List Pixel
row_dots paint row h zero = []
row_dots paint row h (suc column) =
    (if has_dot row column then paint h column else []) ++ row_dots paint row h column

unfoldable pub char_dots : (ℕ → ℕ → List Pixel) → ℕ → List ℕ → List Pixel
unfolding row_dots
char_dots paint h [] = []
char_dots paint h (row ∷ rows) = row_dots paint row h 14 ++ char_dots paint (h + 1) rows

halved : (row k k' : ℕ) → k' ≡ suc k → row / 2 ^ k / 2 ≡ row / 2 ^ k'
halved row k k' e =
    let power : 2 ^ k' ≡ 2 ^ k * 2 = rw e (pow-suc 2 k) in
    rw power (div-div-eq-div-mul row (2 ^ k) 2)

module _ (s : Screen) (color : Color) (thick : Bool) (pos : ℕ) where
  render_row-bits :
      (h row n : ℕ)
      → n ≤ 14
      → render_row s color thick pos h n (row / 2 ^ (16 - n))
        ≡ row_dots (dots s color thick pos) row h n
  unfolding render_row row_dots
  render_row-bits h row zero m = refl
  render_row-bits h row (suc n) m =
      let shift : 16 - suc n ≡ 15 - n = omega arith in
      let next : row / 2 ^ (15 - n) / 2 ≡ row / 2 ^ (16 - n) =
        halved row (15 - n) (16 - n) (omega (arith, m)) in
      rw (shift, next, render_row-bits h row n (omega (arith, m))) refl

  render_rows-bits :
      (h : ℕ) (rows : List ℕ)
      → render_rows s color thick pos h rows ≡ char_dots (dots s color thick pos) h rows
  unfolding render_rows char_dots
  render_rows-bits h [] = refl
  render_rows-bits h (row ∷ rows) =
      rw (render_row-bits h row 14 (omega arith), render_rows-bits (h + 1) rows) refl

-- A character is painted as the dots of its rows in the table: a dot of a row is painted where the bit of
-- the row with the column's number, counted from the left, is set, for the first 14 columns.
pub render_char-bits :
    (s : Screen) (ch x y : ℕ) (color : Color) (thick : Bool)
    → render_char s ch x y color thick
      ≡ Option.map (char_dots (dots s color thick (pixel_at s x y)) 0) (glyph ch)
unfolding render_char
render_char-bits s ch x y color thick = go (glyph ch)
  where
    go :
        (g : Option (List ℕ))
        → Option.map (render_rows s color thick (pixel_at s x y) 0) g
          ≡ Option.map (char_dots (dots s color thick (pixel_at s x y)) 0) g
    go none = refl
    go (some rows) = ap some (render_rows-bits s color thick (pixel_at s x y) 0 rows)
