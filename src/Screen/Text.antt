-- ===== src/Screen/Text.antt =====
-- fb.c: the painting of texts. A character is 18 rows of 14 dots, and twice that where it is thick.
pub mod Inside
pub mod Bits
use mathlib.Core.Option
use ofgwrite.Base.{ℕ, zero, suc, ◌+◌, ◌*◌, ◌/◌, ◌%◌, Bool, true, false, Option, none, some, List}
use ofgwrite.Base.{[], ◌∷◌, ◌++◌, if◌then◌else◌, ◌==◌}
use ofgwrite.Base.Text.{Bytes}
use ofgwrite.Screen.{Screen, Color, Pixel, add, pixel_at}
use ofgwrite.Screen.Font.{glyph}

abbrev pub scale : Bool → ℕ
scale thick = if thick then 2 else 1

-- `g_lfb[pos + j * line_length + k * 4]`
abbrev pub dot : Screen → ℕ → ℕ → ℕ → ℕ
dot s pos j k = add (add pos (j * s.line_length)) (k * 4)

-- The pixel of row `h` and column `w`, or the four.
abbrev pub dots : Screen → Color → Bool → ℕ → ℕ → ℕ → List Pixel
dots s color false pos h w = (dot s pos h w, color) ∷ []
dots s color true pos h w =
    (dot s pos (2 * h) (2 * w), color)
    ∷ (dot s pos (2 * h) (2 * w + 1), color)
    ∷ (dot s pos (2 * h + 1) (2 * w), color)
    ∷ (dot s pos (2 * h + 1) (2 * w + 1), color)
    ∷ []

-- From the last of the columns to the first; the lowest bit of `line` is the last one's.
unfoldable pub render_row : Screen → Color → Bool → ℕ → ℕ → ℕ → ℕ → List Pixel
render_row s color thick pos h zero line = []
render_row s color thick pos h (suc w) line =
    (if line % 2 == 1 then dots s color thick pos h w else [])
    ++ render_row s color thick pos h w (line / 2)

unfoldable pub render_rows : Screen → Color → Bool → ℕ → ℕ → List ℕ → List Pixel
unfolding render_row
render_rows s color thick pos h [] = []
render_rows s color thick pos h (row ∷ rows) =
    render_row s color thick pos h 14 (row / 4) ++ render_rows s color thick pos (h + 1) rows

unfoldable pub render_char : Screen → ℕ → ℕ → ℕ → Color → Bool → Option (List Pixel)
unfolding render_rows glyph
render_char s ch x y color thick =
    Option.map (render_rows s color thick (pixel_at s x y) 0) (glyph ch)

abbrev pub joined : Option (List Pixel) → Option (List Pixel) → Option (List Pixel)
joined none _ = none
joined (some a) none = none
joined (some a) (some b) = some (a ++ b)

-- The characters from the place `x` on.
unfoldable pub render_string : Screen → Bytes → ℕ → ℕ → Color → Bool → Option (List Pixel)
unfolding render_char
render_string s [] x y color thick = some []
render_string s (ch ∷ str) x y color thick =
    joined (render_char s ch x y color thick)
      (render_string s str (add x (14 * scale thick)) y color thick)
