-- ===== src/Screen/Text/Inside.antt =====
-- A text that ends in front of the screen's edge is painted inside of the mapping.
use ofgwrite.Base.{ℕ, zero, suc, ◌+◌, ◌-◌, ◌*◌, ◌/◌, ◌%◌, ◌≤◌, ◌<◌, ◌≡◌, Bool, true, false, Option}
use ofgwrite.Base.{none, some, List, [], ◌∷◌, ◌==◌, All, All-append, all-All, length}
use ofgwrite.Base.{refl, arith, if◌then◌else◌, ltb, leb, ◌&&◌, all}
use ofgwrite.Base.Text.{Bytes}
use ofgwrite.Screen.{Screen, Color, Pixel, pixel_at, add}
use ofgwrite.Screen.Inside.{IsInside, IsUsable, IsShown, line-fits, le-mul}
use ofgwrite.Screen.Font.{font, glyph, nth}
use ofgwrite.Screen.Text.{scale, dot, dots, render_row, render_rows, render_char, render_string}
use ofgwrite.Screen.Text.{joined}

-- Every character of the table has 18 rows.
rows_of_font : All (λ g. (length g == 18) ≡ true) font
rows_of_font = all-All (λ g. length g == 18) font refl

nth-All :
    (P : List ℕ → Type 0) (gs : List (List ℕ)) (n : ℕ)
    → All P gs
    → n < length gs
    → (g : List ℕ) × (nth gs n ≡ some g) × P g
nth-All P [] n hs h = absurd (omega (arith, h))
nth-All P (g ∷ gs) zero hs h = (g, refl, hs.0)
nth-All P (g ∷ gs) (suc n) hs h = nth-All P gs n hs.1 (omega (arith, h))

eighteen : (n : ℕ) → (n == 18) ≡ true → n ≡ 18
eighteen n h = ground arith

not_below : (a b : ℕ) → b ≤ a → ltb a b ≡ false
not_below a b h = ground arith

-- A character that can be printed.
abbrev pub IsPrintable : ℕ → Type 0
IsPrintable ch = (32 ≤ ch) × (ch < 128)

pub IsPrintable-all :
    (str : Bytes) → all (λ ch. leb 32 ch && ltb ch 128) str ≡ true → All IsPrintable str
IsPrintable-all [] h = tt
IsPrintable-all (ch ∷ str) h = (printable ch (ground arith), IsPrintable-all str (ground arith))
  where
    printable : (ch : ℕ) → (leb 32 ch && ltb ch 128) ≡ true → IsPrintable ch
    printable ch e = (ground arith, ground arith)

pub glyph_of_printable :
    (ch : ℕ) → IsPrintable ch → (g : List ℕ) × (glyph ch ≡ some g) × (length g ≡ 18)
unfolding glyph
glyph_of_printable ch (low, high) =
    let (g, e, n) =
      nth-All (λ g. (length g == 18) ≡ true) font (ch - 32) rows_of_font
        (omega (arith, low, high)) in
    (g, rw (not_below ch 32 low) e, eighteen (length g) n)

abbrev pub Drawn : (Pixel → Type 0) → Option (List Pixel) → Type 0
Drawn P none = ⊥
Drawn P (some pixels) = All P pixels

module _ (s : Screen) (usable : IsUsable s) (shown : IsShown s) where
  dot-inside :
      (x y j k : ℕ) → x + k < s.xres → y + j < s.yres → dot s (pixel_at s x y) j k + 4 ≤ s.map_len
  dot-inside x y j k hx hy =
      let l = s.line_length in
      let b = y + j + s.yoffset in
      let row : b * l + l ≤ s.map_len =
        line-fits b (s.yoffset + s.yres) l s.map_len (omega (arith, hy)) shown in
      let column : (x + k + s.xoffset) * 4 + 4 ≤ l = omega (arith, usable.columns, hx) in
      let small : b ≤ b * l = le-mul b l (omega (arith, column)) in
      let split : b * l ≡ (y + s.yoffset) * l + j * l = omega arith in
      let no_wrap : (y + s.yoffset) % 4294967296 ≡ y + s.yoffset =
        omega (arith, small, row, column, usable.small) in
      let no_wrap' : (x + s.xoffset) % 4294967296 ≡ x + s.xoffset =
        omega (arith, row, column, usable.small) in
      rw (no_wrap, no_wrap') (omega (arith, row, column, split, usable.small))

  dots-IsInside :
      (color : Color) (thick : Bool) (x y h w : ℕ)
      → x + 14 * scale thick ≤ s.xres
      → y + 18 * scale thick ≤ s.yres
      → h < 18
      → w < 14
      → All (IsInside s) (dots s color thick (pixel_at s x y) h w)
  dots-IsInside color false x y h w hx hy hh hw =
      (dot-inside x y h w (omega arith) (omega arith), tt)
  dots-IsInside color true x y h w hx hy hh hw = (
    dot-inside x y (2 * h) (2 * w) (omega arith) (omega arith),
    (
      dot-inside x y (2 * h) (2 * w + 1) (omega arith) (omega arith),
      (
        dot-inside x y (2 * h + 1) (2 * w) (omega arith) (omega arith),
        (dot-inside x y (2 * h + 1) (2 * w + 1) (omega arith) (omega arith), tt),
      ),
    ),
  )

  module _ (color : Color) (thick : Bool) (y : ℕ) (high : y + 18 * scale thick ≤ s.yres) where
    module _ (x : ℕ) (wide : x + 14 * scale thick ≤ s.xres) where
      if-IsInside :
          (b : Bool) (h w : ℕ)
          → h < 18
          → w < 14
          → All (IsInside s) (if b then dots s color thick (pixel_at s x y) h w else [])
      if-IsInside true h w hh hw = dots-IsInside color thick x y h w wide high hh hw
      if-IsInside false h w hh hw = tt

      render_row-IsInside :
          (h w line : ℕ)
          → h < 18
          → w ≤ 14
          → All (IsInside s) (render_row s color thick (pixel_at s x y) h w line)
      unfolding render_row
      render_row-IsInside h zero line hh hw = tt
      render_row-IsInside h (suc w) line hh hw =
          All-append (IsInside s)
            (if line % 2 == 1 then dots s color thick (pixel_at s x y) h w else []) _
            (if-IsInside (line % 2 == 1) h w hh (omega (arith, hw)))
            (render_row-IsInside h w (line / 2) hh (omega (arith, hw)))

      render_rows-IsInside :
          (h : ℕ) (rows : List ℕ)
          → h + length rows ≤ 18
          → All (IsInside s) (render_rows s color thick (pixel_at s x y) h rows)
      unfolding render_rows
      render_rows-IsInside h [] hh = tt
      render_rows-IsInside h (row ∷ rows) hh =
          All-append (IsInside s) (render_row s color thick (pixel_at s x y) h 14 (row / 4)) _
            (render_row-IsInside h 14 (row / 4) (omega (arith, hh)) (omega arith))
            (render_rows-IsInside (h + 1) rows (omega (arith, hh)))

      render_char-IsInside :
          (ch : ℕ) → IsPrintable ch → Drawn (IsInside s) (render_char s ch x y color thick)
      unfolding render_char
      render_char-IsInside ch printable =
          let (g, e, n) = glyph_of_printable ch printable in
          rw e (render_rows-IsInside 0 g (omega (arith, n)))

    -- A text of printable characters that ends in front of the right edge of the screen is painted, and
    -- every dot of it lies inside of the mapping; on a usable screen that has the characters' lines.
    pub render_string-IsInside :
        (str : Bytes) (x : ℕ)
        → All IsPrintable str
        → x + length str * (14 * scale thick) ≤ s.xres
        → Drawn (IsInside s) (render_string s str x y color thick)
    unfolding render_string
    render_string-IsInside [] x printable hx = tt
    render_string-IsInside (ch ∷ str) x printable hx =
        let width = 14 * scale thick in
        let next : (x + width) % 4294967296 ≡ x + width = omega (arith, hx, usable.width) in
        join (render_char s ch x y color thick)
          (render_string s str (add x (14 * scale thick)) y color thick)
          (render_char-IsInside x (omega (arith, hx)) ch printable.0)
          (rw next (render_string-IsInside str (x + width) printable.1 (omega (arith, hx))))
      where
        join :
            (a b : Option (List Pixel))
            → Drawn (IsInside s) a
            → Drawn (IsInside s) b
            → Drawn (IsInside s) (joined a b)
        join (some a) (some b) ha hb = All-append (IsInside s) a b ha hb
        join (some a) none ha hb = hb
        join none b ha hb = ha
