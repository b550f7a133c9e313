-- ===== src/Screen/Font.antt =====
-- font.h: the table of the glyphs, and how `render_char` reads it.
mod Marks
mod Capitals
mod Small
use ofgwrite.Base.{ℕ, zero, suc, ◌-◌, Option, none, some, List, [], ◌∷◌, ◌++◌, if◌then◌else◌, ltb}
use Marks.{glyphs_20, glyphs_27, glyphs_2e, glyphs_35}
use Capitals.{glyphs_3c, glyphs_43, glyphs_4a, glyphs_51, glyphs_58}
use Small.{glyphs_5f, glyphs_66, glyphs_6d, glyphs_74, glyphs_7b}

-- The rows of the characters 0x20 to 0x7f.
abbrev pub font : List (List ℕ)
font =
    glyphs_20 ++ glyphs_27 ++ glyphs_2e ++ glyphs_35 ++ glyphs_3c ++ glyphs_43 ++ glyphs_4a
    ++ glyphs_51 ++ glyphs_58 ++ glyphs_5f ++ glyphs_66 ++ glyphs_6d ++ glyphs_74 ++ glyphs_7b

abbrev pub nth {ℓ} : {A : Type ℓ} → List A → ℕ → Option A
nth [] n = none
nth (x ∷ xs) zero = some x
nth (x ∷ xs) (suc n) = nth xs n

-- `font[ch-0x20]`; `none` is a read outside of the table.
unfoldable pub glyph : ℕ → Option (List ℕ)
glyph ch = if ltb ch 0x20 then none else nth font (ch - 0x20)
