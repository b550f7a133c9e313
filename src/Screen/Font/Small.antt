-- ===== src/Screen/Font/Small.antt =====
-- font.h: the glyphs of the characters 0x5f to 0x7f, by sevens.
use ofgwrite.Base.{ℕ, List, [], ◌∷◌}

abbrev pub glyphs_5f : List (List ℕ)
glyphs_5f =
    (0x0000 ∷ 0x0000 ∷ 0x0000 ∷ 0x0000 ∷ 0x0000 ∷ 0x0000 ∷ 0x0000 ∷ 0x0000 ∷ 0x0000 ∷ 0x0000
      ∷ 0x0000 ∷ 0x0000 ∷ 0x0000 ∷ 0x0000 ∷ 0x0000 ∷ 0x0000 ∷ 0x7FF8 ∷ 0x7FF8 ∷ [])
    ∷ (0x0000 ∷ 0x0300 ∷ 0x0380 ∷ 0x01C0 ∷ 0x00C0 ∷ 0x0000 ∷ 0x0000 ∷ 0x0000 ∷ 0x0000 ∷ 0x0000
        ∷ 0x0000 ∷ 0x0000 ∷ 0x0000 ∷ 0x0000 ∷ 0x0000 ∷ 0x0000 ∷ 0x0000 ∷ 0x0000 ∷ [])
    ∷ (0x0000 ∷ 0x0000 ∷ 0x0000 ∷ 0x0000 ∷ 0x0000 ∷ 0x1FE0 ∷ 0x3FF0 ∷ 0x3030 ∷ 0x0030 ∷ 0x1FF0
        ∷ 0x3FF0 ∷ 0x7030 ∷ 0x7030 ∷ 0x3FF8 ∷ 0x1F98 ∷ 0x0000 ∷ 0x0000 ∷ 0x0000 ∷ [])
    ∷ (0x0000 ∷ 0x3000 ∷ 0x3000 ∷ 0x3000 ∷ 0x3000 ∷ 0x37C0 ∷ 0x3FE0 ∷ 0x3C70 ∷ 0x3030 ∷ 0x3030
        ∷ 0x3030 ∷ 0x3030 ∷ 0x3060 ∷ 0x3FE0 ∷ 0x3FC0 ∷ 0x0000 ∷ 0x0000 ∷ 0x0000 ∷ [])
    ∷ (0x0000 ∷ 0x0000 ∷ 0x0000 ∷ 0x0000 ∷ 0x0000 ∷ 0x0FC0 ∷ 0x1FE0 ∷ 0x3830 ∷ 0x3000 ∷ 0x3000
        ∷ 0x3000 ∷ 0x3000 ∷ 0x3830 ∷ 0x1FE0 ∷ 0x0FC0 ∷ 0x0000 ∷ 0x0000 ∷ 0x0000 ∷ [])
    ∷ (0x0000 ∷ 0x0030 ∷ 0x0030 ∷ 0x0030 ∷ 0x0030 ∷ 0x0FB0 ∷ 0x1FF0 ∷ 0x1870 ∷ 0x3030 ∷ 0x3030
        ∷ 0x3030 ∷ 0x3030 ∷ 0x3870 ∷ 0x1FF0 ∷ 0x0FB0 ∷ 0x0000 ∷ 0x0000 ∷ 0x0000 ∷ [])
    ∷ (0x0000 ∷ 0x0000 ∷ 0x0000 ∷ 0x0000 ∷ 0x0000 ∷ 0x0FC0 ∷ 0x1FE0 ∷ 0x3870 ∷ 0x3030 ∷ 0x3FF0
        ∷ 0x3FF0 ∷ 0x3000 ∷ 0x3870 ∷ 0x1FE0 ∷ 0x0FC0 ∷ 0x0000 ∷ 0x0000 ∷ 0x0000 ∷ [])
    ∷ []

abbrev pub glyphs_66 : List (List ℕ)
glyphs_66 =
    (0x0000 ∷ 0x01F0 ∷ 0x03F0 ∷ 0x0700 ∷ 0x0600 ∷ 0x0600 ∷ 0x3FE0 ∷ 0x3FE0 ∷ 0x0600 ∷ 0x0600
      ∷ 0x0600 ∷ 0x0600 ∷ 0x0600 ∷ 0x0600 ∷ 0x0600 ∷ 0x0000 ∷ 0x0000 ∷ 0x0000 ∷ [])
    ∷ (0x0000 ∷ 0x0000 ∷ 0x0000 ∷ 0x0000 ∷ 0x0000 ∷ 0x0FB0 ∷ 0x1FF0 ∷ 0x3870 ∷ 0x3030 ∷ 0x3030
        ∷ 0x3030 ∷ 0x3870 ∷ 0x3FF0 ∷ 0x1FF0 ∷ 0x0030 ∷ 0x3070 ∷ 0x3FE0 ∷ 0x1FC0 ∷ [])
    ∷ (0x0000 ∷ 0x3000 ∷ 0x3000 ∷ 0x3000 ∷ 0x3000 ∷ 0x37C0 ∷ 0x3FC0 ∷ 0x3860 ∷ 0x3030 ∷ 0x3030
        ∷ 0x3030 ∷ 0x3030 ∷ 0x3030 ∷ 0x3030 ∷ 0x3030 ∷ 0x0000 ∷ 0x0000 ∷ 0x0000 ∷ [])
    ∷ (0x0000 ∷ 0x0000 ∷ 0x0700 ∷ 0x0700 ∷ 0x0000 ∷ 0x0000 ∷ 0x0700 ∷ 0x0700 ∷ 0x0300 ∷ 0x0300
        ∷ 0x0300 ∷ 0x0300 ∷ 0x0300 ∷ 0x1FE0 ∷ 0x1FE0 ∷ 0x0000 ∷ 0x0000 ∷ 0x0000 ∷ [])
    ∷ (0x0000 ∷ 0x0000 ∷ 0x0070 ∷ 0x0070 ∷ 0x0000 ∷ 0x0000 ∷ 0x00F0 ∷ 0x00F0 ∷ 0x0030 ∷ 0x0030
        ∷ 0x0030 ∷ 0x0030 ∷ 0x0030 ∷ 0x0030 ∷ 0x0030 ∷ 0x3070 ∷ 0x3FE0 ∷ 0x1FC0 ∷ [])
    ∷ (0x0000 ∷ 0x3000 ∷ 0x3000 ∷ 0x3000 ∷ 0x3000 ∷ 0x3070 ∷ 0x30E0 ∷ 0x31C0 ∷ 0x3380 ∷ 0x3F00
        ∷ 0x3F00 ∷ 0x3380 ∷ 0x31C0 ∷ 0x30E0 ∷ 0x3070 ∷ 0x0000 ∷ 0x0000 ∷ 0x0000 ∷ [])
    ∷ (0x0000 ∷ 0x0F00 ∷ 0x0F00 ∷ 0x0300 ∷ 0x0300 ∷ 0x0300 ∷ 0x0300 ∷ 0x0300 ∷ 0x0300 ∷ 0x0300
        ∷ 0x0300 ∷ 0x0300 ∷ 0x0300 ∷ 0x1FE0 ∷ 0x1FE0 ∷ 0x0000 ∷ 0x0000 ∷ 0x0000 ∷ [])
    ∷ []

abbrev pub glyphs_6d : List (List ℕ)
glyphs_6d =
    (0x0000 ∷ 0x0000 ∷ 0x0000 ∷ 0x0000 ∷ 0x0000 ∷ 0x3760 ∷ 0x3FF0 ∷ 0x7398 ∷ 0x6318 ∷ 0x6318
      ∷ 0x6318 ∷ 0x6318 ∷ 0x6318 ∷ 0x6318 ∷ 0x6318 ∷ 0x0000 ∷ 0x0000 ∷ 0x0000 ∷ [])
    ∷ (0x0000 ∷ 0x0000 ∷ 0x0000 ∷ 0x0000 ∷ 0x0000 ∷ 0x37C0 ∷ 0x3FE0 ∷ 0x3070 ∷ 0x3030 ∷ 0x3030
        ∷ 0x3030 ∷ 0x3030 ∷ 0x3030 ∷ 0x3030 ∷ 0x3030 ∷ 0x0000 ∷ 0x0000 ∷ 0x0000 ∷ [])
    ∷ (0x0000 ∷ 0x0000 ∷ 0x0000 ∷ 0x0000 ∷ 0x0000 ∷ 0x0FC0 ∷ 0x1FE0 ∷ 0x3870 ∷ 0x3030 ∷ 0x3030
        ∷ 0x3030 ∷ 0x3030 ∷ 0x1870 ∷ 0x1FE0 ∷ 0x0FC0 ∷ 0x0000 ∷ 0x0000 ∷ 0x0000 ∷ [])
    ∷ (0x0000 ∷ 0x0000 ∷ 0x0000 ∷ 0x0000 ∷ 0x0000 ∷ 0x6FC0 ∷ 0x7FE0 ∷ 0x7070 ∷ 0x6030 ∷ 0x6030
        ∷ 0x6030 ∷ 0x6030 ∷ 0x7070 ∷ 0x7FE0 ∷ 0x6FC0 ∷ 0x6000 ∷ 0x6000 ∷ 0x6000 ∷ [])
    ∷ (0x0000 ∷ 0x0000 ∷ 0x0000 ∷ 0x0000 ∷ 0x0000 ∷ 0x0FB0 ∷ 0x1FF0 ∷ 0x3870 ∷ 0x3030 ∷ 0x3030
        ∷ 0x3030 ∷ 0x3030 ∷ 0x3870 ∷ 0x1FF0 ∷ 0x0FB0 ∷ 0x0030 ∷ 0x0030 ∷ 0x0030 ∷ [])
    ∷ (0x0000 ∷ 0x0000 ∷ 0x0000 ∷ 0x0000 ∷ 0x0000 ∷ 0x37C0 ∷ 0x3FE0 ∷ 0x3860 ∷ 0x3000 ∷ 0x3000
        ∷ 0x3000 ∷ 0x3000 ∷ 0x3000 ∷ 0x3000 ∷ 0x3000 ∷ 0x0000 ∷ 0x0000 ∷ 0x0000 ∷ [])
    ∷ (0x0000 ∷ 0x0000 ∷ 0x0000 ∷ 0x0000 ∷ 0x0FE0 ∷ 0x1FF0 ∷ 0x3830 ∷ 0x3000 ∷ 0x3E00 ∷ 0x1FE0
        ∷ 0x03F0 ∷ 0x0030 ∷ 0x3070 ∷ 0x3FE0 ∷ 0x1FC0 ∷ 0x0000 ∷ 0x0000 ∷ 0x0000 ∷ [])
    ∷ []

abbrev pub glyphs_74 : List (List ℕ)
glyphs_74 =
    (0x0000 ∷ 0x0600 ∷ 0x0600 ∷ 0x0600 ∷ 0x3FE0 ∷ 0x3FE0 ∷ 0x0600 ∷ 0x0600 ∷ 0x0600 ∷ 0x0600
      ∷ 0x0600 ∷ 0x0600 ∷ 0x0700 ∷ 0x07C0 ∷ 0x03C0 ∷ 0x0000 ∷ 0x0000 ∷ 0x0000 ∷ [])
    ∷ (0x0000 ∷ 0x0000 ∷ 0x0000 ∷ 0x0000 ∷ 0x0000 ∷ 0x3030 ∷ 0x3030 ∷ 0x3030 ∷ 0x3030 ∷ 0x3030
        ∷ 0x3030 ∷ 0x3030 ∷ 0x3870 ∷ 0x1FE0 ∷ 0x0FC0 ∷ 0x0000 ∷ 0x0000 ∷ 0x0000 ∷ [])
    ∷ (0x0000 ∷ 0x0000 ∷ 0x0000 ∷ 0x0000 ∷ 0x0000 ∷ 0x3030 ∷ 0x3030 ∷ 0x1860 ∷ 0x1860 ∷ 0x0CC0
        ∷ 0x0CC0 ∷ 0x0780 ∷ 0x0780 ∷ 0x0300 ∷ 0x0300 ∷ 0x0000 ∷ 0x0000 ∷ 0x0000 ∷ [])
    ∷ (0x0000 ∷ 0x0000 ∷ 0x0000 ∷ 0x0000 ∷ 0x0000 ∷ 0x6018 ∷ 0x6018 ∷ 0x6018 ∷ 0x6018 ∷ 0x6018
        ∷ 0x6318 ∷ 0x6318 ∷ 0x37B0 ∷ 0x3CF0 ∷ 0x1860 ∷ 0x0000 ∷ 0x0000 ∷ 0x0000 ∷ [])
    ∷ (0x0000 ∷ 0x0000 ∷ 0x0000 ∷ 0x0000 ∷ 0x0000 ∷ 0x3030 ∷ 0x3870 ∷ 0x1CE0 ∷ 0x0FC0 ∷ 0x0780
        ∷ 0x0780 ∷ 0x0FC0 ∷ 0x1CE0 ∷ 0x3870 ∷ 0x3030 ∷ 0x0000 ∷ 0x0000 ∷ 0x0000 ∷ [])
    ∷ (0x0000 ∷ 0x0000 ∷ 0x0000 ∷ 0x0000 ∷ 0x0000 ∷ 0x7038 ∷ 0x7038 ∷ 0x3830 ∷ 0x1870 ∷ 0x1C60
        ∷ 0x0C60 ∷ 0x0EE0 ∷ 0x06C0 ∷ 0x07C0 ∷ 0x0380 ∷ 0x0300 ∷ 0x0F00 ∷ 0x0E00 ∷ [])
    ∷ (0x0000 ∷ 0x0000 ∷ 0x0000 ∷ 0x0000 ∷ 0x0000 ∷ 0x3FF0 ∷ 0x3FF0 ∷ 0x00E0 ∷ 0x01C0 ∷ 0x0380
        ∷ 0x0700 ∷ 0x0E00 ∷ 0x1C00 ∷ 0x3FF0 ∷ 0x3FF0 ∷ 0x0000 ∷ 0x0000 ∷ 0x0000 ∷ [])
    ∷ []

abbrev pub glyphs_7b : List (List ℕ)
glyphs_7b =
    (0x01E0 ∷ 0x03E0 ∷ 0x0300 ∷ 0x0300 ∷ 0x0300 ∷ 0x0300 ∷ 0x0300 ∷ 0x0300 ∷ 0x0600 ∷ 0x0600
      ∷ 0x0300 ∷ 0x0300 ∷ 0x0300 ∷ 0x0300 ∷ 0x0300 ∷ 0x0300 ∷ 0x03E0 ∷ 0x01E0 ∷ [])
    ∷ (0x0000 ∷ 0x0300 ∷ 0x0300 ∷ 0x0300 ∷ 0x0300 ∷ 0x0300 ∷ 0x0300 ∷ 0x0000 ∷ 0x0000 ∷ 0x0300
        ∷ 0x0300 ∷ 0x0300 ∷ 0x0300 ∷ 0x0300 ∷ 0x0300 ∷ 0x0000 ∷ 0x0000 ∷ 0x0000 ∷ [])
    ∷ (0x1C00 ∷ 0x1E00 ∷ 0x0600 ∷ 0x0600 ∷ 0x0600 ∷ 0x0600 ∷ 0x0600 ∷ 0x0600 ∷ 0x0300 ∷ 0x0300
        ∷ 0x0600 ∷ 0x0600 ∷ 0x0600 ∷ 0x0600 ∷ 0x0600 ∷ 0x0600 ∷ 0x1E00 ∷ 0x1C00 ∷ [])
    ∷ (0x0E00 ∷ 0x1F0C ∷ 0x3B9C ∷ 0x71F8 ∷ 0x60F0 ∷ 0x0060 ∷ 0x0000 ∷ 0x0000 ∷ 0x0000 ∷ 0x0000
        ∷ 0x0000 ∷ 0x0000 ∷ 0x0000 ∷ 0x0000 ∷ 0x0000 ∷ 0x0000 ∷ 0x0000 ∷ 0x0000 ∷ [])
    ∷ (0x0000 ∷ 0x7FF8 ∷ 0x7FF8 ∷ 0x7FF8 ∷ 0x7FF8 ∷ 0x7FF8 ∷ 0x7FF8 ∷ 0x7FF8 ∷ 0x7FF8 ∷ 0x7FF8
        ∷ 0x7FF8 ∷ 0x7FF8 ∷ 0x7FF8 ∷ 0x7FF8 ∷ 0x7FF8 ∷ 0x0000 ∷ 0x0000 ∷ 0x0000 ∷ [])
    ∷ []
