-- ===== src/Screen/Font/Marks.antt =====
-- font.h: the glyphs of the characters 0x20 to 0x3b, by sevens.
use ofgwrite.Base.{ℕ, List, [], ◌∷◌}

abbrev pub glyphs_20 : List (List ℕ)
glyphs_20 =
    (0x0000 ∷ 0x0000 ∷ 0x0000 ∷ 0x0000 ∷ 0x0000 ∷ 0x0000 ∷ 0x0000 ∷ 0x0000 ∷ 0x0000 ∷ 0x0000
      ∷ 0x0000 ∷ 0x0000 ∷ 0x0000 ∷ 0x0000 ∷ 0x0000 ∷ 0x0000 ∷ 0x0000 ∷ 0x0000 ∷ [])
    ∷ (0x0000 ∷ 0x0300 ∷ 0x0300 ∷ 0x0300 ∷ 0x0300 ∷ 0x0300 ∷ 0x0300 ∷ 0x0300 ∷ 0x0300 ∷ 0x0300
        ∷ 0x0300 ∷ 0x0000 ∷ 0x0000 ∷ 0x0300 ∷ 0x0300 ∷ 0x0000 ∷ 0x0000 ∷ 0x0000 ∷ [])
    ∷ (0x0000 ∷ 0x0CC0 ∷ 0x0CC0 ∷ 0x0440 ∷ 0x0880 ∷ 0x0000 ∷ 0x0000 ∷ 0x0000 ∷ 0x0000 ∷ 0x0000
        ∷ 0x0000 ∷ 0x0000 ∷ 0x0000 ∷ 0x0000 ∷ 0x0000 ∷ 0x0000 ∷ 0x0000 ∷ 0x0000 ∷ [])
    ∷ (0x0000 ∷ 0x0CC0 ∷ 0x0CC0 ∷ 0x0CC0 ∷ 0x0CC0 ∷ 0x3FF0 ∷ 0x3FF0 ∷ 0x0CC0 ∷ 0x0CC0 ∷ 0x0CC0
        ∷ 0x3FF0 ∷ 0x3FF0 ∷ 0x0CC0 ∷ 0x0CC0 ∷ 0x0CC0 ∷ 0x0CC0 ∷ 0x0000 ∷ 0x0000 ∷ [])
    ∷ (0x0000 ∷ 0x6018 ∷ 0x7038 ∷ 0x3870 ∷ 0x1CE0 ∷ 0x0FC0 ∷ 0x1FE0 ∷ 0x3030 ∷ 0x3030 ∷ 0x3030
        ∷ 0x3030 ∷ 0x1FE0 ∷ 0x0FC0 ∷ 0x1CE0 ∷ 0x3870 ∷ 0x7038 ∷ 0x6018 ∷ 0x0000 ∷ [])
    ∷ (0x0000 ∷ 0x1800 ∷ 0x3C18 ∷ 0x6638 ∷ 0x6670 ∷ 0x3CE0 ∷ 0x19C0 ∷ 0x0380 ∷ 0x0700 ∷ 0x0E60
        ∷ 0x1CF0 ∷ 0x3998 ∷ 0x7198 ∷ 0x60F0 ∷ 0x0060 ∷ 0x0000 ∷ 0x0000 ∷ 0x0000 ∷ [])
    ∷ (0x0000 ∷ 0x0380 ∷ 0x07C0 ∷ 0x0C60 ∷ 0x0C60 ∷ 0x06C0 ∷ 0x0380 ∷ 0x0F80 ∷ 0x1CD8 ∷ 0x3078
        ∷ 0x3070 ∷ 0x3060 ∷ 0x18F0 ∷ 0x1FD8 ∷ 0x0718 ∷ 0x0000 ∷ 0x0000 ∷ 0x0000 ∷ [])
    ∷ []

abbrev pub glyphs_27 : List (List ℕ)
glyphs_27 =
    (0x0000 ∷ 0x0300 ∷ 0x0300 ∷ 0x0100 ∷ 0x0200 ∷ 0x0000 ∷ 0x0000 ∷ 0x0000 ∷ 0x0000 ∷ 0x0000
      ∷ 0x0000 ∷ 0x0000 ∷ 0x0000 ∷ 0x0000 ∷ 0x0000 ∷ 0x0000 ∷ 0x0000 ∷ 0x0000 ∷ [])
    ∷ (0x0000 ∷ 0x0180 ∷ 0x0300 ∷ 0x0600 ∷ 0x0600 ∷ 0x0C00 ∷ 0x0C00 ∷ 0x0C00 ∷ 0x0C00 ∷ 0x0C00
        ∷ 0x0C00 ∷ 0x0600 ∷ 0x0600 ∷ 0x0300 ∷ 0x0180 ∷ 0x0000 ∷ 0x0000 ∷ 0x0000 ∷ [])
    ∷ (0x0000 ∷ 0x0600 ∷ 0x0300 ∷ 0x0180 ∷ 0x0180 ∷ 0x00C0 ∷ 0x00C0 ∷ 0x00C0 ∷ 0x00C0 ∷ 0x00C0
        ∷ 0x00C0 ∷ 0x0180 ∷ 0x0180 ∷ 0x0300 ∷ 0x0600 ∷ 0x0000 ∷ 0x0000 ∷ 0x0000 ∷ [])
    ∷ (0x0000 ∷ 0x0000 ∷ 0x0000 ∷ 0x0000 ∷ 0x0000 ∷ 0x1240 ∷ 0x0A80 ∷ 0x0700 ∷ 0x1FC0 ∷ 0x0700
        ∷ 0x0A80 ∷ 0x1240 ∷ 0x0000 ∷ 0x0000 ∷ 0x0000 ∷ 0x0000 ∷ 0x0000 ∷ 0x0000 ∷ [])
    ∷ (0x0000 ∷ 0x0000 ∷ 0x0000 ∷ 0x0000 ∷ 0x0000 ∷ 0x0300 ∷ 0x0300 ∷ 0x0300 ∷ 0x1FE0 ∷ 0x1FE0
        ∷ 0x0300 ∷ 0x0300 ∷ 0x0300 ∷ 0x0000 ∷ 0x0000 ∷ 0x0000 ∷ 0x0000 ∷ 0x0000 ∷ [])
    ∷ (0x0000 ∷ 0x0000 ∷ 0x0000 ∷ 0x0000 ∷ 0x0000 ∷ 0x0000 ∷ 0x0000 ∷ 0x0000 ∷ 0x0000 ∷ 0x0000
        ∷ 0x0000 ∷ 0x0000 ∷ 0x0000 ∷ 0x0300 ∷ 0x0300 ∷ 0x0100 ∷ 0x0200 ∷ 0x0000 ∷ [])
    ∷ (0x0000 ∷ 0x0000 ∷ 0x0000 ∷ 0x0000 ∷ 0x0000 ∷ 0x0000 ∷ 0x0000 ∷ 0x0000 ∷ 0x1FE0 ∷ 0x1FE0
        ∷ 0x0000 ∷ 0x0000 ∷ 0x0000 ∷ 0x0000 ∷ 0x0000 ∷ 0x0000 ∷ 0x0000 ∷ 0x0000 ∷ [])
    ∷ []

abbrev pub glyphs_2e : List (List ℕ)
glyphs_2e =
    (0x0000 ∷ 0x0000 ∷ 0x0000 ∷ 0x0000 ∷ 0x0000 ∷ 0x0000 ∷ 0x0000 ∷ 0x0000 ∷ 0x0000 ∷ 0x0000
      ∷ 0x0000 ∷ 0x0000 ∷ 0x0000 ∷ 0x0300 ∷ 0x0300 ∷ 0x0000 ∷ 0x0000 ∷ 0x0000 ∷ [])
    ∷ (0x0000 ∷ 0x0000 ∷ 0x0060 ∷ 0x0060 ∷ 0x00C0 ∷ 0x00C0 ∷ 0x0180 ∷ 0x0180 ∷ 0x0300 ∷ 0x0300
        ∷ 0x0600 ∷ 0x0E00 ∷ 0x0C00 ∷ 0x1800 ∷ 0x1800 ∷ 0x0000 ∷ 0x0000 ∷ 0x0000 ∷ [])
    ∷ (0x0000 ∷ 0x0FC0 ∷ 0x1FE0 ∷ 0x3870 ∷ 0x3030 ∷ 0x3030 ∷ 0x3030 ∷ 0x3030 ∷ 0x3030 ∷ 0x3030
        ∷ 0x3030 ∷ 0x3030 ∷ 0x3870 ∷ 0x1FE0 ∷ 0x0FC0 ∷ 0x0000 ∷ 0x0000 ∷ 0x0000 ∷ [])
    ∷ (0x0000 ∷ 0x0180 ∷ 0x0380 ∷ 0x0780 ∷ 0x0F80 ∷ 0x1F80 ∷ 0x3B80 ∷ 0x7380 ∷ 0x6380 ∷ 0x0380
        ∷ 0x0380 ∷ 0x0380 ∷ 0x0380 ∷ 0x0380 ∷ 0x0380 ∷ 0x0000 ∷ 0x0000 ∷ 0x0000 ∷ [])
    ∷ (0x0000 ∷ 0x0780 ∷ 0x0FC0 ∷ 0x18E0 ∷ 0x3060 ∷ 0x3030 ∷ 0x0030 ∷ 0x0070 ∷ 0x00E0 ∷ 0x01C0
        ∷ 0x0380 ∷ 0x0E00 ∷ 0x1C00 ∷ 0x3FF0 ∷ 0x3FF0 ∷ 0x0000 ∷ 0x0000 ∷ 0x0000 ∷ [])
    ∷ (0x0000 ∷ 0x0FC0 ∷ 0x3FE0 ∷ 0x3030 ∷ 0x0030 ∷ 0x0030 ∷ 0x0060 ∷ 0x07C0 ∷ 0x07C0 ∷ 0x0060
        ∷ 0x0030 ∷ 0x0030 ∷ 0x3030 ∷ 0x3FE0 ∷ 0x0FC0 ∷ 0x0000 ∷ 0x0000 ∷ 0x0000 ∷ [])
    ∷ (0x0000 ∷ 0x0020 ∷ 0x0060 ∷ 0x00E0 ∷ 0x01E0 ∷ 0x0360 ∷ 0x0660 ∷ 0x0C60 ∷ 0x1860 ∷ 0x3060
        ∷ 0x3FF8 ∷ 0x3FF8 ∷ 0x0060 ∷ 0x0060 ∷ 0x0060 ∷ 0x0000 ∷ 0x0000 ∷ 0x0000 ∷ [])
    ∷ []

abbrev pub glyphs_35 : List (List ℕ)
glyphs_35 =
    (0x0000 ∷ 0x3FE0 ∷ 0x3FE0 ∷ 0x3000 ∷ 0x3000 ∷ 0x3000 ∷ 0x3F80 ∷ 0x3FC0 ∷ 0x0060 ∷ 0x0060
      ∷ 0x0060 ∷ 0x0060 ∷ 0x30C0 ∷ 0x3F80 ∷ 0x1F00 ∷ 0x0000 ∷ 0x0000 ∷ 0x0000 ∷ [])
    ∷ (0x0000 ∷ 0x07C0 ∷ 0x1FE0 ∷ 0x1870 ∷ 0x3030 ∷ 0x3000 ∷ 0x3000 ∷ 0x37C0 ∷ 0x3FE0 ∷ 0x3870
        ∷ 0x3030 ∷ 0x3030 ∷ 0x3870 ∷ 0x1FE0 ∷ 0x0FC0 ∷ 0x0000 ∷ 0x0000 ∷ 0x0000 ∷ [])
    ∷ (0x0000 ∷ 0x3FE0 ∷ 0x3FE0 ∷ 0x0060 ∷ 0x0060 ∷ 0x00C0 ∷ 0x00C0 ∷ 0x0180 ∷ 0x0180 ∷ 0x0380
        ∷ 0x0300 ∷ 0x0700 ∷ 0x0600 ∷ 0x0E00 ∷ 0x0E00 ∷ 0x0000 ∷ 0x0000 ∷ 0x0000 ∷ [])
    ∷ (0x0000 ∷ 0x0780 ∷ 0x0FC0 ∷ 0x1CE0 ∷ 0x1860 ∷ 0x1860 ∷ 0x0CC0 ∷ 0x0FC0 ∷ 0x1FE0 ∷ 0x3870
        ∷ 0x3030 ∷ 0x3030 ∷ 0x3870 ∷ 0x1FE0 ∷ 0x0FC0 ∷ 0x0000 ∷ 0x0000 ∷ 0x0000 ∷ [])
    ∷ (0x0000 ∷ 0x0FC0 ∷ 0x1FE0 ∷ 0x3870 ∷ 0x3030 ∷ 0x3030 ∷ 0x3870 ∷ 0x1FF0 ∷ 0x0FB0 ∷ 0x0030
        ∷ 0x0030 ∷ 0x3030 ∷ 0x3870 ∷ 0x1FE0 ∷ 0x0FC0 ∷ 0x0000 ∷ 0x0000 ∷ 0x0000 ∷ [])
    ∷ (0x0000 ∷ 0x0000 ∷ 0x0000 ∷ 0x0000 ∷ 0x0000 ∷ 0x0000 ∷ 0x0000 ∷ 0x0000 ∷ 0x0300 ∷ 0x0300
        ∷ 0x0000 ∷ 0x0000 ∷ 0x0300 ∷ 0x0300 ∷ 0x0000 ∷ 0x0000 ∷ 0x0000 ∷ 0x0000 ∷ [])
    ∷ (0x0000 ∷ 0x0000 ∷ 0x0000 ∷ 0x0000 ∷ 0x0000 ∷ 0x0000 ∷ 0x0000 ∷ 0x0000 ∷ 0x0000 ∷ 0x0300
        ∷ 0x0300 ∷ 0x0000 ∷ 0x0000 ∷ 0x0300 ∷ 0x0300 ∷ 0x0100 ∷ 0x0200 ∷ 0x0000 ∷ [])
    ∷ []
