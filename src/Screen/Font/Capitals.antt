-- ===== src/Screen/Font/Capitals.antt =====
-- font.h: the glyphs of the characters 0x3c to 0x5e, by sevens.
use ofgwrite.Base.{ℕ, List, [], ◌∷◌}

abbrev pub glyphs_3c : List (List ℕ)
glyphs_3c =
    (0x0000 ∷ 0x0000 ∷ 0x0000 ∷ 0x0000 ∷ 0x0030 ∷ 0x00E0 ∷ 0x0380 ∷ 0x0E00 ∷ 0x3800 ∷ 0x0E00
      ∷ 0x0380 ∷ 0x00E0 ∷ 0x0030 ∷ 0x0000 ∷ 0x0000 ∷ 0x0000 ∷ 0x0000 ∷ 0x0000 ∷ [])
    ∷ (0x0000 ∷ 0x0000 ∷ 0x0000 ∷ 0x0000 ∷ 0x0000 ∷ 0x0000 ∷ 0x3FF0 ∷ 0x3FF0 ∷ 0x0000 ∷ 0x0000
        ∷ 0x3FF0 ∷ 0x3FF0 ∷ 0x0000 ∷ 0x0000 ∷ 0x0000 ∷ 0x0000 ∷ 0x0000 ∷ 0x0000 ∷ [])
    ∷ (0x0000 ∷ 0x0000 ∷ 0x0000 ∷ 0x0000 ∷ 0x3000 ∷ 0x1C00 ∷ 0x0700 ∷ 0x01C0 ∷ 0x0070 ∷ 0x01C0
        ∷ 0x0700 ∷ 0x1C00 ∷ 0x3000 ∷ 0x0000 ∷ 0x0000 ∷ 0x0000 ∷ 0x0000 ∷ 0x0000 ∷ [])
    ∷ (0x0000 ∷ 0x0FC0 ∷ 0x1FE0 ∷ 0x3860 ∷ 0x3030 ∷ 0x0030 ∷ 0x0030 ∷ 0x0060 ∷ 0x01E0 ∷ 0x0380
        ∷ 0x0300 ∷ 0x0300 ∷ 0x0000 ∷ 0x0000 ∷ 0x0300 ∷ 0x0300 ∷ 0x0000 ∷ 0x0000 ∷ [])
    ∷ (0x0000 ∷ 0x0000 ∷ 0x0000 ∷ 0x0000 ∷ 0x0000 ∷ 0x07C0 ∷ 0x1FF0 ∷ 0x3838 ∷ 0x3018 ∷ 0x63C8
        ∷ 0x6668 ∷ 0x6428 ∷ 0x6668 ∷ 0x33F0 ∷ 0x3000 ∷ 0x1FE0 ∷ 0x0FE0 ∷ 0x0000 ∷ [])
    ∷ (0x0000 ∷ 0x0300 ∷ 0x0780 ∷ 0x0780 ∷ 0x0CC0 ∷ 0x0CC0 ∷ 0x0860 ∷ 0x1860 ∷ 0x1860 ∷ 0x1860
        ∷ 0x3FF0 ∷ 0x3FF0 ∷ 0x3030 ∷ 0x7038 ∷ 0x6018 ∷ 0x0000 ∷ 0x0000 ∷ 0x0000 ∷ [])
    ∷ (0x0000 ∷ 0x3F80 ∷ 0x3FC0 ∷ 0x30E0 ∷ 0x3060 ∷ 0x3060 ∷ 0x30C0 ∷ 0x3FE0 ∷ 0x3FE0 ∷ 0x3070
        ∷ 0x3030 ∷ 0x3030 ∷ 0x3030 ∷ 0x3FE0 ∷ 0x3FE0 ∷ 0x0000 ∷ 0x0000 ∷ 0x0000 ∷ [])
    ∷ []

abbrev pub glyphs_43 : List (List ℕ)
glyphs_43 =
    (0x0000 ∷ 0x0FC0 ∷ 0x1FE0 ∷ 0x3870 ∷ 0x3030 ∷ 0x6000 ∷ 0x6000 ∷ 0x6000 ∷ 0x6000 ∷ 0x6000
      ∷ 0x6000 ∷ 0x3030 ∷ 0x3870 ∷ 0x1FE0 ∷ 0x0FC0 ∷ 0x0000 ∷ 0x0000 ∷ 0x0000 ∷ [])
    ∷ (0x0000 ∷ 0x3FC0 ∷ 0x3FE0 ∷ 0x3060 ∷ 0x3030 ∷ 0x3030 ∷ 0x3018 ∷ 0x3018 ∷ 0x3018 ∷ 0x3018
        ∷ 0x3018 ∷ 0x3018 ∷ 0x3030 ∷ 0x3FF0 ∷ 0x3FE0 ∷ 0x0000 ∷ 0x0000 ∷ 0x0000 ∷ [])
    ∷ (0x0000 ∷ 0x3FF0 ∷ 0x3FF0 ∷ 0x3000 ∷ 0x3000 ∷ 0x3000 ∷ 0x3000 ∷ 0x3FC0 ∷ 0x3FC0 ∷ 0x3000
        ∷ 0x3000 ∷ 0x3000 ∷ 0x3000 ∷ 0x3FF0 ∷ 0x3FF0 ∷ 0x0000 ∷ 0x0000 ∷ 0x0000 ∷ [])
    ∷ (0x0000 ∷ 0x3FF0 ∷ 0x3FF0 ∷ 0x3000 ∷ 0x3000 ∷ 0x3000 ∷ 0x3000 ∷ 0x3FC0 ∷ 0x3FC0 ∷ 0x3000
        ∷ 0x3000 ∷ 0x3000 ∷ 0x3000 ∷ 0x3000 ∷ 0x3000 ∷ 0x0000 ∷ 0x0000 ∷ 0x0000 ∷ [])
    ∷ (0x0000 ∷ 0x0FE0 ∷ 0x1FF0 ∷ 0x1838 ∷ 0x3018 ∷ 0x3018 ∷ 0x3000 ∷ 0x3000 ∷ 0x31F8 ∷ 0x31F8
        ∷ 0x3018 ∷ 0x3018 ∷ 0x1830 ∷ 0x1FF0 ∷ 0x0FE0 ∷ 0x0000 ∷ 0x0000 ∷ 0x0000 ∷ [])
    ∷ (0x0000 ∷ 0x3030 ∷ 0x3030 ∷ 0x3030 ∷ 0x3030 ∷ 0x3030 ∷ 0x3030 ∷ 0x3FF0 ∷ 0x3FF0 ∷ 0x3030
        ∷ 0x3030 ∷ 0x3030 ∷ 0x3030 ∷ 0x3030 ∷ 0x3030 ∷ 0x0000 ∷ 0x0000 ∷ 0x0000 ∷ [])
    ∷ (0x0000 ∷ 0x3FF0 ∷ 0x3FF0 ∷ 0x0300 ∷ 0x0300 ∷ 0x0300 ∷ 0x0300 ∷ 0x0300 ∷ 0x0300 ∷ 0x0300
        ∷ 0x0300 ∷ 0x0300 ∷ 0x0300 ∷ 0x3FF0 ∷ 0x3FF0 ∷ 0x0000 ∷ 0x0000 ∷ 0x0000 ∷ [])
    ∷ []

abbrev pub glyphs_4a : List (List ℕ)
glyphs_4a =
    (0x0000 ∷ 0x0030 ∷ 0x0030 ∷ 0x0030 ∷ 0x0030 ∷ 0x0030 ∷ 0x0030 ∷ 0x0030 ∷ 0x0030 ∷ 0x0030
      ∷ 0x3030 ∷ 0x3030 ∷ 0x3860 ∷ 0x1FE0 ∷ 0x0FC0 ∷ 0x0000 ∷ 0x0000 ∷ 0x0000 ∷ [])
    ∷ (0x0000 ∷ 0x3030 ∷ 0x3070 ∷ 0x30E0 ∷ 0x31C0 ∷ 0x3380 ∷ 0x3F00 ∷ 0x3E00 ∷ 0x3E00 ∷ 0x3F00
        ∷ 0x3380 ∷ 0x31C0 ∷ 0x30E0 ∷ 0x3070 ∷ 0x3030 ∷ 0x0000 ∷ 0x0000 ∷ 0x0000 ∷ [])
    ∷ (0x0000 ∷ 0x3000 ∷ 0x3000 ∷ 0x3000 ∷ 0x3000 ∷ 0x3000 ∷ 0x3000 ∷ 0x3000 ∷ 0x3000 ∷ 0x3000
        ∷ 0x3000 ∷ 0x3000 ∷ 0x3000 ∷ 0x3FF0 ∷ 0x3FF0 ∷ 0x0000 ∷ 0x0000 ∷ 0x0000 ∷ [])
    ∷ (0x0000 ∷ 0x6018 ∷ 0x7038 ∷ 0x7878 ∷ 0x7CF8 ∷ 0x6FD8 ∷ 0x6798 ∷ 0x6318 ∷ 0x6018 ∷ 0x6018
        ∷ 0x6018 ∷ 0x6018 ∷ 0x6018 ∷ 0x6018 ∷ 0x6018 ∷ 0x0000 ∷ 0x0000 ∷ 0x0000 ∷ [])
    ∷ (0x0000 ∷ 0x3030 ∷ 0x3830 ∷ 0x3C30 ∷ 0x3C30 ∷ 0x3630 ∷ 0x3630 ∷ 0x3330 ∷ 0x3330 ∷ 0x3330
        ∷ 0x31B0 ∷ 0x31B0 ∷ 0x30F0 ∷ 0x30F0 ∷ 0x3070 ∷ 0x0000 ∷ 0x0000 ∷ 0x0000 ∷ [])
    ∷ (0x0000 ∷ 0x0FC0 ∷ 0x1FE0 ∷ 0x1860 ∷ 0x3030 ∷ 0x3030 ∷ 0x3030 ∷ 0x3030 ∷ 0x3030 ∷ 0x3030
        ∷ 0x3030 ∷ 0x3030 ∷ 0x1860 ∷ 0x1FE0 ∷ 0x0FC0 ∷ 0x0000 ∷ 0x0000 ∷ 0x0000 ∷ [])
    ∷ (0x0000 ∷ 0x3F80 ∷ 0x3FE0 ∷ 0x3060 ∷ 0x3030 ∷ 0x3030 ∷ 0x3030 ∷ 0x3070 ∷ 0x3FE0 ∷ 0x3FC0
        ∷ 0x3000 ∷ 0x3000 ∷ 0x3000 ∷ 0x3000 ∷ 0x3000 ∷ 0x0000 ∷ 0x0000 ∷ 0x0000 ∷ [])
    ∷ []

abbrev pub glyphs_51 : List (List ℕ)
glyphs_51 =
    (0x0000 ∷ 0x0FC0 ∷ 0x1FE0 ∷ 0x3870 ∷ 0x3030 ∷ 0x3030 ∷ 0x3030 ∷ 0x3030 ∷ 0x3030 ∷ 0x3030
      ∷ 0x3130 ∷ 0x31B0 ∷ 0x38E0 ∷ 0x1FE0 ∷ 0x0FE0 ∷ 0x0030 ∷ 0x0010 ∷ 0x0000 ∷ [])
    ∷ (0x0000 ∷ 0x3F80 ∷ 0x3FE0 ∷ 0x3060 ∷ 0x3030 ∷ 0x3030 ∷ 0x3030 ∷ 0x3070 ∷ 0x3FE0 ∷ 0x3FC0
        ∷ 0x3180 ∷ 0x30C0 ∷ 0x30E0 ∷ 0x3060 ∷ 0x3060 ∷ 0x0000 ∷ 0x0000 ∷ 0x0000 ∷ [])
    ∷ (0x0000 ∷ 0x0FF0 ∷ 0x1FF8 ∷ 0x3818 ∷ 0x3000 ∷ 0x3000 ∷ 0x3800 ∷ 0x1FE0 ∷ 0x0FF0 ∷ 0x0038
        ∷ 0x0018 ∷ 0x0018 ∷ 0x3030 ∷ 0x3FF0 ∷ 0x1FE0 ∷ 0x0000 ∷ 0x0000 ∷ 0x0000 ∷ [])
    ∷ (0x0000 ∷ 0x3FF0 ∷ 0x3FF0 ∷ 0x0300 ∷ 0x0300 ∷ 0x0300 ∷ 0x0300 ∷ 0x0300 ∷ 0x0300 ∷ 0x0300
        ∷ 0x0300 ∷ 0x0300 ∷ 0x0300 ∷ 0x0300 ∷ 0x0300 ∷ 0x0000 ∷ 0x0000 ∷ 0x0000 ∷ [])
    ∷ (0x0000 ∷ 0x3030 ∷ 0x3030 ∷ 0x3030 ∷ 0x3030 ∷ 0x3030 ∷ 0x3030 ∷ 0x3030 ∷ 0x3030 ∷ 0x3030
        ∷ 0x3030 ∷ 0x3030 ∷ 0x3870 ∷ 0x1FE0 ∷ 0x0FC0 ∷ 0x0000 ∷ 0x0000 ∷ 0x0000 ∷ [])
    ∷ (0x0000 ∷ 0x6018 ∷ 0x6018 ∷ 0x3030 ∷ 0x3030 ∷ 0x3030 ∷ 0x1020 ∷ 0x1860 ∷ 0x1860 ∷ 0x1860
        ∷ 0x0CC0 ∷ 0x0CC0 ∷ 0x0780 ∷ 0x0780 ∷ 0x0300 ∷ 0x0000 ∷ 0x0000 ∷ 0x0000 ∷ [])
    ∷ (0x0000 ∷ 0x6018 ∷ 0x6018 ∷ 0x6018 ∷ 0x6018 ∷ 0x3030 ∷ 0x3330 ∷ 0x3330 ∷ 0x3330 ∷ 0x37B0
        ∷ 0x37B0 ∷ 0x3CF0 ∷ 0x1CE0 ∷ 0x1860 ∷ 0x1860 ∷ 0x0000 ∷ 0x0000 ∷ 0x0000 ∷ [])
    ∷ []

abbrev pub glyphs_58 : List (List ℕ)
glyphs_58 =
    (0x0000 ∷ 0x4008 ∷ 0x6018 ∷ 0x7038 ∷ 0x3870 ∷ 0x1CE0 ∷ 0x0FC0 ∷ 0x0780 ∷ 0x0780 ∷ 0x0FC0
      ∷ 0x1CE0 ∷ 0x3870 ∷ 0x7038 ∷ 0x6018 ∷ 0x4008 ∷ 0x0000 ∷ 0x0000 ∷ 0x0000 ∷ [])
    ∷ (0x0000 ∷ 0x6018 ∷ 0x6018 ∷ 0x3030 ∷ 0x3030 ∷ 0x3870 ∷ 0x1860 ∷ 0x0CC0 ∷ 0x0FC0 ∷ 0x0780
        ∷ 0x0300 ∷ 0x0300 ∷ 0x0300 ∷ 0x0300 ∷ 0x0300 ∷ 0x0000 ∷ 0x0000 ∷ 0x0000 ∷ [])
    ∷ (0x0000 ∷ 0x3FF8 ∷ 0x3FF8 ∷ 0x0018 ∷ 0x0030 ∷ 0x0060 ∷ 0x00C0 ∷ 0x0180 ∷ 0x0300 ∷ 0x0600
        ∷ 0x0C00 ∷ 0x1800 ∷ 0x3000 ∷ 0x3FF8 ∷ 0x3FF8 ∷ 0x0000 ∷ 0x0000 ∷ 0x0000 ∷ [])
    ∷ (0x03E0 ∷ 0x03E0 ∷ 0x0300 ∷ 0x0300 ∷ 0x0300 ∷ 0x0300 ∷ 0x0300 ∷ 0x0300 ∷ 0x0300 ∷ 0x0300
        ∷ 0x0300 ∷ 0x0300 ∷ 0x0300 ∷ 0x0300 ∷ 0x0300 ∷ 0x03E0 ∷ 0x03E0 ∷ 0x0000 ∷ [])
    ∷ (0x0000 ∷ 0x3000 ∷ 0x3800 ∷ 0x1800 ∷ 0x1C00 ∷ 0x0E00 ∷ 0x0600 ∷ 0x0700 ∷ 0x0380 ∷ 0x0180
        ∷ 0x01C0 ∷ 0x00E0 ∷ 0x0060 ∷ 0x0070 ∷ 0x0030 ∷ 0x0000 ∷ 0x0000 ∷ 0x0000 ∷ [])
    ∷ (0x1F00 ∷ 0x1F00 ∷ 0x0300 ∷ 0x0300 ∷ 0x0300 ∷ 0x0300 ∷ 0x0300 ∷ 0x0300 ∷ 0x0300 ∷ 0x0300
        ∷ 0x0300 ∷ 0x0300 ∷ 0x0300 ∷ 0x0300 ∷ 0x0300 ∷ 0x1F00 ∷ 0x1F00 ∷ 0x0000 ∷ [])
    ∷ (0x0300 ∷ 0x0780 ∷ 0x0CC0 ∷ 0x1860 ∷ 0x0000 ∷ 0x0000 ∷ 0x0000 ∷ 0x0000 ∷ 0x0000 ∷ 0x0000
        ∷ 0x0000 ∷ 0x0000 ∷ 0x0000 ∷ 0x0000 ∷ 0x0000 ∷ 0x0000 ∷ 0x0000 ∷ 0x0000 ∷ [])
    ∷ []
