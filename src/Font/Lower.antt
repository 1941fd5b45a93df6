-- ===== src/Font/Lower.antt =====
-- drivers/video/console/misc-fixed-8x13B.c: the rows of the last glyphs, the leftmost pixel in bit 7.
use trunix.Prelude.{ℕ, List, [], ◌∷◌}

abbrev pub glyphs_77 : List (List ℕ)
glyphs_77 =
    (0x00 ∷ 0xC6 ∷ 0xC6 ∷ 0xEE ∷ 0xFE ∷ 0xD6 ∷ 0xC6 ∷ 0xC6 ∷ 0xC6 ∷ 0xC6 ∷ 0xC6 ∷ 0x00 ∷ 0x00 ∷ [])
    ∷ (0x00 ∷ 0xC6 ∷ 0xC6 ∷ 0xE6 ∷ 0xE6 ∷ 0xF6 ∷ 0xDE ∷ 0xCE ∷ 0xCE ∷ 0xC6 ∷ 0xC6 ∷ 0x00 ∷ 0x00
        ∷ [])
    ∷ (0x00 ∷ 0x7C ∷ 0xC6 ∷ 0xC6 ∷ 0xC6 ∷ 0xC6 ∷ 0xC6 ∷ 0xC6 ∷ 0xC6 ∷ 0xC6 ∷ 0x7C ∷ 0x00 ∷ 0x00
        ∷ [])
    ∷ (0x00 ∷ 0xFC ∷ 0xC6 ∷ 0xC6 ∷ 0xC6 ∷ 0xC6 ∷ 0xFC ∷ 0xC0 ∷ 0xC0 ∷ 0xC0 ∷ 0xC0 ∷ 0x00 ∷ 0x00
        ∷ [])
    ∷ (0x00 ∷ 0x7C ∷ 0xC6 ∷ 0xC6 ∷ 0xC6 ∷ 0xC6 ∷ 0xC6 ∷ 0xC6 ∷ 0xC6 ∷ 0xDE ∷ 0x7C ∷ 0x06 ∷ 0x00
        ∷ [])
    ∷ (0x00 ∷ 0xFC ∷ 0xC6 ∷ 0xC6 ∷ 0xC6 ∷ 0xFC ∷ 0xF8 ∷ 0xCC ∷ 0xCC ∷ 0xC6 ∷ 0xC6 ∷ 0x00 ∷ 0x00
        ∷ [])
    ∷ (0x00 ∷ 0x7C ∷ 0xC6 ∷ 0xC6 ∷ 0xC0 ∷ 0x7C ∷ 0x06 ∷ 0x06 ∷ 0xC6 ∷ 0xC6 ∷ 0x7C ∷ 0x00 ∷ 0x00
        ∷ [])
    ∷ (0x00 ∷ 0x7E ∷ 0x18 ∷ 0x18 ∷ 0x18 ∷ 0x18 ∷ 0x18 ∷ 0x18 ∷ 0x18 ∷ 0x18 ∷ 0x18 ∷ 0x00 ∷ 0x00
        ∷ [])
    ∷ (0x00 ∷ 0xC6 ∷ 0xC6 ∷ 0xC6 ∷ 0xC6 ∷ 0xC6 ∷ 0xC6 ∷ 0xC6 ∷ 0xC6 ∷ 0xC6 ∷ 0x7C ∷ 0x00 ∷ 0x00
        ∷ [])
    ∷ []

abbrev pub glyphs_86 : List (List ℕ)
glyphs_86 =
    (0x00 ∷ 0xC6 ∷ 0xC6 ∷ 0xC6 ∷ 0xC6 ∷ 0x44 ∷ 0x6C ∷ 0x6C ∷ 0x38 ∷ 0x38 ∷ 0x10 ∷ 0x00 ∷ 0x00 ∷ [])
    ∷ (0x00 ∷ 0xC6 ∷ 0xC6 ∷ 0xC6 ∷ 0xC6 ∷ 0xC6 ∷ 0xC6 ∷ 0xD6 ∷ 0xD6 ∷ 0xFE ∷ 0x6C ∷ 0x00 ∷ 0x00
        ∷ [])
    ∷ (0x00 ∷ 0xC6 ∷ 0xC6 ∷ 0x6C ∷ 0x6C ∷ 0x38 ∷ 0x38 ∷ 0x6C ∷ 0x6C ∷ 0xC6 ∷ 0xC6 ∷ 0x00 ∷ 0x00
        ∷ [])
    ∷ (0x00 ∷ 0x66 ∷ 0x66 ∷ 0x66 ∷ 0x3C ∷ 0x3C ∷ 0x18 ∷ 0x18 ∷ 0x18 ∷ 0x18 ∷ 0x18 ∷ 0x00 ∷ 0x00
        ∷ [])
    ∷ (0x00 ∷ 0xFE ∷ 0x06 ∷ 0x06 ∷ 0x0C ∷ 0x18 ∷ 0x30 ∷ 0x60 ∷ 0xC0 ∷ 0xC0 ∷ 0xFE ∷ 0x00 ∷ 0x00
        ∷ [])
    ∷ (0x00 ∷ 0x7C ∷ 0x60 ∷ 0x60 ∷ 0x60 ∷ 0x60 ∷ 0x60 ∷ 0x60 ∷ 0x60 ∷ 0x60 ∷ 0x60 ∷ 0x7C ∷ 0x00
        ∷ [])
    ∷ (0x00 ∷ 0x80 ∷ 0xC0 ∷ 0xC0 ∷ 0x60 ∷ 0x30 ∷ 0x18 ∷ 0x0C ∷ 0x06 ∷ 0x06 ∷ 0x02 ∷ 0x00 ∷ 0x00
        ∷ [])
    ∷ (0x00 ∷ 0x7C ∷ 0x0C ∷ 0x0C ∷ 0x0C ∷ 0x0C ∷ 0x0C ∷ 0x0C ∷ 0x0C ∷ 0x0C ∷ 0x0C ∷ 0x7C ∷ 0x00
        ∷ [])
    ∷ (0x00 ∷ 0x10 ∷ 0x38 ∷ 0x6C ∷ 0xC6 ∷ 0x00 ∷ 0x00 ∷ 0x00 ∷ 0x00 ∷ 0x00 ∷ 0x00 ∷ 0x00 ∷ 0x00
        ∷ [])
    ∷ []

abbrev pub glyphs_95 : List (List ℕ)
glyphs_95 =
    (0x00 ∷ 0x00 ∷ 0x00 ∷ 0x00 ∷ 0x00 ∷ 0x00 ∷ 0x00 ∷ 0x00 ∷ 0x00 ∷ 0x00 ∷ 0x00 ∷ 0xFE ∷ 0x00 ∷ [])
    ∷ (0x00 ∷ 0x30 ∷ 0x18 ∷ 0x0C ∷ 0x00 ∷ 0x00 ∷ 0x00 ∷ 0x00 ∷ 0x00 ∷ 0x00 ∷ 0x00 ∷ 0x00 ∷ 0x00
        ∷ [])
    ∷ (0x00 ∷ 0x00 ∷ 0x00 ∷ 0x00 ∷ 0x7C ∷ 0x06 ∷ 0x7E ∷ 0xC6 ∷ 0xC6 ∷ 0xCE ∷ 0x76 ∷ 0x00 ∷ 0x00
        ∷ [])
    ∷ (0x00 ∷ 0xC0 ∷ 0xC0 ∷ 0xC0 ∷ 0xDC ∷ 0xE6 ∷ 0xC6 ∷ 0xC6 ∷ 0xC6 ∷ 0xE6 ∷ 0xDC ∷ 0x00 ∷ 0x00
        ∷ [])
    ∷ (0x00 ∷ 0x00 ∷ 0x00 ∷ 0x00 ∷ 0x7C ∷ 0xE6 ∷ 0xC0 ∷ 0xC0 ∷ 0xC0 ∷ 0xE6 ∷ 0x7C ∷ 0x00 ∷ 0x00
        ∷ [])
    ∷ (0x00 ∷ 0x06 ∷ 0x06 ∷ 0x06 ∷ 0x76 ∷ 0xCE ∷ 0xC6 ∷ 0xC6 ∷ 0xC6 ∷ 0xCE ∷ 0x76 ∷ 0x00 ∷ 0x00
        ∷ [])
    ∷ (0x00 ∷ 0x00 ∷ 0x00 ∷ 0x00 ∷ 0x7C ∷ 0xC6 ∷ 0xC6 ∷ 0xFE ∷ 0xC0 ∷ 0xC6 ∷ 0x7C ∷ 0x00 ∷ 0x00
        ∷ [])
    ∷ (0x00 ∷ 0x3C ∷ 0x66 ∷ 0x60 ∷ 0x60 ∷ 0x60 ∷ 0xFC ∷ 0x60 ∷ 0x60 ∷ 0x60 ∷ 0x60 ∷ 0x00 ∷ 0x00
        ∷ [])
    ∷ (0x00 ∷ 0x00 ∷ 0x00 ∷ 0x00 ∷ 0x7E ∷ 0xCC ∷ 0xCC ∷ 0xCC ∷ 0x78 ∷ 0xF0 ∷ 0x7C ∷ 0xC6 ∷ 0x7C
        ∷ [])
    ∷ []

abbrev pub glyphs_104 : List (List ℕ)
glyphs_104 =
    (0x00 ∷ 0xC0 ∷ 0xC0 ∷ 0xC0 ∷ 0xDC ∷ 0xE6 ∷ 0xC6 ∷ 0xC6 ∷ 0xC6 ∷ 0xC6 ∷ 0xC6 ∷ 0x00 ∷ 0x00 ∷ [])
    ∷ (0x00 ∷ 0x00 ∷ 0x18 ∷ 0x18 ∷ 0x00 ∷ 0x38 ∷ 0x18 ∷ 0x18 ∷ 0x18 ∷ 0x18 ∷ 0x3C ∷ 0x00 ∷ 0x00
        ∷ [])
    ∷ (0x00 ∷ 0x00 ∷ 0x06 ∷ 0x06 ∷ 0x00 ∷ 0x0E ∷ 0x06 ∷ 0x06 ∷ 0x06 ∷ 0x06 ∷ 0xC6 ∷ 0xC6 ∷ 0x7C
        ∷ [])
    ∷ (0x00 ∷ 0xC0 ∷ 0xC0 ∷ 0xC0 ∷ 0xCC ∷ 0xD8 ∷ 0xF0 ∷ 0xF0 ∷ 0xD8 ∷ 0xCC ∷ 0xC6 ∷ 0x00 ∷ 0x00
        ∷ [])
    ∷ (0x00 ∷ 0x38 ∷ 0x18 ∷ 0x18 ∷ 0x18 ∷ 0x18 ∷ 0x18 ∷ 0x18 ∷ 0x18 ∷ 0x18 ∷ 0x3C ∷ 0x00 ∷ 0x00
        ∷ [])
    ∷ (0x00 ∷ 0x00 ∷ 0x00 ∷ 0x00 ∷ 0x6C ∷ 0xFE ∷ 0xD6 ∷ 0xD6 ∷ 0xC6 ∷ 0xC6 ∷ 0xC6 ∷ 0x00 ∷ 0x00
        ∷ [])
    ∷ (0x00 ∷ 0x00 ∷ 0x00 ∷ 0x00 ∷ 0xDC ∷ 0xE6 ∷ 0xC6 ∷ 0xC6 ∷ 0xC6 ∷ 0xC6 ∷ 0xC6 ∷ 0x00 ∷ 0x00
        ∷ [])
    ∷ (0x00 ∷ 0x00 ∷ 0x00 ∷ 0x00 ∷ 0x7C ∷ 0xC6 ∷ 0xC6 ∷ 0xC6 ∷ 0xC6 ∷ 0xC6 ∷ 0x7C ∷ 0x00 ∷ 0x00
        ∷ [])
    ∷ (0x00 ∷ 0x00 ∷ 0x00 ∷ 0x00 ∷ 0xDC ∷ 0xE6 ∷ 0xC6 ∷ 0xC6 ∷ 0xC6 ∷ 0xE6 ∷ 0xDC ∷ 0xC0 ∷ 0xC0
        ∷ [])
    ∷ []

abbrev pub glyphs_113 : List (List ℕ)
glyphs_113 =
    (0x00 ∷ 0x00 ∷ 0x00 ∷ 0x00 ∷ 0x76 ∷ 0xCE ∷ 0xC6 ∷ 0xC6 ∷ 0xC6 ∷ 0xCE ∷ 0x76 ∷ 0x06 ∷ 0x06 ∷ [])
    ∷ (0x00 ∷ 0x00 ∷ 0x00 ∷ 0x00 ∷ 0xDC ∷ 0xE6 ∷ 0xC0 ∷ 0xC0 ∷ 0xC0 ∷ 0xC0 ∷ 0xC0 ∷ 0x00 ∷ 0x00
        ∷ [])
    ∷ (0x00 ∷ 0x00 ∷ 0x00 ∷ 0x00 ∷ 0x7C ∷ 0xC6 ∷ 0x60 ∷ 0x38 ∷ 0x0C ∷ 0xC6 ∷ 0x7C ∷ 0x00 ∷ 0x00
        ∷ [])
    ∷ (0x00 ∷ 0x60 ∷ 0x60 ∷ 0x60 ∷ 0x60 ∷ 0xFC ∷ 0x60 ∷ 0x60 ∷ 0x60 ∷ 0x66 ∷ 0x3C ∷ 0x00 ∷ 0x00
        ∷ [])
    ∷ (0x00 ∷ 0x00 ∷ 0x00 ∷ 0x00 ∷ 0xC6 ∷ 0xC6 ∷ 0xC6 ∷ 0xC6 ∷ 0xC6 ∷ 0xCE ∷ 0x76 ∷ 0x00 ∷ 0x00
        ∷ [])
    ∷ (0x00 ∷ 0x00 ∷ 0x00 ∷ 0x00 ∷ 0xC6 ∷ 0xC6 ∷ 0xC6 ∷ 0xC6 ∷ 0x6C ∷ 0x6C ∷ 0x38 ∷ 0x00 ∷ 0x00
        ∷ [])
    ∷ (0x00 ∷ 0x00 ∷ 0x00 ∷ 0x00 ∷ 0xC6 ∷ 0xC6 ∷ 0xC6 ∷ 0xD6 ∷ 0xD6 ∷ 0xFE ∷ 0x6C ∷ 0x00 ∷ 0x00
        ∷ [])
    ∷ (0x00 ∷ 0x00 ∷ 0x00 ∷ 0x00 ∷ 0xC6 ∷ 0xC6 ∷ 0x6C ∷ 0x38 ∷ 0x6C ∷ 0xC6 ∷ 0xC6 ∷ 0x00 ∷ 0x00
        ∷ [])
    ∷ (0x00 ∷ 0x00 ∷ 0x00 ∷ 0x00 ∷ 0xC6 ∷ 0xC6 ∷ 0xC6 ∷ 0xC6 ∷ 0xCE ∷ 0x76 ∷ 0x06 ∷ 0xC6 ∷ 0x7C
        ∷ [])
    ∷ []

abbrev pub glyphs_122 : List (List ℕ)
glyphs_122 =
    (0x00 ∷ 0x00 ∷ 0x00 ∷ 0x00 ∷ 0xFE ∷ 0x0C ∷ 0x18 ∷ 0x30 ∷ 0x60 ∷ 0xC0 ∷ 0xFE ∷ 0x00 ∷ 0x00 ∷ [])
    ∷ (0x00 ∷ 0x1E ∷ 0x30 ∷ 0x30 ∷ 0x30 ∷ 0x18 ∷ 0x70 ∷ 0x18 ∷ 0x30 ∷ 0x30 ∷ 0x30 ∷ 0x1E ∷ 0x00
        ∷ [])
    ∷ (0x00 ∷ 0x18 ∷ 0x18 ∷ 0x18 ∷ 0x18 ∷ 0x18 ∷ 0x18 ∷ 0x18 ∷ 0x18 ∷ 0x18 ∷ 0x18 ∷ 0x00 ∷ 0x00
        ∷ [])
    ∷ (0x00 ∷ 0x78 ∷ 0x0C ∷ 0x0C ∷ 0x0C ∷ 0x18 ∷ 0x0E ∷ 0x18 ∷ 0x0C ∷ 0x0C ∷ 0x0C ∷ 0x78 ∷ 0x00
        ∷ [])
    ∷ (0x00 ∷ 0x00 ∷ 0x72 ∷ 0xFE ∷ 0x9C ∷ 0x00 ∷ 0x00 ∷ 0x00 ∷ 0x00 ∷ 0x00 ∷ 0x00 ∷ 0x00 ∷ 0x00
        ∷ [])
    ∷ []
