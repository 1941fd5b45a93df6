-- ===== src/Font/Upper.antt =====
-- drivers/video/console/misc-fixed-8x13B.c: the rows of the glyphs from the space on, the leftmost
-- pixel in bit 7.
use trunix.Prelude.{ℕ, List, [], ◌∷◌}

abbrev pub glyphs_32 : List (List ℕ)
glyphs_32 =
    (0x00 ∷ 0x00 ∷ 0x00 ∷ 0x00 ∷ 0x00 ∷ 0x00 ∷ 0x00 ∷ 0x00 ∷ 0x00 ∷ 0x00 ∷ 0x00 ∷ 0x00 ∷ 0x00 ∷ [])
    ∷ (0x00 ∷ 0x18 ∷ 0x18 ∷ 0x18 ∷ 0x18 ∷ 0x18 ∷ 0x18 ∷ 0x18 ∷ 0x00 ∷ 0x18 ∷ 0x18 ∷ 0x00 ∷ 0x00
        ∷ [])
    ∷ (0x00 ∷ 0x6C ∷ 0x6C ∷ 0x6C ∷ 0x6C ∷ 0x00 ∷ 0x00 ∷ 0x00 ∷ 0x00 ∷ 0x00 ∷ 0x00 ∷ 0x00 ∷ 0x00
        ∷ [])
    ∷ (0x00 ∷ 0x00 ∷ 0x6C ∷ 0x6C ∷ 0xFE ∷ 0xFE ∷ 0x6C ∷ 0xFE ∷ 0xFE ∷ 0x6C ∷ 0x6C ∷ 0x00 ∷ 0x00
        ∷ [])
    ∷ (0x00 ∷ 0x10 ∷ 0x7C ∷ 0xD6 ∷ 0xD0 ∷ 0xF0 ∷ 0x7C ∷ 0x1E ∷ 0x16 ∷ 0xD6 ∷ 0x7C ∷ 0x10 ∷ 0x00
        ∷ [])
    ∷ (0x00 ∷ 0xE6 ∷ 0xA6 ∷ 0xEC ∷ 0x18 ∷ 0x18 ∷ 0x30 ∷ 0x30 ∷ 0x6E ∷ 0xCA ∷ 0xCE ∷ 0x00 ∷ 0x00
        ∷ [])
    ∷ (0x00 ∷ 0x00 ∷ 0x00 ∷ 0x00 ∷ 0x78 ∷ 0xCC ∷ 0xCC ∷ 0x78 ∷ 0xCE ∷ 0xCC ∷ 0x7E ∷ 0x00 ∷ 0x00
        ∷ [])
    ∷ (0x00 ∷ 0x18 ∷ 0x18 ∷ 0x18 ∷ 0x18 ∷ 0x00 ∷ 0x00 ∷ 0x00 ∷ 0x00 ∷ 0x00 ∷ 0x00 ∷ 0x00 ∷ 0x00
        ∷ [])
    ∷ (0x00 ∷ 0x0C ∷ 0x18 ∷ 0x30 ∷ 0x30 ∷ 0x60 ∷ 0x60 ∷ 0x60 ∷ 0x30 ∷ 0x30 ∷ 0x18 ∷ 0x0C ∷ 0x00
        ∷ [])
    ∷ []

abbrev pub glyphs_41 : List (List ℕ)
glyphs_41 =
    (0x00 ∷ 0x60 ∷ 0x30 ∷ 0x18 ∷ 0x18 ∷ 0x0C ∷ 0x0C ∷ 0x0C ∷ 0x18 ∷ 0x18 ∷ 0x30 ∷ 0x60 ∷ 0x00 ∷ [])
    ∷ (0x00 ∷ 0x00 ∷ 0x00 ∷ 0x10 ∷ 0x10 ∷ 0xFE ∷ 0x38 ∷ 0x38 ∷ 0x6C ∷ 0x44 ∷ 0x00 ∷ 0x00 ∷ 0x00
        ∷ [])
    ∷ (0x00 ∷ 0x00 ∷ 0x00 ∷ 0x18 ∷ 0x18 ∷ 0x7E ∷ 0x7E ∷ 0x18 ∷ 0x18 ∷ 0x00 ∷ 0x00 ∷ 0x00 ∷ 0x00
        ∷ [])
    ∷ (0x00 ∷ 0x00 ∷ 0x00 ∷ 0x00 ∷ 0x00 ∷ 0x00 ∷ 0x00 ∷ 0x3C ∷ 0x1C ∷ 0x1C ∷ 0x18 ∷ 0x30 ∷ 0x00
        ∷ [])
    ∷ (0x00 ∷ 0x00 ∷ 0x00 ∷ 0x00 ∷ 0x00 ∷ 0x00 ∷ 0x7E ∷ 0x00 ∷ 0x00 ∷ 0x00 ∷ 0x00 ∷ 0x00 ∷ 0x00
        ∷ [])
    ∷ (0x00 ∷ 0x00 ∷ 0x00 ∷ 0x00 ∷ 0x00 ∷ 0x00 ∷ 0x00 ∷ 0x00 ∷ 0x18 ∷ 0x3C ∷ 0x18 ∷ 0x00 ∷ 0x00
        ∷ [])
    ∷ (0x00 ∷ 0x02 ∷ 0x06 ∷ 0x06 ∷ 0x0C ∷ 0x18 ∷ 0x30 ∷ 0x60 ∷ 0xC0 ∷ 0xC0 ∷ 0x80 ∷ 0x00 ∷ 0x00
        ∷ [])
    ∷ (0x00 ∷ 0x38 ∷ 0x6C ∷ 0xC6 ∷ 0xC6 ∷ 0xC6 ∷ 0xC6 ∷ 0xC6 ∷ 0xC6 ∷ 0x6C ∷ 0x38 ∷ 0x00 ∷ 0x00
        ∷ [])
    ∷ (0x00 ∷ 0x18 ∷ 0x38 ∷ 0x78 ∷ 0x18 ∷ 0x18 ∷ 0x18 ∷ 0x18 ∷ 0x18 ∷ 0x18 ∷ 0x7E ∷ 0x00 ∷ 0x00
        ∷ [])
    ∷ []

abbrev pub glyphs_50 : List (List ℕ)
glyphs_50 =
    (0x00 ∷ 0x7C ∷ 0xC6 ∷ 0xC6 ∷ 0x06 ∷ 0x0C ∷ 0x18 ∷ 0x30 ∷ 0x60 ∷ 0xC0 ∷ 0xFE ∷ 0x00 ∷ 0x00 ∷ [])
    ∷ (0x00 ∷ 0xFE ∷ 0x06 ∷ 0x0C ∷ 0x18 ∷ 0x3C ∷ 0x06 ∷ 0x06 ∷ 0x06 ∷ 0xC6 ∷ 0x7C ∷ 0x00 ∷ 0x00
        ∷ [])
    ∷ (0x00 ∷ 0x0C ∷ 0x1C ∷ 0x3C ∷ 0x6C ∷ 0xCC ∷ 0xCC ∷ 0xFE ∷ 0x0C ∷ 0x0C ∷ 0x0C ∷ 0x00 ∷ 0x00
        ∷ [])
    ∷ (0x00 ∷ 0xFE ∷ 0xC0 ∷ 0xC0 ∷ 0xFC ∷ 0xE6 ∷ 0x06 ∷ 0x06 ∷ 0x06 ∷ 0xC6 ∷ 0x7C ∷ 0x00 ∷ 0x00
        ∷ [])
    ∷ (0x00 ∷ 0x3C ∷ 0x60 ∷ 0xC0 ∷ 0xC0 ∷ 0xFC ∷ 0xE6 ∷ 0xC6 ∷ 0xC6 ∷ 0xE6 ∷ 0x7C ∷ 0x00 ∷ 0x00
        ∷ [])
    ∷ (0x00 ∷ 0xFE ∷ 0x06 ∷ 0x06 ∷ 0x0C ∷ 0x18 ∷ 0x18 ∷ 0x30 ∷ 0x30 ∷ 0x30 ∷ 0x30 ∷ 0x00 ∷ 0x00
        ∷ [])
    ∷ (0x00 ∷ 0x7C ∷ 0xC6 ∷ 0xC6 ∷ 0xC6 ∷ 0x7C ∷ 0xC6 ∷ 0xC6 ∷ 0xC6 ∷ 0xC6 ∷ 0x7C ∷ 0x00 ∷ 0x00
        ∷ [])
    ∷ (0x00 ∷ 0x7C ∷ 0xCE ∷ 0xC6 ∷ 0xC6 ∷ 0xCE ∷ 0x7E ∷ 0x06 ∷ 0x06 ∷ 0x0C ∷ 0x78 ∷ 0x00 ∷ 0x00
        ∷ [])
    ∷ (0x00 ∷ 0x00 ∷ 0x00 ∷ 0x18 ∷ 0x3C ∷ 0x18 ∷ 0x00 ∷ 0x00 ∷ 0x18 ∷ 0x3C ∷ 0x18 ∷ 0x00 ∷ 0x00
        ∷ [])
    ∷ []

abbrev pub glyphs_59 : List (List ℕ)
glyphs_59 =
    (0x00 ∷ 0x00 ∷ 0x00 ∷ 0x18 ∷ 0x3C ∷ 0x18 ∷ 0x00 ∷ 0x3C ∷ 0x1C ∷ 0x1C ∷ 0x18 ∷ 0x30 ∷ 0x00 ∷ [])
    ∷ (0x00 ∷ 0x00 ∷ 0x06 ∷ 0x0C ∷ 0x18 ∷ 0x30 ∷ 0x60 ∷ 0x30 ∷ 0x18 ∷ 0x0C ∷ 0x06 ∷ 0x00 ∷ 0x00
        ∷ [])
    ∷ (0x00 ∷ 0x00 ∷ 0x00 ∷ 0x00 ∷ 0x00 ∷ 0x7E ∷ 0x00 ∷ 0x00 ∷ 0x7E ∷ 0x00 ∷ 0x00 ∷ 0x00 ∷ 0x00
        ∷ [])
    ∷ (0x00 ∷ 0x00 ∷ 0x60 ∷ 0x30 ∷ 0x18 ∷ 0x0C ∷ 0x06 ∷ 0x0C ∷ 0x18 ∷ 0x30 ∷ 0x60 ∷ 0x00 ∷ 0x00
        ∷ [])
    ∷ (0x00 ∷ 0x7C ∷ 0xC6 ∷ 0xC6 ∷ 0x06 ∷ 0x0C ∷ 0x18 ∷ 0x18 ∷ 0x00 ∷ 0x18 ∷ 0x18 ∷ 0x00 ∷ 0x00
        ∷ [])
    ∷ (0x00 ∷ 0x00 ∷ 0x7C ∷ 0xFE ∷ 0xCE ∷ 0xDE ∷ 0xD2 ∷ 0xD2 ∷ 0xDE ∷ 0xE0 ∷ 0x7E ∷ 0x00 ∷ 0x00
        ∷ [])
    ∷ (0x00 ∷ 0x38 ∷ 0x7C ∷ 0xC6 ∷ 0xC6 ∷ 0xC6 ∷ 0xFE ∷ 0xC6 ∷ 0xC6 ∷ 0xC6 ∷ 0xC6 ∷ 0x00 ∷ 0x00
        ∷ [])
    ∷ (0x00 ∷ 0xFC ∷ 0x66 ∷ 0x66 ∷ 0x66 ∷ 0x7C ∷ 0x66 ∷ 0x66 ∷ 0x66 ∷ 0x66 ∷ 0xFC ∷ 0x00 ∷ 0x00
        ∷ [])
    ∷ (0x00 ∷ 0x7C ∷ 0xE6 ∷ 0xC6 ∷ 0xC0 ∷ 0xC0 ∷ 0xC0 ∷ 0xC0 ∷ 0xC6 ∷ 0xE6 ∷ 0x7C ∷ 0x00 ∷ 0x00
        ∷ [])
    ∷ []

abbrev pub glyphs_68 : List (List ℕ)
glyphs_68 =
    (0x00 ∷ 0xFC ∷ 0x66 ∷ 0x66 ∷ 0x66 ∷ 0x66 ∷ 0x66 ∷ 0x66 ∷ 0x66 ∷ 0x66 ∷ 0xFC ∷ 0x00 ∷ 0x00 ∷ [])
    ∷ (0x00 ∷ 0xFE ∷ 0xC0 ∷ 0xC0 ∷ 0xC0 ∷ 0xF8 ∷ 0xC0 ∷ 0xC0 ∷ 0xC0 ∷ 0xC0 ∷ 0xFE ∷ 0x00 ∷ 0x00
        ∷ [])
    ∷ (0x00 ∷ 0xFE ∷ 0xC0 ∷ 0xC0 ∷ 0xC0 ∷ 0xF8 ∷ 0xC0 ∷ 0xC0 ∷ 0xC0 ∷ 0xC0 ∷ 0xC0 ∷ 0x00 ∷ 0x00
        ∷ [])
    ∷ (0x00 ∷ 0x7C ∷ 0xC6 ∷ 0xC6 ∷ 0xC0 ∷ 0xC0 ∷ 0xC0 ∷ 0xCE ∷ 0xC6 ∷ 0xC6 ∷ 0x7C ∷ 0x00 ∷ 0x00
        ∷ [])
    ∷ (0x00 ∷ 0xC6 ∷ 0xC6 ∷ 0xC6 ∷ 0xC6 ∷ 0xFE ∷ 0xC6 ∷ 0xC6 ∷ 0xC6 ∷ 0xC6 ∷ 0xC6 ∷ 0x00 ∷ 0x00
        ∷ [])
    ∷ (0x00 ∷ 0x3C ∷ 0x18 ∷ 0x18 ∷ 0x18 ∷ 0x18 ∷ 0x18 ∷ 0x18 ∷ 0x18 ∷ 0x18 ∷ 0x3C ∷ 0x00 ∷ 0x00
        ∷ [])
    ∷ (0x00 ∷ 0x0E ∷ 0x06 ∷ 0x06 ∷ 0x06 ∷ 0x06 ∷ 0x06 ∷ 0x06 ∷ 0xC6 ∷ 0xC6 ∷ 0x7C ∷ 0x00 ∷ 0x00
        ∷ [])
    ∷ (0x00 ∷ 0xC6 ∷ 0xC6 ∷ 0xCC ∷ 0xD8 ∷ 0xF0 ∷ 0xF0 ∷ 0xD8 ∷ 0xCC ∷ 0xC6 ∷ 0xC6 ∷ 0x00 ∷ 0x00
        ∷ [])
    ∷ (0x00 ∷ 0xC0 ∷ 0xC0 ∷ 0xC0 ∷ 0xC0 ∷ 0xC0 ∷ 0xC0 ∷ 0xC0 ∷ 0xC0 ∷ 0xC2 ∷ 0xFE ∷ 0x00 ∷ 0x00
        ∷ [])
    ∷ []
