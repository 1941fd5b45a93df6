-- ===== src/Font.antt =====
-- drivers/video/console/misc-fixed-8x13B.c: the console's font, 128 glyphs of 13 rows. The array has
-- an initialiser for character 0 and for the characters from 32 on; all others are blank.
pub mod Upper
pub mod Lower
pub mod Laws
use trunix.Prelude.{ℕ, ◌-◌, ◌+◌, List, [], ◌∷◌, ◌++◌, get_or, replicate, ltb, ◌==◌, if◌then◌else◌}
use Upper.{glyphs_32, glyphs_41, glyphs_50, glyphs_59, glyphs_68}
use Lower.{glyphs_77, glyphs_86, glyphs_95, glyphs_104, glyphs_113, glyphs_122}

abbrev pub font_w : ℕ
font_w = 8

abbrev pub font_h : ℕ
font_h = 13

abbrev pub glyph_0 : List ℕ
glyph_0 =
    0x00 ∷ 0xAA ∷ 0xAA ∷ 0x00 ∷ 0x82 ∷ 0x82 ∷ 0x00 ∷ 0x82 ∷ 0x82 ∷ 0x00 ∷ 0xAA ∷ 0xAA ∷ 0x00 ∷ []

abbrev pub blank : List ℕ
blank = replicate font_h 0

-- The glyphs of the characters from 32 on.
unfoldable pub printable : List (List ℕ)
printable =
    glyphs_32 ++ glyphs_41 ++ glyphs_50 ++ glyphs_59 ++ glyphs_68 ++ glyphs_77 ++ glyphs_86
    ++ glyphs_95 ++ glyphs_104 ++ glyphs_113 ++ glyphs_122

-- FONT[c], for a character of the font: `c` is a signed char in the code, and one from 128 on reads
-- outside the array, which the theorems on the glyphs exclude.
unfoldable pub glyph : ℕ → List ℕ
unfolding printable
glyph c = if c == 0 then glyph_0 else if ltb c 32 then blank else get_or printable (c - 32) blank

-- FONT[c][y].
unfoldable pub glyph_row : ℕ → ℕ → ℕ
unfolding glyph
glyph_row c y = get_or (glyph c) y 0
