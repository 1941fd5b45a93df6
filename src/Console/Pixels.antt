-- ===== src/Console/Pixels.antt =====
-- drivers/video/console/console.c: the pixels of `fbconchar`.
pub mod Loops
pub mod Apart
pub mod Glyphs
use trunix.Prelude.{ℕ, zero, suc, ◌+◌, ◌-◌, ◌*◌, ◌/◌, ◌%◌, ◌^◌, ◌==◌, if◌then◌else◌}
use trunix.Font.{font_w, font_h, glyph_row}
use trunix.Pages.{fill}
use trunix.Console.{scale}

-- The fields of `struct fbdev` that the console reads.
pub record FbDev : Type 0 where
  pub addr : ℕ
  pub pitch : ℕ
  pub bpp : ℕ

abbrev pub cell_w : ℕ
cell_w = font_w * scale

abbrev pub cell_h : ℕ
cell_h = font_h * scale

-- COORD.
abbrev pub coord : FbDev → ℕ → ℕ → ℕ
coord fb x y = (fb.addr + (y * fb.pitch + x * (fb.bpp / 8))) % 2 ^ 32

-- A loop from `i` on, with the rounds that it has.
unfoldable pub for_up : ℕ → ℕ → (ℕ → (ℕ → ℕ) → ℕ → ℕ) → (ℕ → ℕ) → ℕ → ℕ
for_up zero i body byte = byte
for_up (suc rounds) i body byte = for_up rounds (i + 1) body (body i byte)

-- The bit of the glyph of `c`: FONT[c][y] & (1 << 7 - x).
abbrev pub glyph_bit : ℕ → ℕ → ℕ → ℕ
glyph_bit c x y = glyph_row c y / 2 ^ (font_w - 1 - x % font_w) % 2

-- A pixel is a u32, of bits that are all set or all clear.
abbrev pub set_pixel : FbDev → ℕ → ℕ → ℕ → (ℕ → ℕ) → ℕ → ℕ
set_pixel fb sx sy bit byte = fill byte (coord fb sx sy) (if bit == 0 then 0 else 0xFF) 4

abbrev pub draw_bit : FbDev → ℕ → ℕ → ℕ → ℕ → ℕ → (ℕ → ℕ) → ℕ → ℕ
draw_bit fb xpos ypos c y x =
    for_up scale (scale * x + xpos * cell_w)
      (λ sx. for_up scale (scale * y + ypos * cell_h) (λ sy. set_pixel fb sx sy (glyph_bit c x y)))

unfoldable pub fbconchar : FbDev → ℕ → ℕ → ℕ → (ℕ → ℕ) → ℕ → ℕ
unfolding for_up
fbconchar fb xpos ypos c = for_up font_h 0 (λ y. for_up font_w 0 (λ x. draw_bit fb xpos ypos c y x))
