-- ===== src/Console.antt =====
-- drivers/video/console/console.c: the cursor of `fbcon_write`, with the cells in which it draws. Its
-- pixels are those of Pixels.
pub mod Cells
pub mod Pixels
pub mod Open
use trunix.Prelude.{
  ℕ, ◌+◌, ◌-◌, ◌*◌, ◌/◌, Option, none, some, ◌&&◌, ◌||◌, List, [], ◌∷◌, ltb, ◌==◌, if◌then◌else◌,
}
use trunix.Font.{font_w}

-- The static variables `x` and `y`.
pub record Cursor : Type 0 where
  pub x : ℕ
  pub y : ℕ

-- A call of `fbconchar`.
pub record Cell : Type 0 where
  pub xpos : ℕ
  pub ypos : ℕ
  pub c : ℕ

abbrev pub scale : ℕ
scale = 2

-- How many cells the code takes to stand in a row of `width` pixels.
abbrev pub columns : ℕ → ℕ
columns width = width / (font_w * scale)

-- One round of the loop.
unfoldable pub write_char : ℕ → ℕ → Cursor → Cursor × Option Cell
write_char cols c s =
    if ltb cols s.x || (c == b'\n')
    then (record { x = 0; y = s.y + 1 }, none)
    else (if (c == 8) && ltb 0 s.x
        then (record { x = s.x - 1; y = s.y }, none)
        else (record { x = s.x + 1; y = s.y }, some (record { xpos = s.x; ypos = s.y; c = c })))

abbrev pub draw : Option Cell → List Cell → List Cell
draw none l = l
draw (some d) l = d ∷ l

-- The loop on the bytes: the cursor at its end, and the cells drawn, in order.
unfoldable pub write_cells : ℕ → List ℕ → Cursor → Cursor × List Cell
unfolding write_char
write_cells cols [] s = (s, [])
write_cells cols (c ∷ cs) s =
    let (s', d) = write_char cols c s in let (s'', l) = write_cells cols cs s' in (s'', draw d l)

-- Behind the test of `file->data`.
unfoldable pub fbcon_write : ℕ → List ℕ → Cursor → Cursor × List Cell
unfolding write_cells
fbcon_write width buf s = write_cells (columns width) buf s

-- The whole call, on the file's `data` and the width of its screen: -1, as `none`, for NULL.
unfoldable pub fbcon_write_file : Option ℕ → ℕ → List ℕ → Cursor → Option (Cursor × List Cell)
unfolding fbcon_write
fbcon_write_file none width buf s = none
fbcon_write_file (some _) width buf s = some (fbcon_write width buf s)
