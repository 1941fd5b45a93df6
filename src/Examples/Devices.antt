-- ===== src/Examples/Devices.antt =====
-- The console, and the memory at boot.
use trunix.Prelude.{
  ℕ, false, refl, ◌-◌, ◌*◌, ◌<◌, ◌+◌, ◌/◌, ◌^◌, ◌≤◌, ◌==◌, none, ◌≡◌, some, ◌&&◌, List, [], ◌∷◌,
  ltb, leb, if◌then◌else◌, length, replicate, arith,
}
use trunix.Round.{v2p}
use trunix.Console.{Cursor, columns, fbcon_write}
use trunix.Console.Cells.{AllWithin, position, fbcon_write-AllWithin, fbcon_write-position}
use trunix.Memmap.{KInfo, entry, no_entry}
use trunix.Console.{scale}
use trunix.Console.Pixels.{FbDev, cell_w, cell_h, coord, fbconchar}
use trunix.Console.Pixels.Apart.{HasCell, InCell}
use trunix.Console.Pixels.Glyphs.{dot, fbconchar_lem}
use trunix.Boot.{init_mem, pg_identity, pg_clear_identity}
use trunix.Boot.Memory.{Inits, init_mem-Inits}
use trunix.Boot.Identity.{walk, last_entry, large_pages, pg_identity-walk}
use trunix.Boot.Clear.{pg_clear_identity-walk}
use trunix.Examples.Memory.{one_block, fresh_heap}

abbrev greeting : List ℕ
greeting = b'h' ∷ b'e' ∷ b'l' ∷ b'l' ∷ b'o' ∷ []

-- A screen of four cells.
abbrev cursor : Cursor
cursor = record { x = 2; y = 1 }

fbcon_write-AllWithin_example :
    (((fbcon_write 64 greeting cursor).0).x ≤ columns 64 + 1)
    × (1 ≤ ((fbcon_write 64 greeting cursor).0).y)
    × AllWithin (columns 64) 1 (fbcon_write 64 greeting cursor).1
fbcon_write-AllWithin_example = fbcon_write-AllWithin 64 greeting cursor (omega arith)

fbcon_write-position_example :
    position (columns 64) (fbcon_write 64 greeting cursor).0
    ≡ position (columns 64) cursor + length greeting
fbcon_write-position_example = fbcon_write-position 64 greeting cursor (omega arith) (omega arith)

abbrev boot_info : KInfo
boot_info = record {
  memmap = entry 0x1000 0x9E000 1 ∷ entry 0x10_0000 0x100_0000 1 ∷ replicate 30 no_entry;
  mmap_n = 2;
  mem_high_phys = 0x110_0000;
  initrd_start = 0;
  initrd_end = 0;
}

init_mem-Inits_example :
    Inits
      (entry 0x1000 0x9E000 1 ∷ entry 0x10_0000 0x100_0000 1 ∷ [])
      0x40_8000
      (init_mem boot_info 0x40_8000 one_block fresh_heap)
init_mem-Inits_example =
    init_mem-Inits boot_info 0x40_8000 one_block fresh_heap (omega arith) (omega arith)
      (λ x. ground arith)

pg_identity-walk_example :
    walk (pg_identity 0xFD00_0000 4096 768 (λ _. 0)) 0x8040_1234
    ≡ some (
        if leb (0xFD00_0000 / 2 ^ 22) (0x8040_1234 / 2 ^ 22)
          && ltb (0x8040_1234 / 2 ^ 22) (0xFD00_0000 / 2 ^ 22 + large_pages (4096 * 768))
        then 0x8040_1234
        else v2p 0x8040_1234)
pg_identity-walk_example =
    pg_identity-walk 0xFD00_0000 4096 768 (λ _. 0) 0x8040_1234 (omega arith) (omega arith)

pg_clear_identity-walk_example :
    walk (pg_clear_identity 0x40_9000 (pg_identity 0xFD00_0000 4096 768 (λ _. 0))) 0x1234 ≡ (
      if 0x1234 / 2 ^ 22 == 1
      then none
      else some (
          if leb (0xFD00_0000 / 2 ^ 22) (0x1234 / 2 ^ 22)
            && ltb (0x1234 / 2 ^ 22) (last_entry 0xFD00_0000 4096 768)
          then 0x1234
          else v2p 0x1234))
pg_clear_identity-walk_example =
    pg_clear_identity-walk 0x40_9000 0xFD00_0000 4096 768 (λ _. 0) 0x1234 (omega arith)
      (omega arith)

abbrev screen : FbDev
screen = record { addr = 0xFD00_0000; pitch = 4096; bpp = 32 }

screen-HasCell : HasCell screen 3 1
screen-HasCell = record { bits = refl; wide = omega arith; tall = omega arith }

fbconchar_lem_example :
    ((px py k : ℕ)
      → InCell 3 1 px py
      → k < 4
      → fbconchar screen 3 1 b'A' (λ _. 7) (coord screen px py + k) ≡ (
          if dot b'A' ((px - 3 * cell_w) / scale) ((py - 1 * cell_h) / scale) == 0
          then 0
          else 0xFF))
    × ((a : ℕ)
        → ((sx sy : ℕ)
            → InCell 3 1 sx sy
            → (leb (coord screen sx sy) a && ltb a (coord screen sx sy + 4)) ≡ false)
        → fbconchar screen 3 1 b'A' (λ _. 7) a ≡ 7)
fbconchar_lem_example = fbconchar_lem screen 3 1 b'A' (λ _. 7) (omega arith) screen-HasCell
