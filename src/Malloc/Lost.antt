-- ===== src/Malloc/Lost.antt =====
-- lib/libc/stdlib/malloc.c: what `free` gives back.
use trunix.Prelude.{
  ℕ, ◌+◌, ◌-◌, ◌%◌, ◌^◌, ◌<◌, ◌≡◌, Option, none, some, List, leb, true, Bool, ◌&&◌, if◌then◌else◌,
}
use trunix.Prelude.Bytes.{u16_at, u32_at}
use trunix.Block.{Block}
use trunix.Malloc.{UserHeap, put_u32, writable, can_take}

-- The address that a call of `malloc` returns, NULL or not; `none` if it goes wrong.
abbrev pub answer : Option (Option ℕ × UserHeap) → Option (Option ℕ)
answer none = none
answer (some (a, h)) = some a

-- What is returned for what the search finds.
abbrev found : (ℕ → Bool) → ℕ → Option (Block × List Block) → Option (Option ℕ)
found mapped n none = some none
found mapped n (some (p, rest)) =
    if can_take mapped n p then some (some ((p.addr + 4) % 2 ^ 32)) else none

module _ (mmap : ℕ → Option ℕ) (mapped : ℕ → Bool) (a sz : ℕ) (byte : ℕ → ℕ) (low : a < 2 ^ 32)
    (fits : sz + 8 < 2 ^ 32) (v : u16_at byte (a - 2) ≡ 0)
    (ok : (writable mapped (a - 2) 8 && leb 12 (u32_at byte (a - 4))) ≡ true) where
  -- The heap with the blocks `bs`.
  abbrev with_blocks : List Block → UserHeap
  with_blocks bs = record { heap = bs; byte = byte }

  -- The memory behind the store of the size.
  abbrev stored : ℕ → ℕ
  stored = put_u32 byte (a - 2) (u16_at byte (a - 2))
