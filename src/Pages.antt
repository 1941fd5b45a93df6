-- ===== src/Pages.antt =====
-- kernel/mem.c: the page allocator. The free list is a list of blocks, and `byte` is the memory, by
-- virtual address; the links that the code keeps inside the free blocks are not in it.
pub mod Cover
pub mod Sorted
pub mod Free
use trunix.Prelude.{
  ℕ, ◌+◌, ◌-◌, Option, none, some, List, [], ◌∷◌, ltb, leb, ◌==◌, ◌&&◌, if◌then◌else◌,
}
use trunix.Round.{pg_roundup, pg_rounddown}
use trunix.Block.{Block, block}

pub record Mem : Type 0 where
  pub freelist : List Block
  pub byte : ℕ → ℕ

-- memset of `n` bytes at `a`.
abbrev pub fill : (ℕ → ℕ) → ℕ → ℕ → ℕ → ℕ → ℕ
fill byte a v n x = if leb a x && ltb x (a + n) then v else byte x

-- memmove of `n` bytes from `src` to `dst`.
abbrev pub move : (ℕ → ℕ) → ℕ → ℕ → ℕ → ℕ → ℕ
move byte dst src n x = if leb dst x && ltb x (dst + n) then byte (src + (x - dst)) else byte x

-- The loop of `free_pages`: before the first block that is as large, or behind the last one.
unfoldable pub insert : Block → List Block → List Block
insert n [] = []
insert n (p ∷ []) = if leb n.sz p.sz then n ∷ p ∷ [] else p ∷ n ∷ []
insert n (p ∷ tmp ∷ rest) = if leb n.sz p.sz then n ∷ p ∷ tmp ∷ rest else p ∷ insert n (tmp ∷ rest)

-- `none`: the assertion that the address is not NULL fails.
unfoldable pub free_pages : ℕ → ℕ → Mem → Option Mem
free_pages addr sz m =
    if addr == 0
    then none
    else let a = pg_rounddown addr in
      let n = pg_roundup sz in
      some (record { freelist = insert (block a n) m.freelist; byte = fill m.byte a 0x69 n })

-- The search of `alloc_pages`, with LIST_REMOVE of the block that it finds.
unfoldable pub take_fit : ℕ → List Block → Option (Block × List Block)
take_fit sz [] = none
take_fit sz (p ∷ ps) =
    if leb sz p.sz
    then some (p, ps)
    else elim (take_fit sz ps) [ none ↦ none | some (q, rest) ↦ some (q, p ∷ rest) ]

-- The block that is found, less what is given back.
unfoldable pub split : ℕ → Block → Mem → Option Mem
unfolding free_pages
split sz p m = if ltb sz p.sz then free_pages (p.addr + sz) (p.sz - sz) m else some m

-- The address, or `none` for NULL; the outer `none` is a failed assertion of `free_pages`.
unfoldable pub alloc_pages : ℕ → Mem → Option (Option ℕ × Mem)
unfolding take_fit split
alloc_pages sz m = elim (take_fit sz m.freelist) [
  | none ↦ some (none, m)
  | some (p, rest) ↦ elim (split (pg_roundup sz) p (record m { freelist = rest })) [
    | none ↦ none
    | some m' ↦ some (some p.addr, m')
  ]
]
