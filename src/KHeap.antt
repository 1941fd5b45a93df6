-- ===== src/KHeap.antt =====
-- kernel/mem.c: the kernel heap, `kmalloc` and `kfree`. The heap is the list of its free blocks, and
-- `header` is the u16 that stands in front of an allocation, by its address.
pub mod Alloc
pub mod Free
use mathlib.Core.Option
use trunix.Prelude.{
  ℕ, ◌+◌, ◌-◌, ◌%◌, ◌^◌, Option, none, some, List, [], ◌∷◌, ltb, leb, ◌==◌, ◌&&◌, if◌then◌else◌,
}
use trunix.Round.{roundup}
use trunix.Block.{Block, block}

pub record KHeap : Type 0 where
  pub heap : List Block
  pub header : ℕ → ℕ

-- The bytes that a request takes: those of the header too, up to a multiple of 8.
unfoldable pub slot_size : ℕ → ℕ
unfolding roundup
slot_size sz = roundup ((sz + 2) % 2 ^ 32) 8

-- The first block with `n` bytes, cut: its address, and the list with what is left of it.
unfoldable pub carve : ℕ → List Block → Option (ℕ × List Block)
carve n [] = none
carve n (p ∷ ps) =
    if leb n p.sz
    then some (p.addr, if ltb n p.sz then block (p.addr + n) (p.sz - n) ∷ ps else ps)
    else elim (carve n ps) [ none ↦ none | some (a, rest) ↦ some (a, p ∷ rest) ]

-- The address, or `none` for NULL; the outer `none` is the failed assertion that a request takes
-- less than a page.
unfoldable pub kmalloc : ℕ → KHeap → Option (Option ℕ × KHeap)
unfolding carve slot_size
kmalloc sz h =
    if ltb (slot_size sz) 0x1000
    then elim (carve (slot_size sz) h.heap) [
      | none ↦ some (none, h)
      | some (p, rest) ↦ some (
        some (p + 2),
        record { heap = rest; header = λ a. if a == p then slot_size sz else h.header a },
      )
    ]
    else none

-- The end of `kfree`: `q` takes in the next block, if that begins where `q` ends.
unfoldable pub join : Block → Block → List Block → List Block
join q tmp rest =
    if q.addr + q.sz == tmp.addr then block q.addr (q.sz + tmp.sz) ∷ rest else q ∷ tmp ∷ rest

-- The loop of `kfree` and what follows it. `none`: the loop has run off the list, and the code reads
-- through NULL.
unfoldable pub place : Block → List Block → Option (List Block)
unfolding join
place p [] = none
place p (n ∷ []) = none
place p (n ∷ tmp ∷ rest) =
    if ltb n.addr p.addr && ltb p.addr tmp.addr
    then some (
        if n.addr + n.sz == p.addr
        then join (block n.addr (n.sz + p.sz)) tmp rest
        else n ∷ join p tmp rest)
    else Option.map (λ l. n ∷ l) (place p (tmp ∷ rest))

-- `none` in the branch of a block that ends where the first one begins: the code then reads the
-- variable `tmp`, which has no value.
unfoldable pub release : Block → List Block → Option (List Block)
unfolding place
release p [] = none
release p (n ∷ rest) =
    if ltb p.addr n.addr
    then (if p.addr + p.sz == n.addr then none else some (p ∷ n ∷ rest))
    else place p (n ∷ rest)

-- `none`: the behaviour is undefined.
unfoldable pub kfree : ℕ → KHeap → Option KHeap
unfolding release
kfree a h =
    Option.map (λ l. record h { heap = l }) (release (block (a - 2) (h.header (a - 2))) h.heap)
