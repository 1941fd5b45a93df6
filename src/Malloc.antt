-- ===== src/Malloc.antt =====
-- lib/libc/stdlib/malloc.c: the allocator of user programs. `heap` is the list of free blocks, in its
-- order, and `byte` the memory of the program, with the headers of allocations and the sizes of blocks;
-- the pointers of the list are not in it.
pub mod Run
pub mod Lost
use trunix.Prelude.{
  ℕ, ◌+◌, ◌-◌, ◌*◌, ◌/◌, ◌%◌, ◌^◌, Bool, true, Option, none, some, List, [], ◌∷◌, ltb, leb, ◌==◌,
  ◌&&◌, if◌then◌else◌,
}
use trunix.Prelude.Bytes.{u16_at, u32_at}
use trunix.Round.{roundup, pg_roundup}
use trunix.Block.{Block, block}

pub record UserHeap : Type 0 where
  pub heap : List Block
  pub byte : ℕ → ℕ

-- A store of four bytes, the low one first.
abbrev pub put_u32 : (ℕ → ℕ) → ℕ → ℕ → ℕ → ℕ
put_u32 byte a v x = if leb a x && ltb x (a + 4) then v / 2 ^ ((x - a) * 8) % 2 ^ 8 else byte x

-- The bytes that a request takes: those of the header too, up to a multiple of 4.
unfoldable pub user_slot : ℕ → ℕ
unfolding roundup
user_slot sz = roundup ((sz + 4) % 2 ^ 32) 4

-- The program can write `n` bytes at `a`: both ends lie in memory that is mapped, as all between then
-- does for a few bytes.
abbrev pub writable : (ℕ → Bool) → ℕ → ℕ → Bool
writable mapped a n = mapped a && mapped (a + n - 1)

-- The first allocation. `mmap` is the system call on a length: the address, or `none` for one that
-- fails, through whose result the code then writes. `none` also where the program faults, as the block
-- behind the allocation, of 8 bytes, is not mapped. The size of that block is a size_t.
unfoldable pub map_first : (ℕ → Option ℕ) → (ℕ → Bool) → ℕ → (ℕ → ℕ) → Option (Option ℕ × UserHeap)
map_first mmap mapped n byte = elim (mmap n) [
  | none ↦ none
  | some s ↦
      let p = (s + n) % 2 ^ 32 in
      let left = (n + 2 ^ 32 - pg_roundup n) % 2 ^ 32 in
      if writable mapped p 8 && writable mapped s 4
      then some (
        some ((s + 4) % 2 ^ 32),
        record { heap = block p left ∷ []; byte = put_u32 (put_u32 byte p left) s n },
      )
      else none
]

-- What is left of a block behind its first `n` bytes. If these are 4, the pointer to it, which
-- SLIST_INSERT_AFTER puts behind the size of the block, stands where its size has been written.
abbrev pub remainder : ℕ → Block → Block
remainder n p = let a = (p.addr + n) % 2 ^ 32 in block a (if n == 4 then a else p.sz - n)

-- The first block with `n` bytes, and the list with what is left of it in its place.
unfoldable pub find_free : ℕ → List Block → Option (Block × List Block)
find_free n [] = none
find_free n (p ∷ ps) =
    if leb n p.sz
    then some (p, if ltb n p.sz then remainder n p ∷ ps else ps)
    else elim (find_free n ps) [ none ↦ none | some (q, rest) ↦ some (q, p ∷ rest) ]

-- The header, and a size and a pointer behind the allocation if a block is left there, can be written.
abbrev pub can_take : (ℕ → Bool) → ℕ → Block → Bool
can_take mapped n p =
    writable mapped p.addr 4
    && (if ltb n p.sz then writable mapped ((p.addr + n) % 2 ^ 32) 8 else true)

-- What follows the search, on the block that is found. `none`: the program faults.
unfoldable pub take_free :
    (ℕ → Bool) → ℕ → Block → List Block → (ℕ → ℕ) → Option (Option ℕ × UserHeap)
take_free mapped n p rest byte =
    let r = remainder n p in
    let cut = if ltb n p.sz then put_u32 byte r.addr r.sz else byte in
    if can_take mapped n p
    then some (some ((p.addr + 4) % 2 ^ 32), record { heap = rest; byte = put_u32 cut p.addr n })
    else none

-- The address, or `none` for NULL within; `mapped` says where the program can write when `mmap` has
-- returned. The outer `none` is that of `map_first` or `take_free`.
unfoldable pub malloc : (ℕ → Option ℕ) → (ℕ → Bool) → ℕ → UserHeap → Option (Option ℕ × UserHeap)
unfolding map_first find_free take_free
malloc mmap mapped sz h =
    let n = user_slot sz in
    elim h.heap [
      | [] ↦ map_first mmap mapped n h.byte
      | _ ∷ _ ↦ elim (find_free n h.heap) [
        | none ↦ some (none, h)
        | some (p, rest) ↦ take_free mapped n p rest h.byte
      ]
    ]

-- `p` is two bytes below `a`: the code counts in unsigned short. `none`: the block ends where the
-- first one begins, and the code reads the variable `tmp`, which has no value; or the size and the
-- pointer that the code writes at `p` are not in memory that is mapped, or reach past the
-- allocation, whose header says how long it is, into what lies behind it. Behind the first block
-- the loop does nothing, and an empty list begins with NULL, which no address is below.
unfoldable pub free : (ℕ → Bool) → ℕ → UserHeap → Option UserHeap
free mapped a h =
    let p = a - 2 in
    let v = u16_at h.byte p in
    let byte = put_u32 h.byte p v in
    if writable mapped p 8 && leb 12 (u32_at h.byte (a - 4))
    then elim h.heap [
      | [] ↦ some (record h { byte = byte })
      | n ∷ rest ↦
          if ltb p n.addr
          then (if (p + v) % 2 ^ 32 == n.addr
              then none
              else some (record { heap = block p v ∷ n ∷ rest; byte = byte }))
          else some (record h { byte = byte })
    ]
    else none
