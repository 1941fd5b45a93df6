-- ===== src/Boot.antt =====
-- kernel/mem.c: `init_mem`, which gives the runs of the memory map to the page allocator and takes
-- the kernel heap from it; kernel/paging.c: the first page directory; kernel/init.c: what runs
-- before paging. A directory is a function of the index; its table of 1024 entries is filled by
-- loops with a known number of rounds.
pub mod Memory
pub mod Identity
pub mod Clear
pub mod Table
pub mod Map
use trunix.Prelude.{
  ℕ, zero, suc, ◌+◌, ◌-◌, ◌*◌, ◌/◌, ◌%◌, ◌^◌, Option, none, some, ◌||◌, List, [], ◌∷◌, ltb, leb,
  ◌==◌, if◌then◌else◌, take, not, bit_or, bit_and,
}
use trunix.Prelude.Bytes.{u32_at}
use trunix.Round.{p2v, roundup, kernel_offset}
use trunix.Block.{Block, block}
use trunix.Memmap.{Entry, KInfo, memory_available, add_memmap, cut_memmap}
use trunix.Pages.{Mem, alloc_pages}
use trunix.KHeap.{KHeap}

-- LIST_INSERT_AFTER behind the first block that is larger, or behind the last one.
unfoldable pub insert_after : Block → List Block → List Block
insert_after p [] = p ∷ []
insert_after p (n ∷ []) = n ∷ p ∷ []
insert_after p (n ∷ tmp ∷ rest) =
    if ltb p.sz n.sz then n ∷ p ∷ tmp ∷ rest else n ∷ insert_after p (tmp ∷ rest)

-- The loop on the memory map, on the free list so far.
unfoldable pub boot_list : List Entry → List Block → List Block
boot_list [] fl = fl
boot_list (e ∷ es) fl = boot_list es (
    if e.type == memory_available
    then insert_after (block (p2v (e.addr % 2 ^ 32)) (e.len % 2 ^ 32)) fl
    else fl)

-- `m` and `h` hold the memory before the call, and `cr3` the register. The last result is
-- `kpagedir`. `none`: there is no memory for the heap, whose size is then written through NULL; or
-- an assertion of the page allocator fails.
unfoldable pub init_mem : KInfo → ℕ → Mem → KHeap → Option (Mem × KHeap × ℕ)
init_mem k cr3 m h =
    elim (alloc_pages 0x10000 (record m { freelist = boot_list (take k.mmap_n k.memmap) [] })) [
      | none ↦ none
      | some (none, m') ↦ none
      | some (some sb, m') ↦ some (m', record h { heap = block sb 0x10000 ∷ [] }, p2v cr3)
    ]

-- PG_PSE | PG_RW | PG_P, and PG_G with these.
abbrev pub pg_large : ℕ
pg_large = 0x083

abbrev pub pg_global : ℕ
pg_global = 0x183

-- The loop of `pg_identity` on all entries, from entry `i` on.
unfoldable pub identity_from : ℕ → ℕ → (ℕ → ℕ) → ℕ → ℕ
identity_from zero i dir = dir
identity_from (suc rounds) i dir = identity_from rounds (i + 1) (λ j.
    (if j == i
      then (if leb (kernel_offset / 2 ^ 22) i
          then (i * 2 ^ 22 + kernel_offset) % 2 ^ 32 + pg_global
          else i * 2 ^ 22 + pg_large)
      else dir j))

-- The loop for the frame buffer.
unfoldable pub map_from : ℕ → ℕ → (ℕ → ℕ) → ℕ → ℕ
map_from zero i dir = dir
map_from (suc rounds) i dir =
    map_from rounds (i + 1) (λ j. (if j == i then i * 2 ^ 22 + pg_large else dir j))

-- `fb`, `pitch` and `height` describe the frame buffer.
unfoldable pub pg_identity : ℕ → ℕ → ℕ → (ℕ → ℕ) → ℕ → ℕ
pg_identity fb pitch height dir =
    let fbsz = roundup ((pitch * height) % 2 ^ 32) 0x400000 in
    let fbndx = fb / 2 ^ 22 in
    let fbndx_end = ((fb + fbsz) % 2 ^ 32) / 2 ^ 22 in
    map_from (fbndx_end - fbndx) fbndx (identity_from 1024 0 dir)

-- The loop of `pg_clear_identity` from entry `i` on, with the rounds left; it moves on by two behind an
-- entry that it clears. The entries are those from `low` up to `high`.
unfoldable pub clear_from : ℕ → ℕ → ℕ → ℕ → (ℕ → ℕ) → ℕ → ℕ
clear_from zero low high i dir = dir
clear_from (suc rounds) low high i dir =
    let skip = clear_from rounds low high (i + 1) dir in
    let cleared = clear_from rounds low high (i + 2) (λ j. if j == i then 0 else dir j) in
    if ltb i 1024 then (if ltb high i || ltb i low then skip else cleared) else dir

abbrev pub physical_base : ℕ
physical_base = 0x40_0000

-- `unpaged_end` is where the part of the kernel ends that runs before paging. The symbol of that name is
-- less by the kernel's offset, which the code adds.
unfoldable pub pg_clear_identity : ℕ → (ℕ → ℕ) → ℕ → ℕ
unfolding clear_from
pg_clear_identity unpaged_end dir =
    clear_from 1024 (unpaged_end / 2 ^ 22) (physical_base / 2 ^ 22) 0 dir

-- `init_trunix`: the boot loader's tables, at their physical addresses, are what `byte` reads.
pub record BootInfo : Type 0 where
  pub flags : ℕ
  pub mods_addr : ℕ
  pub mmap_length : ℕ
  pub mmap_addr : ℕ
  pub fb_addr : ℕ
  pub fb_pitch : ℕ
  pub fb_height : ℕ

abbrev pub boot_magic : ℕ
boot_magic = 0x2BADB002

-- The entries of the boot loader's map from offset `m` on, with the rounds left: each takes at least 4
-- bytes. The addresses and lengths have 64 bits, of which `add_memmap` takes 32. `none`: the kernel
-- panics, or the loop does not end.
unfoldable pub read_memmap : ℕ → (ℕ → ℕ) → ℕ → ℕ → ℕ → KInfo → Option KInfo
unfolding add_memmap
read_memmap zero byte addr len m k = if ltb m len then none else some k
read_memmap (suc rounds) byte addr len m k =
    let a = addr + m in
    let m' = (m + u32_at byte a + 4) % 2 ^ 32 in
    let skip = read_memmap rounds byte addr len m' k in
    if ltb m len
    then (if u32_at byte (a + 20) == memory_available
        then elim (add_memmap (u32_at byte (a + 4) + u32_at byte (a + 8) * 2 ^ 32)
            (u32_at byte (a + 12) + u32_at byte (a + 16) * 2 ^ 32) k) [
              | none ↦ none
              | some k' ↦ read_memmap rounds byte addr len m' k'
            ]
        else skip)
    else some k

-- The pages of the part of the kernel that runs before paging, the first page, and the initial ram
-- disk are taken out of the map.
unfoldable pub cut_used : (ℕ → ℕ) → ℕ → ℕ → KInfo → Option KInfo
unfolding cut_memmap
cut_used byte unpaged_end mods k = elim (cut_memmap physical_base unpaged_end k) [
  | none ↦ none
  | some k1 ↦ elim (cut_memmap 0 0x1000 k1) [
    | none ↦ none
    | some k2 ↦
        cut_memmap (u32_at byte mods) (u32_at byte (mods + 4))
          (record k2 { initrd_start = u32_at byte mods; initrd_end = u32_at byte (mods + 4) })
  ]
]

-- `none` within: NULL. The flags are tested as `(flags & 0x40) | 0x1000`.
unfoldable pub init_trunix : (ℕ → ℕ) → ℕ → ℕ → BootInfo → KInfo → Option (Option (KInfo × (ℕ → ℕ)))
unfolding read_memmap cut_used pg_identity
init_trunix byte unpaged_end magic mb k =
    if not (magic == boot_magic)
    then some none
    else (if bit_or (bit_and mb.flags 0x40) 0x1000 == 0
        then some none
        else elim (read_memmap (mb.mmap_length / 4 + 1) byte mb.mmap_addr mb.mmap_length 0 k) [
          | none ↦ none
          | some k1 ↦ elim (cut_used byte unpaged_end mb.mods_addr k1) [
            | none ↦ none
            | some k2 ↦ some (some (k2, pg_identity mb.fb_addr mb.fb_pitch mb.fb_height (λ _. 0)))
          ]
        ])
