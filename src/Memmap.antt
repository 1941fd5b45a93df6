-- ===== src/Memmap.antt =====
-- kernel/paging.c: the memory map that the boot loader's entries are copied to, with the runs that are
-- taken out of it. `memmap` is the array of `MAXMEMMAP` entries.
pub mod Slots
pub mod Add
pub mod CutSlot
pub mod Cut
pub mod Room
pub mod Adds
pub mod Returns
use trunix.Prelude.{
  ℕ, zero, suc, ◌+◌, ◌-◌, ◌%◌, ◌^◌, Option, none, some, List, [], ◌∷◌, ltb, leb, ◌==◌,
  if◌then◌else◌, get_or, set, true, false,
}
use trunix.Round.{pg_roundup, pg_rounddown}

abbrev pub max_memmap : ℕ
max_memmap = 32

abbrev pub memory_available : ℕ
memory_available = 1

pub record Entry : Type 0 where
  pub addr : ℕ
  pub len : ℕ
  pub type : ℕ

pub record KInfo : Type 0 where
  pub memmap : List Entry
  pub mmap_n : ℕ
  pub mem_high_phys : ℕ
  pub initrd_start : ℕ
  pub initrd_end : ℕ

abbrev pub entry : ℕ → ℕ → ℕ → Entry
entry a n t = record { addr = a; len = n; type = t }

-- The loop of `add_memmap`: the first slot with no length, from slot `m` on, is given to `e`.
unfoldable pub fill_slot : ℕ → Entry → List Entry → Option (ℕ × List Entry)
fill_slot m e [] = none
fill_slot m e (x ∷ xs) =
    if x.len == 0
    then some (m, e ∷ xs)
    else elim (fill_slot (m + 1) e xs) [ none ↦ none | some (i, ys) ↦ some (i, x ∷ ys) ]

-- `none`: the kernel panics, as there is no slot. The result of `pg_roundup` and of `pg_rounddown` is
-- a u32, and so is their argument.
unfoldable pub add_memmap : ℕ → ℕ → KInfo → Option KInfo
unfolding fill_slot
add_memmap addr len k =
    if len == 0
    then some k
    else let a = pg_roundup (addr % 2 ^ 32) in
      let n = pg_rounddown (len % 2 ^ 32) in
      let highmark = (a + n) % 2 ^ 32 in
      elim (fill_slot 0 (entry a n memory_available) k.memmap) [
        | none ↦ none
        | some (m, es) ↦ some (record k {
          memmap = es;
          mmap_n = if leb k.mmap_n m then m + 1 else k.mmap_n;
          mem_high_phys = if ltb k.mem_high_phys highmark then highmark else k.mem_high_phys;
        })
      ]

abbrev pub no_entry : Entry
no_entry = entry 0 0 0

-- What is left of the entry from `mme_start` to `mme_end`, after its slot is emptied.
unfoldable pub cut_entry : ℕ → ℕ → ℕ → ℕ → KInfo → Option KInfo
unfolding add_memmap
cut_entry cut_start cut_end mme_start mme_end k =
    let below =
      if ltb mme_start cut_start then add_memmap mme_start (cut_start - mme_start) k else some k in
    elim below [
      | none ↦ none
      | some k' ↦ if ltb cut_end mme_end then add_memmap cut_end (mme_end - cut_end) k' else some k'
    ]

-- One round of the loop of `cut_memmap`.
unfoldable pub cut_slot : ℕ → ℕ → ℕ → KInfo → Option KInfo
unfolding cut_entry
cut_slot start end m k =
    let e = get_or k.memmap m no_entry in
    let mme_start = e.addr % 2 ^ 32 in
    let mme_end = (e.addr + e.len) % 2 ^ 32 in
    let cut_start = if ltb start mme_start then mme_start else start in
    let cut_end = if ltb mme_end end then mme_end else end in
    if leb cut_end cut_start
    then some k
    else cut_entry cut_start cut_end mme_start mme_end
        (record k { memmap = set k.memmap m (entry 0 0 e.type) })

-- The loop from slot `m` on, with the rounds left; there are no more rounds than slots.
unfoldable pub cut_slots : ℕ → ℕ → ℕ → ℕ → KInfo → Option KInfo
unfolding cut_slot
cut_slots zero start end m k = some k
cut_slots (suc rounds) start end m k = elim (ltb m k.mmap_n) [
  | true ↦ elim (cut_slot start end m k) [
    | none ↦ none
    | some k' ↦ cut_slots rounds start end (suc m) k'
  ]
  | false ↦ some k
]

unfoldable pub cut_memmap : ℕ → ℕ → KInfo → Option KInfo
unfolding cut_slots
cut_memmap start end k = cut_slots max_memmap (pg_rounddown start) (pg_roundup end) 0 k
