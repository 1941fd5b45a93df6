-- ===== src/Boot/Memory.antt =====
-- What `init_mem` hands over.
use trunix.Prelude.{
  ℕ, suc, ◌+◌, ◌%◌, ◌^◌, ◌<◌, ◌≤◌, ◌≡◌, refl, inl, inr, Option, none, some, List, [], ◌∷◌, ◌==◌,
  if◌then◌else◌, length, take, arith, Bool-cases,
}
use trunix.Round.{page, p2v, kernel_offset, pg_roundup_self}
use trunix.Block.{Block, block, inside, cover}
use trunix.Memmap.{Entry, KInfo, memory_available}
use trunix.Pages.{Mem}
use trunix.Pages.Cover.{IsRun, AllRuns, AllBelow, Allocates, refused, granted, alloc_pages_lem}
use trunix.Pages.Free.{IsFree}
use trunix.KHeap.{KHeap}
use trunix.KHeap.Alloc.{Ascending}
use trunix.Boot.{insert_after, boot_list, init_mem}

-- Some whole pages of physical memory that the kernel's window reaches.
pub record IsPhysical (e : Entry) : Type 0 where
  pub aligned : e.addr % page ≡ 0
  pub whole : e.len % page ≡ 0
  pub some_pages : 0 < e.len
  pub reached : e.addr + e.len < kernel_offset

abbrev pub AllPhysical : List Entry → Type 0
AllPhysical [] = Unit {0}
AllPhysical (e ∷ es) = IsPhysical e × AllPhysical es

-- In how many of the available entries the virtual address `x` lies.
abbrev pub available : ℕ → List Entry → ℕ
available x [] = 0
available x (e ∷ es) =
    (if e.type == memory_available then inside x (e.addr + kernel_offset) e.len else 0)
    + available x es

-- No address below the kernel's window is available.
available_low : (x : ℕ) (es : List Entry) → x < kernel_offset → available x es ≡ 0
available_low x [] h = refl
available_low x (e ∷ es) h = ground (arith, available_low x es h)

-- How many entries are available.
abbrev pub count : List Entry → ℕ
count [] = 0
count (e ∷ es) = (if e.type == memory_available then 1 else 0) + count es

cover-insert_after :
    (x : ℕ) (p : Block) (fl : List Block)
    → cover x (insert_after p fl) ≡ inside x p.addr p.sz + cover x fl
unfolding insert_after
cover-insert_after x p [] = refl
cover-insert_after x p (n ∷ []) = ground arith
cover-insert_after x p (n ∷ m ∷ rest) = ground (arith, cover-insert_after x p (m ∷ rest))

length-insert_after : (p : Block) (fl : List Block) → length (insert_after p fl) ≡ suc (length fl)
unfolding insert_after
length-insert_after p [] = refl
length-insert_after p (n ∷ []) = refl
length-insert_after p (n ∷ m ∷ rest) = ground (arith, length-insert_after p (m ∷ rest))

insert_after-AllRuns :
    (p : Block) (fl : List Block) → IsRun p → AllRuns fl → AllRuns (insert_after p fl)
unfolding insert_after
insert_after-AllRuns p [] r a = (r, tt)
insert_after-AllRuns p (n ∷ []) r a = (a.0, (r, tt))
insert_after-AllRuns p (n ∷ m ∷ rest) r a = ground (arith, insert_after-AllRuns p (m ∷ rest) r a.1)

-- The block of an entry.
entry_block :
    (e : Entry)
    → IsPhysical e
    → block (p2v (e.addr % 2 ^ 32)) (e.len % 2 ^ 32) ≡ block (e.addr + kernel_offset) e.len
unfolding p2v
entry_block e h =
    let a : e.addr % 2 ^ 32 % kernel_offset + kernel_offset ≡ e.addr + kernel_offset =
      omega (arith, h.reached) in
    let n : e.len % 2 ^ 32 ≡ e.len = omega (arith, h.reached) in rw (a, n) refl

entry-IsRun : (e : Entry) → IsPhysical e → IsRun (block (e.addr + kernel_offset) e.len)
entry-IsRun e h = record {
  aligned = omega (arith, h.aligned);
  whole = h.whole;
  not_null = λ z. omega arith;
  fits = omega (arith, h.reached);
}

-- The free list that the loop makes.
pub record Boots (es : List Entry) (fl fl' : List Block) : Type 0 where
  pub covers : (x : ℕ) → cover x fl' ≡ available x es + cover x fl
  pub runs : AllRuns fl → AllRuns fl'
  pub blocks : length fl' ≡ count es + length fl

boot_list-Boots :
    (es : List Entry) (fl : List Block) → AllPhysical es → Boots es fl (boot_list es fl)
unfolding boot_list
boot_list-Boots [] fl a = record { covers = λ x. omega arith; runs = λ r. r; blocks = omega arith }
boot_list-Boots (e ∷ es) fl a = elim (Bool-cases (e.type == memory_available)) [
  | inl t ↦
      let p = block (e.addr + kernel_offset) e.len in
      let w = boot_list-Boots es (insert_after p fl) a.1 in
      rw (boot_list, t)
        (rw (entry_block e a.0) (record {
          covers = λ x. rw t (omega (arith, w.covers x, cover-insert_after x p fl));
          runs = λ r. w.runs (insert_after-AllRuns p fl (entry-IsRun e a.0) r);
          blocks = rw t (omega (arith, w.blocks, length-insert_after p fl));
        }))
  | inr f ↦
      let w = boot_list-Boots es fl a.1 in
      rw (boot_list, f)
        (record {
          covers = λ x. rw f (omega (arith, w.covers x));
          runs = w.runs;
          blocks = rw f (omega (arith, w.blocks));
        })
]

-- What `init_mem` comes to, on the entries in use.
pub data Inits (es : List Entry) (cr3 : ℕ) : Option (Mem × KHeap × ℕ) → Type 0 where
  no_memory :
      (fl : List Block)
      → ((x : ℕ) → cover x fl ≡ available x es)
      → AllBelow 0x10000 fl
      → Inits es cr3 none
  initialised :
      {sb : ℕ} {m : Mem} {h : KHeap}
      → IsFree m
      → Ascending 0 h.heap
      → h.heap ≡ block sb 0x10000 ∷ []
      → ((x : ℕ) → available x es ≡ cover x h.heap + cover x m.freelist)
      → Inits es cr3 (some (m, h, p2v cr3))

init_mem-Allocates :
    (es : List Entry) (cr3 : ℕ) (m : Mem) (h : KHeap) (o : Option (Option ℕ × Mem))
    → ((x : ℕ) → available x es ≤ 1)
    → ((x : ℕ) → cover x m.freelist ≡ available x es)
    → Allocates 0x10000 m o
    → Inits es cr3 (elim o [
      | none ↦ none
      | some (none, m') ↦ none
      | some (some sb, m') ↦ some (m', record h { heap = block sb 0x10000 ∷ [] }, p2v cr3)
    ])
init_mem-Allocates es cr3 m h _ one c (refused b) = no_memory m.freelist c b
init_mem-Allocates es cr3 m h _ one c (granted {a = sb} {m'} t) =
    let split : (x : ℕ) → available x es ≡ inside x sb 0x10000 + cover x m'.freelist =
      λ x. omega (arith, c x, rw (pg_roundup_self 0x10000 refl) at (t.covers x)) in
    initialised
      (record {
        runs = t.runs;
        once = λ x. omega (arith, split x, one x);
        high = λ x low. omega (arith, split x, available_low x es low);
      })
      (omega arith) refl (λ x. omega (arith, split x))

-- Of a memory map with at least two available entries, which do not overlap, all of whole pages
-- that the kernel's window reaches and none empty, `init_mem` makes a kernel heap of one block of 64
-- KiB and a free list of whole pages, which together are exactly the available memory, with no byte
-- twice, and takes the directory that is loaded for the kernel's; it fails only if no block of that
-- memory has 64 KiB. The order of the free list is not part of this.
pub init_mem-Inits :
    (k : KInfo) (cr3 : ℕ) (m : Mem) (h : KHeap)
    → AllPhysical (take k.mmap_n k.memmap)
    → 2 ≤ count (take k.mmap_n k.memmap)
    → ((x : ℕ) → available x (take k.mmap_n k.memmap) ≤ 1)
    → Inits (take k.mmap_n k.memmap) cr3 (init_mem k cr3 m h)
unfolding init_mem
init_mem-Inits k cr3 m h a two one =
    let es = take k.mmap_n k.memmap in
    let w = boot_list-Boots es [] a in
    let m' : Mem = record m { freelist = boot_list es [] } in
    init_mem-Allocates es cr3 m' h _ one (λ x. omega (arith, w.covers x))
      (alloc_pages_lem 0x10000 m' (omega arith) (omega arith) (w.runs tt) (omega (arith, w.blocks)))
