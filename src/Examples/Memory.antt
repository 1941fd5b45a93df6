-- ===== src/Examples/Memory.antt =====
-- The memory map, the page allocator and the kernel heap at concrete inputs.
use trunix.Prelude.{
  if◌then◌else◌, ◌==◌, ◌+◌, ◌≤◌, ◌≡◌, refl, inl, inr, none, some, List, [], ◌∷◌, arith, replicate,
}
use trunix.Round.{roundup, rounddown, v2p, p2v, v2p-p2v, pg_rounddown, pg_roundup}
use trunix.Block.{block}
use trunix.Pages.{Mem, fill, insert, free_pages, alloc_pages}
use trunix.Pages.Cover.{AllRuns, Taken, Allocates, alloc_pages_lem, free_pages_lem}
use trunix.Pages.Sorted.{IsSorted, TakesBest, alloc_pages_best, free_pages-IsSorted}
use trunix.KHeap.{KHeap, kmalloc, kfree, slot_size}
use trunix.KHeap.Alloc.{Ascending, Mallocs, kmalloc_lem}
use trunix.KHeap.Free.{Frees, kfree_lem, kfree-kmalloc}
use trunix.Memmap.{Entry, KInfo, no_entry, entry, cut_memmap}
use trunix.Memmap.Slots.{covers-replicate, replicate-AllEntries}
use trunix.Memmap.Room.{spare, meeting}
use trunix.Memmap.Returns.{cut_memmap-some}
use trunix.Memmap.Add.{IsMap}
use trunix.Memmap.Cut.{IsCut}

abbrev two_blocks : Mem
two_blocks = record {
  freelist = block 0x8000_4000 0x2000 ∷ block 0x8010_0000 0x5000 ∷ [];
  byte = λ _. 0;
}

abbrev pub one_block : Mem
one_block = record { freelist = block 0x8000_4000 0x8000 ∷ []; byte = λ _. 0 }

v2p-p2v_example : v2p (p2v 0x1234) ≡ 0x1234
v2p-p2v_example = v2p-p2v 0x1234 (omega arith)

two_blocks-AllRuns : AllRuns two_blocks.freelist
two_blocks-AllRuns = omega arith

two_blocks-IsSorted : IsSorted two_blocks.freelist
two_blocks-IsSorted = omega arith

alloc_pages_lem_example : Allocates 0x2001 two_blocks (alloc_pages 0x2001 two_blocks)
alloc_pages_lem_example =
    alloc_pages_lem 0x2001 two_blocks (omega arith) (omega arith) two_blocks-AllRuns (omega arith)

free_pages_lem_example :
    (m' : Mem) × (free_pages 0x8020_0000 0x1000 two_blocks ≡ some m')
    × Taken m'.freelist two_blocks.freelist 0x8020_0000 0x1000
    × AllRuns m'.freelist
free_pages_lem_example =
    free_pages_lem 0x8020_0000 0x1000 two_blocks (omega arith) two_blocks-AllRuns (λ e. cc)

alloc_pages_best_example : TakesBest 0x2001 two_blocks.freelist (alloc_pages 0x2001 two_blocks)
alloc_pages_best_example =
    alloc_pages_best 0x2001 two_blocks (omega arith) (omega arith) two_blocks-IsSorted

abbrev three_blocks : Mem
three_blocks = record {
  freelist = block 0x8020_0000 0x1000 ∷ two_blocks.freelist;
  byte = λ x. fill two_blocks.byte 0x8020_0000 0x69 0x1000 x;
}

free_pages-IsSorted_example : IsSorted three_blocks.freelist
unfolding free_pages insert roundup rounddown
free_pages-IsSorted_example =
    free_pages-IsSorted 0x8020_0000 0x1000 two_blocks {m' = three_blocks} two_blocks-IsSorted refl

abbrev some_heap : KHeap
some_heap = record {
  heap = block 0x8000_0000 64 ∷ block 0x8000_0080 128 ∷ [];
  header = λ a. if a == 0x8000_0040 then 24 else 0;
}

some_heap-Ascending : Ascending 0 some_heap.heap
some_heap-Ascending = omega arith

kmalloc_lem_example : Mallocs 100 some_heap (kmalloc 100 some_heap)
kmalloc_lem_example = kmalloc_lem 100 some_heap (omega arith) some_heap-Ascending

kfree_lem_example : Frees (block 0x8000_0040 24) some_heap (kfree 0x8000_0042 some_heap)
kfree_lem_example =
    kfree_lem 0x8000_0042 some_heap (omega arith) some_heap-Ascending
      (inl (omega arith), (inr (omega arith), tt))

abbrev pub fresh_heap : KHeap
fresh_heap = record { heap = block 0x8000_0000 0x10000 ∷ []; header = λ _. 0 }

kfree-kmalloc_example :
    (h' : KHeap) × (kmalloc 100 fresh_heap ≡ some (some 0x8000_0002, h'))
    × (kfree 0x8000_0002 h' ≡ none)
unfolding slot_size
kfree-kmalloc_example =
    kfree-kmalloc 100 (block 0x8000_0000 0x10000) fresh_heap (omega arith) (omega arith) refl

abbrev ram : List Entry
ram = entry 0x10_0000 0x10_0000 1 ∷ replicate 31 no_entry

abbrev pub info : KInfo
info = record {
  memmap = ram;
  mmap_n = 1;
  mem_high_phys = 0x20_0000;
  initrd_start = 0;
  initrd_end = 0;
}

info-IsMap : IsMap info
info-IsMap = record {
  entries = (omega arith, replicate-AllEntries 31);
  used = λ x. covers-replicate x 31;
  within_array = omega arith;
}

cut_memmap-some_example :
    (k' : KInfo) × (cut_memmap 0x14_0010 0x14_1234 info ≡ some k')
    × IsCut (pg_rounddown 0x14_0010) (pg_roundup 0x14_1234) info k'
    × (spare info.memmap
        ≤ spare k'.memmap + meeting (pg_rounddown 0x14_0010) (pg_roundup 0x14_1234) info.memmap)
unfolding roundup rounddown
cut_memmap-some_example =
    cut_memmap-some 0x14_0010 0x14_1234 info (omega arith) refl info-IsMap (omega arith)
