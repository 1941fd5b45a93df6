-- ===== src/Mmap/Anon.antt =====
-- kernel/mem.c: what an anonymous mapping is.
use trunix.Prelude.{
  ℕ, ◌+◌, ◌%◌, ◌^◌, ◌<◌, ◌≤◌, ◌≡◌, refl, inl, inr, Option, none, some, true, false, ◌&&◌, leb, ◌==◌,
  arith, Bool-cases,
}
use trunix.Round.{page, kernel_offset, pg_roundup, pg_roundup_lem, pg_roundup_self, v2p}
use trunix.Block.{cover, inside}
use trunix.Pages.{Mem, alloc_pages}
use trunix.Pages.Cover.{AllBelow}
use trunix.Pages.Free.{IsFree, Grants, refused, granted, alloc_pages-Grants}
use trunix.KHeap.{KHeap, kmalloc, slot_size}
use trunix.KHeap.Alloc.{Ascending, Mallocs, kmalloc_lem}
use trunix.KHeap.Alloc
use trunix.Vm.Walk.{IsSpace}
use trunix.Machine.{Machine, region_size, max_procs, current, set_heap, set_mem, zeroed}
use trunix.Mmap.Extend.{space_of, base_of, Mapping, beyond, no_entry, no_pages, map_region-Mapping}
use trunix.Mmap.{MmapDevs, mmap_limit, fails, backing, map_region, sys_mmap}

-- What the pages of an anonymous region come to.
data Backs (size : ℕ) (s : Machine) : Option (Option ℕ × Machine) → Type 0 where
  empty : AllBelow size s.vm.mem.freelist → Backs size s none
  backs :
      {a : ℕ} {m : Mem}
      → IsFree m
      → a % page ≡ 0
      → kernel_offset ≤ a
      → a + size < 2 ^ 32
      → ((x : ℕ) → inside x a size + cover x m.freelist ≤ cover x s.vm.mem.freelist)
      → ((x : ℕ) → cover x s.vm.mem.freelist ≡ 0 → m.byte x ≡ s.vm.mem.byte x)
      → alloc_pages size s.vm.mem ≡ some (some a, m)
      → Backs size s (some (some (v2p a), set_mem (zeroed a (pg_roundup size) m) s))

Grants-Backs :
    (size : ℕ) (s : Machine) (o : Option (Option ℕ × Mem))
    → size % page ≡ 0
    → alloc_pages size s.vm.mem ≡ o
    → Grants size s.vm.mem o
    → Backs size s (elim o [
      | none ↦ none
      | some (none, m) ↦ none
      | some (some a, m) ↦ some (some (v2p a), set_mem (zeroed a (pg_roundup size) m) s)
    ])
Grants-Backs size s _ whole w (refused b) = empty b
Grants-Backs size s _ whole w (granted f start high fits less kept) =
    let e = pg_roundup_self size whole in
    backs f start high (rw e at fits) (λ x. rw e at (less x)) kept w

backing-Backs :
    (devs : MmapDevs) (size flags fd : ℕ) (s : Machine)
    → flags % 2 ≡ 1
    → 0 < size
    → size % page ≡ 0
    → size < 2 ^ 32
    → IsFree s.vm.mem
    → Backs size s (backing devs size flags fd s)
unfolding backing
backing-Backs devs size flags fd s anon pos whole small f =
    rw (backing, anon)
      (Grants-Backs size s (alloc_pages size s.vm.mem) whole refl
        (alloc_pages-Grants size s.vm.mem pos (omega arith) f))

module _ (devs : MmapDevs) (size flags fd : ℕ) (s : Machine) (anon : flags % 2 ≡ 1) (pos : 0 < size)
    (whole : size % page ≡ 0) (small : size < 2 ^ 32) (v : IsSpace (space_of s) s.vm)
    (al : base_of s % page ≡ 0) (user : base_of s < kernel_offset)
    (valid : (leb 1 (current s).pid && leb (current s).pid max_procs) ≡ true)
    (room : leb mmap_limit ((base_of s + size) % 2 ^ 32) ≡ false) where
  below_limit : (a : ℕ) → kernel_offset ≤ a → a + size < 2 ^ 32 → base_of s + size < mmap_limit
  below_limit a high fits = ground arith

  -- With an entry for the region.
  Backs-Mapping :
      (h : KHeap) (o : Option (Option ℕ × Machine))
      → Ascending 0 h.heap
      → Backs size (set_heap h s) o
      → Mapping size s (elim o [
        | none ↦ none
        | some (none, s') ↦ some (fails, s')
        | some (some pa, s') ↦ map_region pa size s'
      ])
  Backs-Mapping h _ asc (empty b) = no_pages b
  Backs-Mapping h _ asc (backs {a} {m} f start high fits less kept w) =
      map_region-Mapping size s h asc pos whole v (below_limit a high fits) al valid a m f start
        high fits less kept w

  -- Without one.
  Backs-none :
      (h : KHeap) (o : Option (Option ℕ × Machine))
      → AllBelow (slot_size region_size) s.fs.heap.heap
      → Backs size (set_heap h s) o
      → Mapping size s
          (elim o [ none ↦ none | some (none, s') ↦ some (fails, s') | some (some pa, s') ↦ none ])
  Backs-none h _ b (empty b') = no_pages b'
  Backs-none h _ b (backs _ _ _ _ _ _ _) = no_entry b

  Mallocs-Mapping :
      (o : Option (Option ℕ × KHeap))
      → Mallocs region_size s.fs.heap o
      → Mapping size s (elim o [
        | none ↦ none
        | some (a, h) ↦ elim (backing devs size flags fd (set_heap h s)) [
          | none ↦ none
          | some (none, s') ↦ some (fails, s')
          | some (some pa, s') ↦ elim a [ none ↦ none | some _ ↦ map_region pa size s' ]
        ]
      ])
  Mallocs-Mapping _ (Alloc.Mallocs.refused b) =
      Backs-none s.fs.heap _ b (backing-Backs devs size flags fd s anon pos whole small v.free)
  Mallocs-Mapping _ (Alloc.Mallocs.granted p n {h'} _ _ _ asc _) =
      Backs-Mapping h' _ asc
        (backing-Backs devs size flags fd (set_heap h' s) anon pos whole small v.free)

-- For a thread whose directory is in order, an anonymous mapping of at least one byte, whose length
-- rounded up to pages is below 2 ^ 32, is one of these: NULL, if it would reach the stack; a write
-- through NULL, if there is no memory for the region's entry, for its pages or for the page tables;
-- or else the address where the last mapping ended, from where on the thread then has the length in
-- pages, zero, of memory that was free, and nothing else of what was in use is changed.
pub sys_mmap-Mapping :
    (devs : MmapDevs) (len flags fd : ℕ) (s : Machine)
    → flags % 2 ≡ 1
    → 0 < len
    → len + 0xfff < 2 ^ 32
    → base_of s % page ≡ 0
    → base_of s < kernel_offset
    → (leb 1 (current s).pid && leb (current s).pid max_procs) ≡ true
    → Ascending 0 s.fs.heap.heap
    → IsSpace (space_of s) s.vm
    → Mapping (pg_roundup len) s (sys_mmap devs len flags fd s)
unfolding sys_mmap
sys_mmap-Mapping devs len flags fd s anon pos small al user valid asc v =
    let (whole, above, below) = pg_roundup_lem len small in
    let size = pg_roundup len in
    let nz : (len == 0) ≡ false = ground arith in
    elim (Bool-cases (leb mmap_limit ((base_of s + size) % 2 ^ 32))) [
      | inl reach ↦ rw (sys_mmap, nz, reach) (beyond (ground arith))
      | inr room ↦
          rw (sys_mmap, nz, room)
            (Mallocs-Mapping devs size flags fd s anon (omega arith) whole (omega arith) v al user
              valid room (kmalloc region_size s.fs.heap)
              (kmalloc_lem region_size s.fs.heap (omega arith) asc))
    ]
