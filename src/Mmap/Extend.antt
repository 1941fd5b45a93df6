-- ===== src/Mmap/Extend.antt =====
-- kernel/mem.c: what `sys_mmap` does with the pages of an anonymous mapping.
use trunix.Prelude.{
  ℕ, ◌+◌, ◌-◌, ◌*◌, ◌/◌, ◌%◌, ◌^◌, ◌<◌, ◌≤◌, ◌≡◌, ◌≢◌, refl, inl, inr, Option, none, some, ◌∷◌,
  true, false, ◌&&◌, ltb, leb, if◌then◌else◌, arith, ◌∙◌, ap, ==_refl, Option-cases,
}
use trunix.Round.{page, kernel_offset, pg_roundup, pg_roundup_self, v2p, p2v}
use trunix.Block.{cover, inside}
use trunix.Pages.{Mem, alloc_pages}
use trunix.Pages.Cover.{AllBelow}
use trunix.Pages.Free.{IsFree}
use trunix.KHeap.{KHeap, slot_size}
use trunix.KHeap.Alloc.{Ascending}
use trunix.Vm.{Vm, pg_user, alloc_pt}
use trunix.Vm.Walk.{walk, IsSpace}
use trunix.Vm.Range.{Ranges, Ranged, Outside, ranged, starved, alloc_pt-Ranges}
use trunix.Vm.Take.{IsSpace-less}
use trunix.Machine.{
  Machine, region_size, max_procs, current, set_proc, set_heap, set_mem, set_memtab, zeroed,
}
use trunix.Mmap.{mmap_limit, Mmapped, null, maps, map_region}

abbrev pub space_of : Machine → ℕ
space_of s = p2v (current s).cr3

abbrev pub base_of : Machine → ℕ
base_of s = (current s).mmap_base

-- `s'` is `s` with `size` bytes more for the thread that runs, at its `mmap_base`: pages that were
-- free, all zero, of which `pa` is the physical address. Nothing else of the space is changed, no
-- byte that was in use, and no entry of another process.
pub record Extended (size pa : ℕ) (s s' : Machine) : Type 0 where
  pub space : IsSpace (space_of s) s'.vm
  pub walks :
      (x : ℕ)
      → x < kernel_offset
      → walk s'.vm (space_of s) x ≡ (
          if leb (base_of s) x && ltb x (base_of s + size)
          then some (pa + (x - base_of s))
          else walk s.vm (space_of s) x)
  pub zero : (i : ℕ) → i < size → s'.vm.mem.byte (p2v (pa + i)) ≡ 0
  pub was_free : (i : ℕ) → i < size → 0 < cover (p2v (pa + i)) s.vm.mem.freelist
  pub now_taken : (i : ℕ) → i < size → cover (p2v (pa + i)) s'.vm.mem.freelist ≡ 0
  pub bytes : (x : ℕ) → cover x s.vm.mem.freelist ≡ 0 → s'.vm.mem.byte x ≡ s.vm.mem.byte x
  pub below : base_of s + size < mmap_limit
  pub moved : current s' ≡ record (current s) { mmap_base = base_of s + size }
  pub others : (t : ℕ) → t ≢ s.sched.curthread → s'.sched.procs t ≡ s.sched.procs t
  pub listed : s'.memtab ((current s).pid - 1) ≡ record (s.memtab ((current s).pid - 1)) {
    regions =
        record { va = base_of s; pa = pa; len = size } ∷ (s.memtab ((current s).pid - 1)).regions;
  }
  pub words : (q j : ℕ) → Outside (space_of s) s.vm q → s'.vm.word q j ≡ s.vm.word q j
  pub outside : (q : ℕ) → Outside (space_of s) s.vm q → Outside (space_of s) s'.vm q
  pub less : (x : ℕ) → cover x s'.vm.mem.freelist ≤ cover x s.vm.mem.freelist
  pub sched : s'.sched ≡ record s.sched { procs = s'.sched.procs }
  pub heap : Ascending 0 s'.fs.heap.heap
  pub unlisted : (j : ℕ) → j ≢ (current s).pid - 1 → s'.memtab j ≡ s.memtab j

-- NULL, as the region would reach the stack; or the code goes wrong, as there is no memory for the
-- region's entry, for its pages, or for the page tables; or the address.
pub data Mapping (size : ℕ) (s : Machine) : Option (Mmapped × Machine) → Type 0 where
  beyond : mmap_limit ≤ base_of s + size → Mapping size s (some (null, s))
  no_entry : AllBelow (slot_size region_size) s.fs.heap.heap → Mapping size s none
  no_pages : AllBelow size s.vm.mem.freelist → Mapping size s none
  no_tables :
      (a : ℕ) (m : Mem)
      → alloc_pages size s.vm.mem ≡ some (some a, m)
      → Ranges
          (space_of s)
          (base_of s)
          (v2p a)
          (size / 0x1000)
          (record s.vm { mem = zeroed a (pg_roundup size) m })
          none
      → Mapping size s none
  mapped :
      {pa : ℕ} {s' : Machine} → Extended size pa s s' → Mapping size s (some (maps (base_of s), s'))

-- The state behind `kmalloc` and `alloc_pages`.
abbrev taken_from : KHeap → ℕ → ℕ → Mem → Machine → Machine
taken_from h a size m s = set_mem (zeroed a (pg_roundup size) m) (set_heap h s)

module _ (size : ℕ) (s : Machine) (h : KHeap) (asc : Ascending 0 h.heap) (pos : 0 < size)
    (whole : size % page ≡ 0) (v : IsSpace (space_of s) s.vm) (low : base_of s + size < mmap_limit)
    (al : base_of s % page ≡ 0)
    (valid : (leb 1 (current s).pid && leb (current s).pid max_procs) ≡ true) (a : ℕ) (m : Mem)
    (free : IsFree m) (start : a % page ≡ 0) (high : kernel_offset ≤ a) (fits : a + size < 2 ^ 32)
    (less : (x : ℕ) → inside x a size + cover x m.freelist ≤ cover x s.vm.mem.freelist)
    (kept : (x : ℕ) → cover x s.vm.mem.freelist ≡ 0 → m.byte x ≡ s.vm.mem.byte x)
    (taken : alloc_pages size s.vm.mem ≡ some (some a, m)) where
  abbrev vm0 : Vm
  vm0 = (taken_from h a size m s).vm

  size_self : pg_roundup size ≡ size
  size_self = pg_roundup_self size whole

  vm0-IsSpace : IsSpace (space_of s) vm0
  vm0-IsSpace =
      IsSpace-less (space_of s) s.vm (zeroed a (pg_roundup size) m) v
        (record { runs = free.runs; once = free.once; high = free.high })
        (λ x. omega (arith, less x))

  address : (i : ℕ) → i < size → p2v (v2p a + i) ≡ a + i
  unfolding p2v v2p
  address i h = omega arith

  page_inside : (i : ℕ) → i < size → inside (a + i) a size ≡ 1
  page_inside i h = ground arith

  page_taken : (i : ℕ) → i < size → cover (a + i) m.freelist ≡ 0
  page_taken i h = omega (arith, page_inside i h, less (a + i), v.free.once (a + i))

  filled : (i : ℕ) → i < size → vm0.mem.byte (a + i) ≡ 0
  filled i h = rw size_self (ground arith)

  unfilled : (x : ℕ) → cover x s.vm.mem.freelist ≡ 0 → vm0.mem.byte x ≡ s.vm.mem.byte x
  unfilled x c =
      let out : (leb a x && ltb x (a + size)) ≡ false = ground (arith, less x) in
      rw (size_self, out) (kept x c)

  abbrev extended : Vm → Machine
  extended vm =
      let i = (current s).pid - 1 in
      set_memtab i
        (record (s.memtab i) {
          regions = record { va = base_of s; pa = v2p a; len = size } ∷ (s.memtab i).regions;
        })
        (set_proc s.sched.curthread (record (current s) { mmap_base = (base_of s + size) % 2 ^ 32 })
          (record (taken_from h a size m s) { vm = vm }))

  still_Outside : (q : ℕ) → Outside (space_of s) s.vm q → Outside (space_of s) vm0 q
  still_Outside q o = record {
    taken = omega (arith, o.taken, less q);
    ne_dir = o.ne_dir;
    ne_table = o.ne_table;
  }

  same_walk : (x : ℕ) → walk vm0 (space_of s) x ≡ walk s.vm (space_of s) x
  unfolding walk
  same_walk x = refl

  extended-Extended :
      (vm : Vm)
      → Ranged (space_of s) (base_of s) (v2p a) size vm0 vm
      → Extended size (v2p a) s (extended vm)
  extended-Extended vm r = record {
    space = r.space;
    walks = λ x hx. r.walks x hx ∙ rw (same_walk x) refl;
    zero = λ i hi. ap vm.mem.byte (address i hi) ∙ r.bytes (a + i) (page_taken i hi) ∙ filled i hi;
    was_free = λ i hi. rw (address i hi) (omega (arith, page_inside i hi, less (a + i)));
    now_taken = λ i hi. rw (address i hi) (omega (arith, r.less (a + i), page_taken i hi));
    bytes = λ x c. r.bytes x (omega (arith, less x)) ∙ unfilled x c;
    below = low;
    moved =
        let e : (base_of s + size) % 2 ^ 32 ≡ base_of s + size = omega arith in
        rw (e, ==_refl (s.sched.curthread)) refl;
    others = λ t ne. ground arith;
    listed = rw (==_refl ((current s).pid - 1)) refl;
    words = λ q j o. r.others q j (still_Outside q o);
    outside = λ q o. r.outside q (still_Outside q o);
    less = λ x. omega (arith, r.less x, less x);
    sched = refl;
    heap = asc;
    unlisted = λ j ne. ground arith;
  }

  aligned_v2p : v2p a % page ≡ 0
  unfolding v2p
  aligned_v2p = omega arith

  low_v2p : v2p a + size < 2 ^ 32
  unfolding v2p
  low_v2p = omega arith

  pages : size / 0x1000 * 0x1000 ≡ size
  pages = omega arith

  Ranges-Mapping :
      (o : Option Vm)
      → Ranges (space_of s) (base_of s) (v2p a) (size / 0x1000) vm0 o
      → Mapping size s (elim o [ none ↦ none | some vm ↦ some (maps (base_of s), extended vm) ])
  Ranges-Mapping _ (ranged {s' = vm} r) = mapped (extended-Extended vm (rw pages at r))
  Ranges-Mapping _ (starved k vm lt e missing below) =
      no_tables a m taken (starved k vm lt e missing below)

  pub map_region-Mapping : Mapping size s (map_region (v2p a) size (taken_from h a size m s))
  unfolding map_region
  map_region-Mapping =
      let start' : v2p a % page ≡ 0 = aligned_v2p in
      let r =
        alloc_pt-Ranges (space_of s) (base_of s) (v2p a) (size / 0x1000) vm0 vm0-IsSpace al start'
          (omega (arith, pages)) (omega (arith, pages, low_v2p)) in
      let w =
        Ranges-Mapping (alloc_pt (space_of s) (base_of s) (v2p a) size pg_user vm0)
          (rw pages at r) in
      elim (Option-cases (alloc_pt (space_of s) (base_of s) (v2p a) size pg_user vm0)) [
        | inl e ↦ rw (map_region, e) (rw e at w)
        | inr (vm, e) ↦ rw (map_region, e) (rw valid (rw e at w))
      ]
