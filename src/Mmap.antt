-- ===== src/Mmap.antt =====
-- kernel/mem.c: `sys_mmap`. The functions of the drivers are a parameter, as in Fs.
pub mod Extend
pub mod Anon
use trunix.Prelude.{
  ℕ, ◌+◌, ◌-◌, ◌%◌, ◌^◌, Option, none, some, ◌∷◌, ltb, leb, ◌==◌, if◌then◌else◌, get_or,
}
use trunix.Round.{pg_roundup, kernel_offset, v2p, p2v}
use trunix.Pages.{alloc_pages}
use trunix.KHeap.{kmalloc}
use trunix.Fs.{Fs, no_inode, root_ino, max_files}
use trunix.Vm.{pg_user, alloc_pt}
use trunix.Machine.{
  Region, Machine, region_size, memmap_of, current, set_proc, set_heap, set_mem, set_memtab, zeroed,
}

-- A driver's `mmap` of the file at an address: the physical address that it gives the region. `none`
-- stands for a major number past the end of the table, for a driver without the function, and for
-- one that leaves the address without a value.
abbrev pub MmapDevs : Type 0
MmapDevs = ℕ → Option (ℕ → Fs → Option ℕ)

-- STACK_SIZE below the kernel.
abbrev pub mmap_limit : ℕ
mmap_limit = kernel_offset - 0x1000

-- What `sys_mmap` returns: NULL, -1, or the address.
pub data Mmapped : Type 0 where
  null fails : Mmapped
  maps : ℕ → Mmapped

-- The physical address of the pages of a region of `size` bytes, or `none` for the return of -1. The
-- outer `none` is a write through NULL, a read past the descriptors, or what the driver does.
unfoldable pub backing : MmapDevs → ℕ → ℕ → ℕ → Machine → Option (Option ℕ × Machine)
unfolding v2p
backing devs size flags fd s =
    if flags % 2 == 1
    then elim (alloc_pages size s.vm.mem) [
      | none ↦ none
      | some (none, m) ↦ none
      | some (some page, m) ↦ some (some (v2p page), set_mem (zeroed page (pg_roundup size) m) s)
    ]
    else (if ltb fd max_files
        then elim ((current s).ofile fd) [
          | none ↦ some (none, s)
          | some f ↦
              elim (devs (get_or s.fs.ino_tbl ((s.fs.files f).inode - root_ino) no_inode).major) [
                | none ↦ none
                | some mmap ↦ elim (mmap f s.fs) [ none ↦ none | some pa ↦ some (some pa, s) ]
              ]
        ]
        else none)

-- What `sys_mmap` does with the region.
unfoldable pub map_region : ℕ → ℕ → Machine → Option (Mmapped × Machine)
unfolding p2v
map_region pa size s =
    let p = current s in
    elim (alloc_pt (p2v p.cr3) p.mmap_base pa size pg_user s.vm) [
      | none ↦ none
      | some vm ↦ elim (memmap_of p) [
        | none ↦ none
        | some i ↦
            let entry = s.memtab i in
            let region : Region = record { va = p.mmap_base; pa = pa; len = size } in
            some (
              maps p.mmap_base,
              set_memtab i (record entry { regions = region ∷ entry.regions })
                  (set_proc s.sched.curthread
                    (record p { mmap_base = (p.mmap_base + size) % 2 ^ 32 })
                    (record s { vm = vm })),
            )
      ]
    ]

-- `kmalloc` can give NULL, through which the code writes once it has the region's pages.
unfoldable pub sys_mmap : MmapDevs → ℕ → ℕ → ℕ → Machine → Option (Mmapped × Machine)
sys_mmap devs len flags fd s =
    let size = pg_roundup len in
    if len == 0
    then some (null, s)
    else (if leb mmap_limit (((current s).mmap_base + size) % 2 ^ 32)
        then some (null, s)
        else elim (kmalloc region_size s.fs.heap) [
          | none ↦ none
          | some (a, h) ↦ elim (backing devs size flags fd (set_heap h s)) [
            | none ↦ none
            | some (none, s') ↦ some (fails, s')
            | some (some pa, s') ↦ elim a [ none ↦ none | some _ ↦ map_region pa size s' ]
          ]
        ])
