-- ===== src/Exec.antt =====
-- kernel/proc.c: `loadelf`, `sys_execve` and `initsys`. The file is read where it stands in memory, at
-- each access.
pub mod Span
use trunix.Prelude.{
  ℕ, zero, suc, ◌+◌, ◌-◌, ◌*◌, ◌%◌, ◌^◌, Option, none, some, List, [], ◌∷◌, ◌==◌, ◌||◌,
  if◌then◌else◌,
}
use trunix.Prelude.Bytes.{u32_at}
use trunix.Round.{kernel_offset, pg_roundup, v2p}
use trunix.Pages.{alloc_pages}
use trunix.KHeap.{kmalloc}
use trunix.Sched.{Proc, Outcome, yield_cpu, enqueue}
use trunix.Fs.{Dirent, Inode, Cdevs, fails, opens, overruns, no_inode, same_text, sys_open}
use trunix.Vm.{Vm, pg_user, alloc_pt, copykvm}
use trunix.Machine.{
  Region, Machine, region_size, memmap_of, current, set_proc, set_heap, set_mem, set_memtab, zeroed,
}
use trunix.Threads.{proc_create}
use trunix.Fork.{moved, set_pid}
use trunix.Elf.{
  ProgHdr, Extent, elf_magic, entry_of, ph_n_of, prog_hdr, prog_hdrs, no_extent, measure,
}

abbrev pub stack_size : ℕ
stack_size = 0x1000

-- The inode with the index of the first entry of the name.
unfoldable pub find_inode : List ℕ → List Dirent → List Inode → Option Inode
find_inode path [] is = none
find_inode path (d ∷ ds) [] = if same_text path d.name then some no_inode else find_inode path ds []
find_inode path (d ∷ ds) (i ∷ is) = if same_text path d.name then some i else find_inode path ds is

-- A region, its bytes and its pages: `len` bytes at `va` from the kernel's address `mem` on. `none`:
-- `alloc_pt` does not return.
abbrev pub load_region : ℕ → Region → Vm → Option Vm
load_region pd r s = alloc_pt pd r.va r.pa r.len pg_user s

abbrev pub region_of : ProgHdr → ℕ → Region
region_of ph mem = record {
  va = ph.va;
  pa = v2p mem;
  len = pg_roundup ((ph.memsz + ph.va % 0x1000) % 2 ^ 32);
}

-- The second loop, with the headers left: the address behind the last segment, or `none` for the return
-- of -1, and the regions. The outer `none`: `alloc_pt` does not return.
unfoldable pub load_segments :
    ℕ → ℕ → ℕ → ℕ → ℕ → Vm → List Region → Option (Option ℕ × Vm × List Region)
load_segments zero i bin pd mem s acc = some (some mem, s, acc)
load_segments (suc n) i bin pd mem s acc =
    let ph = prog_hdr s.mem.byte bin i in
    let skip = load_segments n (i + 1) bin pd mem s acc in
    if ph.type == 1
    then elim (load_region pd (region_of ph mem)
        (moved (mem + ph.va % 0x1000) (bin + ph.off) ph.filesz s)) [
          | none ↦ none
          | some s' ↦
              load_segments n (i + 1) bin pd ((mem + pg_roundup ph.memsz) % 2 ^ 32) s'
                (region_of ph mem ∷ acc)
        ]
    else (if (ph.type == 2) || (ph.type == 3) then some (none, s, acc) else skip)

-- What `loadelf` returns: -1, or 0 with the thread as it then is.
pub data Loaded : Type 0 where
  unloaded : Machine → Loaded
  loads : Proc → Machine → Loaded

-- The stack, below the kernel.
abbrev pub stack_region : ℕ → Region
stack_region mem = record { va = kernel_offset - stack_size; pa = v2p mem; len = stack_size }

abbrev pub started : Proc → ℕ → ℕ → ℕ → Proc
started p pd base entry = record p {
  cr3 = v2p pd;
  mmap_base = base;
  tf = record p.tf { eip = entry; esp = kernel_offset };
}

-- `loadelf` behind its first loop, with the directory `pd`; `i` is the entry of the process. The regions
-- that it had are dropped. The number of headers is read once. `none`: a write through NULL, a failed
-- assertion, or `alloc_pt` does not return.
unfoldable pub load_image : Proc → ℕ → ℕ → ℕ → Extent → Machine → Option Loaded
unfolding load_segments v2p
load_image p i bin pd x s =
    let sz = pg_roundup ((x.high + 2 ^ 32 - x.low + stack_size) % 2 ^ 32) in
    elim (alloc_pages sz s.vm.mem) [
      | none ↦ none
      | some (none, m) ↦ none
      | some (some mem, m) ↦ elim (kmalloc (region_size * (x.count + 1)) s.fs.heap) [
        | none ↦ none
        | some (none, h) ↦ none
        | some (some _, h) ↦
            let s1 =
              set_memtab i (record { regions = []; sz = some sz })
                (set_heap h (set_mem (zeroed mem sz m) s)) in
            elim (load_segments (ph_n_of s1.vm.mem.byte bin) 0 bin pd mem s1.vm []) [
              | none ↦ none
              | some (none, vm, acc) ↦ some (
                  unloaded
                    (set_memtab i (record { regions = acc; sz = some sz }) (record s1 { vm = vm })))
              | some (some top, vm, acc) ↦ elim (load_region pd (stack_region top) vm) [
                | none ↦ none
                | some vm' ↦ some (
                    loads (started p pd x.high (entry_of vm.mem.byte bin)) (
                      set_memtab i (record { regions = stack_region top ∷ acc; sz = some sz })
                        (record s1 { vm = vm' })))
              ]
            ]
      ]
    ]

unfoldable pub loadelf : List ℕ → Proc → Machine → Option Loaded
unfolding find_inode measure prog_hdrs load_image copykvm
loadelf path p s = elim (find_inode path s.fs.dir_tbl s.fs.ino_tbl) [
  | none ↦ some (unloaded s)
  | some inode ↦
      let bin = inode.addr in
      if u32_at s.vm.mem.byte bin == elf_magic
      then elim (copykvm s.kpagedir s.vm) [
        | none ↦ none
        | some (pd, vm) ↦
            elim (measure (prog_hdrs (ph_n_of vm.mem.byte bin) vm.mem.byte bin 0) no_extent) [
              | none ↦ some (unloaded (record s { vm = vm }))
              | some x ↦ elim (memmap_of p) [
                | none ↦ none
                | some i ↦ load_image p i bin pd x (record s { vm = vm })
              ]
            ]
      ]
      else some (unloaded s)
]

-- -1, or what `yield` comes to: the thread goes on in the new image when it runs again.
pub data Executed : Type 0 where
  stays : Machine → Executed
  yields : Outcome → Machine → Executed

unfoldable pub sys_execve : List ℕ → Machine → Option Executed
unfolding loadelf yield_cpu
sys_execve path s = elim (loadelf path (current s) s) [
  | none ↦ none
  | some (unloaded s') ↦ some (stays s')
  | some (loads p s') ↦
      let s'' = set_proc s'.sched.curthread p s' in some (yields (yield_cpu s''.sched) s'')
]

-- One descriptor for the console; what `sys_open` returns is not looked at. `none` if it would write
-- over the thread's state.
abbrev pub open_console : Cdevs → List ℕ → Machine → Option Machine
open_console cdevs path s = elim (sys_open cdevs path (current s) s.fs) [
  | none ↦ none
  | some fails ↦ some s
  | some (opens fd p fs) ↦ some (set_proc s.sched.curthread p (record s { fs = fs }))
  | some (overruns f fs) ↦ none
]

-- `init` and `console` are the names of the files.
unfoldable pub initsys : Cdevs → List ℕ → List ℕ → Machine → Option Machine
unfolding proc_create loadelf sys_open enqueue
initsys cdevs init console s = elim (proc_create s) [
  | none ↦ none
  | some (t, s0) ↦
      let s1 = set_pid t (record s0 { sched = record s0.sched { curthread = t } }) in
      elim (loadelf init (current s1) s1) [
        | none ↦ none
        | some (unloaded s2) ↦ none
        | some (loads p s2) ↦ elim (open_console cdevs console (set_proc t p s2)) [
          | none ↦ none
          | some s3 ↦ elim (open_console cdevs console s3) [
            | none ↦ none
            | some s4 ↦ elim (open_console cdevs console s4) [
              | none ↦ none
              | some s5 ↦ some (record s5 { sched = enqueue t s5.sched })
            ]
          ]
        ]
      ]
]
