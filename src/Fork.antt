-- ===== src/Fork.antt =====
-- kernel/proc.c: `sys_fork`.
pub mod Regions
pub mod Loop
pub mod Space
pub mod Thread
pub mod Child
pub mod Image
pub mod Whole
use trunix.Prelude.{
  ℕ, zero, suc, ◌+◌, ◌%◌, ◌^◌, Option, none, some, List, [], ◌∷◌, ◌==◌, if◌then◌else◌,
}
use trunix.Round.{pg_roundup, v2p, p2v}
use trunix.Pages.{move, alloc_pages}
use trunix.KHeap.{KHeap, kmalloc}
use trunix.Sched.{Proc, enqueue}
use trunix.Fs.{Fs, max_files, taken, set_file}
use trunix.Vm.{Vm, pg_user, alloc_pt, copykvm}
use trunix.Machine.{
  Region, Machine, region_size, memmap_of, current, set_proc, set_heap, set_mem, set_memtab,
}
use trunix.Threads.{proc_create}

abbrev pub moved : ℕ → ℕ → ℕ → Vm → Vm
moved dst src n s = record s { mem = record s.mem { byte = move s.mem.byte dst src n } }

abbrev pub region_at : ℕ → Region → Region
region_at pa r = record r { pa = pa }

-- The loop on the regions: their copies stand in the pages from `mem` on, and in `acc` in the opposite
-- order. `none`: `kmalloc` gives NULL, or `alloc_pt` does not return.
unfoldable pub copy_regions :
    ℕ → List Region → ℕ → Vm → KHeap → List Region → Option (Vm × KHeap × List Region)
unfolding v2p p2v
copy_regions pd [] mem s h acc = some (s, h, acc)
copy_regions pd (r ∷ rs) mem s h acc = elim (kmalloc region_size h) [
  | none ↦ none
  | some (none, _) ↦ none
  | some (some _, h') ↦ elim (alloc_pt pd r.va (v2p mem) r.len pg_user s) [
    | none ↦ none
    | some s' ↦
        copy_regions pd rs (mem + pg_roundup r.len) (moved mem (p2v r.pa) r.len s') h'
          (region_at (v2p mem) r ∷ acc)
  ]
]

-- The loop on the descriptors from `fd` on, up to the first that is NULL; it ends at the latest behind
-- the last, where it reads the state of the thread.
unfoldable pub copy_files : ℕ → ℕ → Proc → Proc → Fs → Option (Proc × Fs)
copy_files zero fd p c s = if taken p fd then none else some (c, s)
copy_files (suc rounds) fd p c s = elim (p.ofile fd) [
  | none ↦ some (c, s)
  | some f ↦ elim (kmalloc 12 s.heap) [
    | none ↦ none
    | some (none, _) ↦ none
    | some (some g, h) ↦
        copy_files rounds (fd + 1) p (set_file fd g c)
          (record s { heap = h; files = λ a. if a == g then s.files f else s.files a })
  ]
]

-- What `sys_fork` returns: -1, or the pid of the child, which stands at `child`.
pub data Forked : Type 0 where
  fails : Machine → Forked
  forks : ℕ → ℕ → Machine → Forked

-- The child `t` of the thread that runs: the last part of `sys_fork`.
unfoldable pub fork_thread : ℕ → ℕ → Machine → Option Forked
unfolding copy_files v2p enqueue
fork_thread t pd s =
    let p = current s in
    let n = s.sched.procs t in
    let child : Proc = record n {
      parent = s.sched.curthread;
      cr3 = v2p pd;
      tf = record p.tf { eax = 0 };
    } in
    elim (copy_files max_files 0 p child s.fs) [
      | none ↦ none
      | some (c, fs) ↦
          let s' = set_proc t c (record s { fs = fs }) in
          some (forks n.pid t (record s' { sched = enqueue t s'.sched }))
    ]

-- The regions of the thread that runs, `rs`, for the child `t`, in pages from `mem` on.
unfoldable pub fork_space : ℕ → ℕ → List Region → Machine → Option Forked
unfolding copykvm copy_regions fork_thread
fork_space t mem rs s = elim (copykvm s.kpagedir s.vm) [
  | none ↦ none
  | some (pd, vm) ↦ elim (memmap_of (s.sched.procs t)) [
    | none ↦ none
    | some j ↦ elim (copy_regions pd rs mem vm s.fs.heap (s.memtab j).regions) [
      | none ↦ none
      | some (vm', h, acc) ↦ fork_thread t pd (
          set_memtab j (record (s.memtab j) { regions = acc }) (set_heap h (record s { vm = vm' })))
    ]
  ]
]

abbrev pub set_pid : ℕ → Machine → Machine
set_pid t s =
    let s' = set_proc t (record (s.sched.procs t) { pid = s.sched.next_pid }) s in
    record s' { sched = record s'.sched { next_pid = (s.sched.next_pid + 1) % 2 ^ 32 } }

-- The child `t`, which has its pid.
unfoldable pub fork_child : ℕ → Machine → Option Forked
unfolding fork_space
fork_child t s = elim (memmap_of (current s)) [
  | none ↦ none
  | some i ↦ elim (s.memtab i).sz [
    | none ↦ none
    | some sz ↦ elim (alloc_pages sz s.vm.mem) [
      | none ↦ none
      | some (none, m) ↦ some (fails (set_mem m s))
      | some (some mem, m) ↦ fork_space t mem (s.memtab i).regions (set_mem m s)
    ]
  ]
]

-- `none` where the code fails an assertion, writes through NULL, or reads outside the table of the
-- regions or a size in it that nothing has set.
unfoldable pub sys_fork : Machine → Option Forked
unfolding proc_create fork_child
sys_fork s = elim (proc_create s) [ none ↦ none | some (t, s') ↦ fork_child t (set_pid t s') ]
