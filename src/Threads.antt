-- ===== src/Threads.antt =====
-- kernel/proc.c: how a thread is made and taken apart, and the start of the scheduler. The thread stands
-- at the top of its kernel stack; its registers, with the return addresses that `alloc_thread` puts on
-- the stack for `switch_to`, are not in the state.
pub mod Frames
use trunix.Prelude.{ℕ, ◌+◌, ◌-◌, Option, none, some, List, [], ◌∷◌}
use trunix.Round.{p2v}
use trunix.Pages.{Mem, alloc_pages, free_pages}
use trunix.Sched.{running, ready, TrapFrame, Proc, Outcome, dispatch}
use trunix.Machine.{Region, Machine, memmap_of, current, set_proc, set_mem, set_memtab, zeroed}

abbrev pub kstack_size : ℕ
kstack_size = 0x1000

-- sizeof(struct proc).
abbrev pub proc_size : ℕ
proc_size = 104

abbrev pub no_frame : TrapFrame
no_frame = record {
  edi = 0;
  esi = 0;
  ebp = 0;
  unused_esp = 0;
  ebx = 0;
  edx = 0;
  ecx = 0;
  eax = 0;
  gs = 0;
  fs = 0;
  es = 0;
  ds = 0;
  eip = 0;
  cs = 0;
  eflags = 0;
  esp = 0;
  ss = 0;
}

-- A stack that is cleared holds this thread; NULL is 0, and so is RUNNING.
abbrev pub cleared : ℕ → Proc
cleared kstack = record {
  pid = 0;
  cr3 = 0;
  kstack = kstack;
  mmap_base = 0;
  tf = no_frame;
  ofile = λ _. none;
  state = running;
  parent = 0;
}

-- The address of the thread. `none`: the assertion on the stack fails.
unfoldable pub alloc_thread : Machine → Option (ℕ × Machine)
alloc_thread s = elim (alloc_pages kstack_size s.vm.mem) [
  | none ↦ none
  | some (none, m) ↦ none
  | some (some kstack, m) ↦
      let p = kstack + kstack_size - proc_size in
      some (p, set_proc p (cleared kstack) (set_mem (zeroed kstack kstack_size m) s))
]

-- The selectors of user code and data, (3 * 8) | 3 and (4 * 8) | 3.
abbrev pub user_frame : TrapFrame → TrapFrame
user_frame tf = record tf { gs = 35; fs = 35; es = 35; ds = 35; cs = 27; eflags = 0x0202; ss = 35 }

-- Those of the kernel, 1 * 8 and 2 * 8.
abbrev pub kernel_frame : ℕ → TrapFrame → TrapFrame
kernel_frame eip tf = record tf {
  gs = 16;
  fs = 16;
  ds = 16;
  es = 16;
  eip = eip;
  cs = 8;
  eflags = 0x0202;
}

unfoldable pub proc_create : Machine → Option (ℕ × Machine)
unfolding alloc_thread
proc_create s = elim (alloc_thread s) [
  | none ↦ none
  | some (t, s') ↦
      let p = s'.sched.procs t in
      some (t, set_proc t (record p { tf = user_frame p.tf; state = ready }) s')
]

unfoldable pub kthread_create : ℕ → Machine → Option (ℕ × Machine)
unfolding alloc_thread
kthread_create eip s = elim (alloc_thread s) [
  | none ↦ none
  | some (t, s') ↦
      let p = s'.sched.procs t in
      some (t, set_proc t (record p { cr3 = 0; state = ready; tf = kernel_frame eip p.tf }) s')
]

-- sizeof(struct proc_mmap) * 128. The entries have no `sz` yet.
unfoldable pub init_pmm : Machine → Option Machine
init_pmm s = elim (alloc_pages 1024 s.vm.mem) [
  | none ↦ none
  | some (none, m) ↦ none
  | some (some _, m) ↦
      some (record (set_mem m s) { memtab = λ _. record { regions = []; sz = none } })
]

-- `scheduler` is the address of the function. What it does then is `dispatch`.
unfoldable pub init_sched : ℕ → Machine → Option (Outcome × Machine)
unfolding kthread_create dispatch
init_sched scheduler s = elim (kthread_create scheduler s) [
  | none ↦ none
  | some (idle, s') ↦ some (dispatch (record s'.sched { curthread = idle }), s')
]

-- The pages of the regions, from the first on.
unfoldable pub free_regions : List Region → Mem → Option Mem
free_regions [] m = some m
free_regions (r ∷ rs) m = elim (free_pages (p2v r.pa) r.len m) [
  | none ↦ none
  | some m' ↦ free_regions rs m'
]

-- The entries themselves are not given back to the heap.
unfoldable pub free_uvm : Proc → Machine → Option Machine
unfolding free_regions
free_uvm p s = elim (memmap_of p) [
  | none ↦ none
  | some i ↦ elim (free_regions (s.memtab i).regions s.vm.mem) [
    | none ↦ none
    | some m ↦ some (set_memtab i (record (s.memtab i) { regions = [] }) (set_mem m s))
  ]
]

-- The addresses are given to `write_cr3` and `free_pages` as they stand.
unfoldable pub proc_destroy : Machine → Option Machine
unfolding free_uvm
proc_destroy s = elim (free_uvm (current s) s) [
  | none ↦ none
  | some s' ↦ elim (free_pages (current s).cr3 0x1000 s'.vm.mem) [
    | none ↦ none
    | some m ↦ elim (free_pages (current s).kstack kstack_size m) [
      | none ↦ none
      | some m' ↦ some (record (set_mem m' s') { sched = record s'.sched { cr3 = s.kpagedir } })
    ]
  ]
]
