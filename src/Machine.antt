-- ===== src/Machine.antt =====
-- kernel/proc.c, kernel/mem.c, kernel/fs.c: the state that a system call sees. The parts are those of
-- Sched, Fs and Vm; `memtab` is the table of the memory regions of each process. A `struct vm_region` is
-- known by its values, and a list of them is a linked list, in its order.
use trunix.Prelude.{ℕ, ◌-◌, Option, none, some, List, leb, ◌&&◌, ◌==◌, if◌then◌else◌}
use trunix.Pages.{Mem, fill}
use trunix.KHeap.{KHeap}
use trunix.Sched.{Proc, Sched, update}
use trunix.Fs.{Fs}
use trunix.Vm.{Vm}

pub record Region : Type 0 where
  pub va : ℕ
  pub pa : ℕ
  pub len : ℕ

-- `sz` is `none` until the code sets it: the table stands in pages that nothing clears.
pub record ProcMmap : Type 0 where
  pub regions : List Region
  pub sz : Option ℕ

pub record Machine : Type 0 where
  pub sched : Sched
  pub fs : Fs
  pub vm : Vm
  pub kpagedir : ℕ
  pub memtab : ℕ → ProcMmap

abbrev pub region_size : ℕ
region_size = 16

-- The entries of `memtab` that `init_pmm` sets up.
abbrev pub max_procs : ℕ
max_procs = 128

-- GETMEMMAP: the index of the entry. `none`: it lies outside the entries that are set up.
abbrev pub memmap_of : Proc → Option ℕ
memmap_of p = if leb 1 p.pid && leb p.pid max_procs then some (p.pid - 1) else none

abbrev pub current : Machine → Proc
current s = s.sched.procs s.sched.curthread

abbrev pub set_proc : ℕ → Proc → Machine → Machine
set_proc t p s = record s { sched = record s.sched { procs = update s.sched.procs t p } }

abbrev pub set_heap : KHeap → Machine → Machine
set_heap h s = record s { fs = record s.fs { heap = h } }

abbrev pub set_mem : Mem → Machine → Machine
set_mem m s = record s { vm = record s.vm { mem = m } }

abbrev pub set_memtab : ℕ → ProcMmap → Machine → Machine
set_memtab i t s = record s { memtab = λ j. if j == i then t else s.memtab j }

-- memset of `n` bytes at `a`, to zero.
abbrev pub zeroed : ℕ → ℕ → Mem → Mem
zeroed a n m = record m { byte = fill m.byte a 0 n }
