-- ===== src/Fork/Whole.antt =====
-- kernel/proc.c: `sys_fork`.
use trunix.Prelude.{
  ℕ, ◌+◌, ◌-◌, ◌%◌, ◌^◌, ◌<◌, ◌≡◌, ◌≢◌, Option, none, some, List, [], ◌∷◌, ◌++◌, true, ◌&&◌, leb,
}
use trunix.Round.{v2p}
use trunix.Block.{cover}
use trunix.Pages.{Mem, alloc_pages}
use trunix.Pages.Cover.{AllBelow}
use trunix.Pages.Free.{IsFree}
use trunix.KHeap.Alloc.{Ascending}
use trunix.Sched.{ready, running, Proc}
use trunix.Vm.{Vm}
use trunix.Vm.Keeps.{Keeps}
use trunix.Machine.{Region, Machine, max_procs, current, set_mem}
use trunix.Threads.{kstack_size, proc_size, cleared, proc_create}
use trunix.Threads.Frames.{Created, new_user}
use trunix.Fork.{Forked, fails, forks, set_pid}
use trunix.Fork.Thread.{Inherits, Copying}
use trunix.Fork.Child.{Spaces}
use trunix.Fork.Image.{IsImage, HasImage}

abbrev pub IsPid : ℕ → Type 0
IsPid pid = (leb 1 pid && leb pid max_procs) ≡ true

-- A process runs that has the regions `rs`, in memory that is in use and that its image of `sz`
-- bytes is enough for; its own thread and the kernel's directory are in use too, and the next pid
-- has an entry in the table.
pub record CanFork (rs : List Region) (sz : ℕ) (s : Machine) : Type 0 where
  pub free : IsFree s.vm.mem
  pub heap : Ascending 0 s.fs.heap.heap
  pub runs : (current s).state ≡ running
  pub mine : IsPid (current s).pid
  pub next : IsPid s.sched.next_pid
  pub listed : (s.memtab ((current s).pid - 1)).regions ≡ rs
  pub sized : (s.memtab ((current s).pid - 1)).sz ≡ some sz
  pub image : IsImage rs sz s.vm
  pub stands : cover s.sched.curthread s.vm.mem.freelist ≡ 0
  pub kernel : cover s.kpagedir s.vm.mem.freelist ≡ 0

-- The child before it has descriptors: a copy of its parent's frame, in which the call returns 0.
abbrev pub new_child : ℕ → ℕ → Machine → Proc
new_child stack pd s = record (cleared stack) {
  pid = s.sched.next_pid;
  cr3 = v2p pd;
  tf = record (current s).tf { eax = 0 };
  state = ready;
  parent = s.sched.curthread;
}

-- The thread `t` of `s'` is a child of the one that runs, with an image of its own, and waits last.
pub record IsChild (rs : List Region) (t : ℕ) (s s' : Machine) : Type 0 where
  pub stack : ℕ
  pub pd : ℕ
  pub stands : t + proc_size ≡ stack + kstack_size
  pub child : Inherits 0 (current s) (new_child stack pd s) (s'.sched.procs t)
  pub files : Copying (current s) (s'.sched.procs t) 0 s.fs.files s'.fs.files
  pub image : HasImage pd s.kpagedir rs s.vm s'.vm
  pub was_free : 0 < cover t s.vm.mem.freelist
  pub now_taken : cover t s'.vm.mem.freelist ≡ 0
  pub others : (u : ℕ) → u ≢ t → s'.sched.procs u ≡ s.sched.procs u
  pub queue : s'.sched.queue ≡ s.sched.queue ++ t ∷ []
  pub runs : s'.sched.curthread ≡ s.sched.curthread
  pub next_pid : s'.sched.next_pid ≡ (s.sched.next_pid + 1) % 2 ^ 32
  pub heap : Ascending 0 s'.fs.heap.heap

-- The new thread `t` stands on a page that was free, and is in no queue; all else is as it was, but for
-- the next pid.
pub record Leaves (t : ℕ) (s s' : Machine) : Type 0 where
  pub free : IsFree s'.vm.mem
  pub keeps : Keeps s.vm s'.vm
  pub was_free : 0 < cover t s.vm.mem.freelist
  pub others : (u : ℕ) → u ≢ t → s'.sched.procs u ≡ s.sched.procs u
  pub queue : s'.sched.queue ≡ s.sched.queue
  pub runs : s'.sched.curthread ≡ s.sched.curthread
  pub next_pid : s'.sched.next_pid ≡ (s.sched.next_pid + 1) % 2 ^ 32
  pub heap : Ascending 0 s'.fs.heap.heap

-- The pid and the child; -1, as there are no pages for the image; or the code goes wrong, as there is no
-- page for the stack, or for the directory, no memory for an entry of a region, for the page tables, or
-- for a descriptor.
pub data ForkEnds (rs : List Region) (sz : ℕ) (s : Machine) : Option Forked → Type 0 where
  child_made :
      {t : ℕ} {s' : Machine}
      → IsChild rs t s s'
      → ForkEnds rs sz s (some (forks s.sched.next_pid t s'))
  no_stack_page : AllBelow kstack_size s.vm.mem.freelist → ForkEnds rs sz s none
  no_image :
      {t : ℕ} {s1 s' : Machine}
      → proc_create s ≡ some (t, s1)
      → AllBelow sz s1.vm.mem.freelist
      → Leaves t s s'
      → ForkEnds rs sz s (some (fails s'))
  no_copy :
      {t : ℕ} {s1 : Machine} (mem : ℕ) (m : Mem)
      → proc_create s ≡ some (t, s1)
      → alloc_pages sz s1.vm.mem ≡ some (some mem, m)
      → Spaces t mem rs (set_mem m (set_pid t s1)) none
      → ForkEnds rs sz s none

module _ (rs : List Region) (sz : ℕ) (s : Machine) (c : CanFork rs sz s) where
  module _ (t : ℕ) (s1 : Machine) (n : Created new_user t s s1) where
    abbrev s2 : Machine
    s2 = set_pid t s1
