-- ===== src/Fork/Child.antt =====
-- kernel/proc.c: `sys_fork` from its allocation of the pages on.
use trunix.Prelude.{ℕ, ◌≡◌, ◌≢◌, refl, Option, none, some, List, [], ◌∷◌, ◌++◌, sym, subst}
use trunix.Pages.Cover.{AllBelow}
use trunix.Pages.Free.{IsFree}
use trunix.KHeap.{KHeap, slot_size}
use trunix.KHeap.Alloc.{Ascending}
use trunix.Sched.{running}
use trunix.Vm.{Vm, copykvm}
use trunix.Vm.Fresh.{Copied, copykvm-Copies}
use trunix.Vm.Fresh
use trunix.Machine.{Region, Machine, memmap_of, current, set_heap, set_memtab}
use trunix.Fork.{Forked, forks, copy_regions, fork_space}
use trunix.Fork.Regions.{IsCopyable}
use trunix.Fork.Loop.{Copies, copied, no_entry, no_tables, copy_regions-Copies}
use trunix.Fork.Space.{HasSpace, IsCopyable-less, CopiesAll-HasSpace}
use trunix.Fork.Thread.{
  Inherits, Copying, Grabs, child_of, Joined, joins, no_files, fork_thread-Joined,
}

-- The child `t` of the thread that runs, with the regions `rs` in pages at `mem`.
pub record Spaced (t mem : ℕ) (rs : List Region) (s s' : Machine) : Type 0 where
  pub pd : ℕ
  pub space : HasSpace s.kpagedir pd mem rs s.vm s'.vm
  pub child : Inherits 0 (current s) (child_of t pd s) (s'.sched.procs t)
  pub files : Copying (current s) (s'.sched.procs t) 0 s.fs.files s'.fs.files
  pub others : (u : ℕ) → u ≢ t → s'.sched.procs u ≡ s.sched.procs u
  pub queue : s'.sched.queue ≡ s.sched.queue ++ t ∷ []
  pub runs : s'.sched.curthread ≡ s.sched.curthread
  pub next_pid : s'.sched.next_pid ≡ s.sched.next_pid
  pub heap : Ascending 0 s'.fs.heap.heap

pub data Spaces (t mem : ℕ) (rs : List Region) (s : Machine) : Option Forked → Type 0 where
  spaced :
      {s' : Machine}
      → Spaced t mem rs s s'
      → Spaces t mem rs s (some (forks (s.sched.procs t).pid t s'))
  no_directory : AllBelow 0x1000 s.vm.mem.freelist → Spaces t mem rs s none
  no_space :
      (pd : ℕ) (vm : Vm) (acc : List Region)
      → copykvm s.kpagedir s.vm ≡ some (pd, vm)
      → Copies pd mem rs vm s.fs.heap acc none
      → Spaces t mem rs s none
  no_descriptors :
      (pd : ℕ) (vm vm' : Vm) (acc acc' : List Region) (h h' : KHeap)
      → copykvm s.kpagedir s.vm ≡ some (pd, vm)
      → copy_regions pd rs mem vm s.fs.heap acc ≡ some (vm', h, acc')
      → Grabs h h'
      → AllBelow (slot_size 12) h'.heap
      → Spaces t mem rs s none

module _ (t mem : ℕ) (rs : List Region) (s : Machine) (j : ℕ)
    (entry : memmap_of (s.sched.procs t) ≡ some j) (free : IsFree s.vm.mem)
    (asc : Ascending 0 s.fs.heap.heap) (r : (current s).state ≡ running)
    (c : IsCopyable rs mem s.vm.mem.freelist) where
  abbrev filled : Vm → KHeap → List Region → Machine
  filled vm h acc =
      set_memtab j (record (s.memtab j) { regions = acc }) (set_heap h (record s { vm = vm }))

  Joined-Spaces :
      (pd : ℕ) (vm0 vm : Vm) (h : KHeap) (acc : List Region) (o : Option Forked)
      → copykvm s.kpagedir s.vm ≡ some (pd, vm0)
      → copy_regions pd rs mem vm0 s.fs.heap (s.memtab j).regions ≡ some (vm, h, acc)
      → HasSpace s.kpagedir pd mem rs s.vm vm
      → Joined t pd (filled vm h acc) o
      → Spaces t mem rs s o
  Joined-Spaces pd vm0 vm h acc _ e e' hs (joins k) = spaced (record {
    pd = pd;
    space = subst (λ v. HasSpace s.kpagedir pd mem rs s.vm v) (sym k.vm) hs;
    child = k.child;
    files = k.files;
    others = k.others;
    queue = k.queue;
    runs = k.runs;
    next_pid = k.next_pid;
    heap = k.heap;
  })
  Joined-Spaces pd vm0 vm h acc _ e e' hs (no_files k g b) =
      no_descriptors pd vm0 vm _ acc h k e e' g b

  -- With the directory `pd`.
  Copies-Spaces :
      (pd : ℕ) (vm : Vm) (o : Option (Vm × KHeap × List Region))
      → Copied s.kpagedir s.vm pd vm
      → copy_regions pd rs mem vm s.fs.heap (s.memtab j).regions ≡ o
      → Copies pd mem rs vm s.fs.heap (s.memtab j).regions o
      → copykvm s.kpagedir s.vm ≡ some (pd, vm)
      → Spaces t mem rs s (fork_space t mem rs s)
  unfolding fork_space
  Copies-Spaces pd vm _ k e (copied {s'} {h'} {acc'} w asc') e' =
      rw (fork_space, e')
        (rw entry (
          rw e (
            Joined-Spaces pd vm s' h' acc' _ e' e
              (CopiesAll-HasSpace s.kpagedir pd mem rs s.vm vm s' c k w)
              (fork_thread-Joined t pd (filled s' h' acc') r asc'))))
  Copies-Spaces pd vm _ k e (no_entry qs rest q s' h' acc' f run b) e' =
      rw (fork_space, e')
        (rw entry (rw e (no_space pd vm _ e' (no_entry qs rest q s' h' acc' f run b))))
  Copies-Spaces pd vm _ k e (no_tables qs rest q s' h' acc' pa f run n) e' =
      rw (fork_space, e')
        (rw entry (rw e (no_space pd vm _ e' (no_tables qs rest q s' h' acc' pa f run n))))

  Fresh-Spaces :
      (o : Option (ℕ × Vm))
      → copykvm s.kpagedir s.vm ≡ o
      → Fresh.Copies s.kpagedir s.vm o
      → Spaces t mem rs s (fork_space t mem rs s)
  unfolding fork_space
  Fresh-Spaces _ e (Fresh.Copies.copied {pd} {s' = vm} k) =
      Copies-Spaces pd vm _ k refl
        (copy_regions-Copies rs pd mem vm s.fs.heap (s.memtab j).regions k.space
          (IsCopyable-less rs mem s.vm.mem.freelist vm.mem.freelist c k.less) asc)
        e
  Fresh-Spaces _ e (Fresh.Copies.starved b) = rw (fork_space, e) (no_directory b)

  pub fork_space-Spaces : Spaces t mem rs s (fork_space t mem rs s)
  fork_space-Spaces =
      Fresh-Spaces (copykvm s.kpagedir s.vm) refl (copykvm-Copies s.kpagedir s.vm free)
