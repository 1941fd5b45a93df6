-- ===== src/Fork/Image.antt =====
-- kernel/proc.c: `sys_fork` when the child has its stack and its pid.
use trunix.Prelude.{
  ℕ, ◌+◌, ◌%◌, ◌^◌, ◌<◌, ◌≤◌, ◌≡◌, ◌≢◌, refl, Option, none, some, List, [], ◌∷◌, ◌++◌, arith, ◌∙◌,
}
use trunix.Round.{page, kernel_offset, pg_roundup, v2p, p2v}
use trunix.Block.{cover, inside}
use trunix.Pages.{Mem, alloc_pages}
use trunix.Pages.Cover.{AllBelow}
use trunix.Pages.Free.{IsFree, Grants, refused, granted, alloc_pages-Grants}
use trunix.KHeap.Alloc.{Ascending}
use trunix.Sched.{running}
use trunix.Vm.{Vm}
use trunix.Vm.Walk.{walk, IsSpace}
use trunix.Vm.Keeps.{Keeps}
use trunix.Vm.Range.{Outside}
use trunix.Machine.{Region, Machine, memmap_of, current, set_mem}
use trunix.Fork.{Forked, fails, forks, fork_child}
use trunix.Fork.Regions.{
  AllRegions, AllRegions-map, AllRegions-zip, Apart, IsUser, IsCopyable, total_len,
}
use trunix.Fork.Space.{HasSpace}
use trunix.Fork.Thread.{Inherits, Copying, child_of}
use trunix.Fork.Child.{Spaces, spaced, no_directory, no_space, no_descriptors, fork_space-Spaces}

-- The space `pd` of `s'` has at `x` what `s` has at the kernel's address `src`, in memory that was free.
pub record Sees (s s' : Vm) (pd x src : ℕ) : Type 0 where
  pub pa : ℕ
  pub walks : walk s' pd x ≡ some pa
  pub was_free : 0 < cover (p2v pa) s.mem.freelist
  pub now_taken : cover (p2v pa) s'.mem.freelist ≡ 0
  pub byte : s'.mem.byte (p2v pa) ≡ s.mem.byte src

-- The regions of a process, and `sz`, the bytes that its image takes.
pub record IsImage (rs : List Region) (sz : ℕ) (s : Vm) : Type 0 where
  pub user : AllRegions IsUser rs
  pub apart : Apart rs
  pub taken : AllRegions (λ r. (i : ℕ) → i < r.len → cover (p2v r.pa + i) s.mem.freelist ≡ 0) rs
  pub some_size : 0 < sz
  pub small : sz + 0xfff < 2 ^ 32
  pub fits : total_len rs ≤ pg_roundup sz

-- The space of the child is its own: it reads in each region as its parent's memory, has nothing else
-- below the kernel, and nothing that was in use is changed.
pub record HasImage (pd kpd : ℕ) (rs : List Region) (s s' : Vm) : Type 0 where
  pub space : IsSpace pd s'
  pub sees : AllRegions (λ r. (i : ℕ) → i < r.len → Sees s s' pd (r.va + i) (p2v r.pa + i)) rs
  pub nothing :
      (x : ℕ)
      → x < kernel_offset
      → AllRegions (λ r. inside x r.va r.len ≡ 0) rs
      → walk s' pd x ≡ none
  pub kernel : (i : ℕ) → 512 ≤ i → i < 1024 → s'.word pd i ≡ s.word kpd i
  pub names : p2v (v2p pd) ≡ pd
  pub keeps : Keeps s s'
  pub apart : (q : ℕ) → cover q s.mem.freelist ≡ 0 → Outside pd s' q

pub record Forks (t : ℕ) (rs : List Region) (s s' : Machine) : Type 0 where
  pub pd : ℕ
  pub image : HasImage pd s.kpagedir rs s.vm s'.vm
  pub child : Inherits 0 (current s) (child_of t pd s) (s'.sched.procs t)
  pub files : Copying (current s) (s'.sched.procs t) 0 s.fs.files s'.fs.files
  pub others : (u : ℕ) → u ≢ t → s'.sched.procs u ≡ s.sched.procs u
  pub queue : s'.sched.queue ≡ s.sched.queue ++ t ∷ []
  pub runs : s'.sched.curthread ≡ s.sched.curthread
  pub next_pid : s'.sched.next_pid ≡ s.sched.next_pid
  pub heap : Ascending 0 s'.fs.heap.heap

pub data Forking (t : ℕ) (rs : List Region) (sz : ℕ) (s : Machine) : Option Forked → Type 0 where
  child_forks :
      {s' : Machine} → Forks t rs s s' → Forking t rs sz s (some (forks (s.sched.procs t).pid t s'))
  no_pages : AllBelow sz s.vm.mem.freelist → Forking t rs sz s (some (fails (set_mem s.vm.mem s)))
  no_child :
      (mem : ℕ) (m : Mem)
      → alloc_pages sz s.vm.mem ≡ some (some mem, m)
      → Spaces t mem rs (set_mem m s) none
      → Forking t rs sz s none

module _ (t : ℕ) (rs : List Region) (sz : ℕ) (s : Machine) (free : IsFree s.vm.mem)
    (im : IsImage rs sz s.vm) where
  module _ (a : ℕ) (m : Mem) (start : a % page ≡ 0) (high : kernel_offset ≤ a)
      (room : a + pg_roundup sz < 2 ^ 32)
      (less : (x : ℕ) → inside x a (pg_roundup sz) + cover x m.freelist ≤ cover x s.vm.mem.freelist)
      (kept : (x : ℕ) → cover x s.vm.mem.freelist ≡ 0 → m.byte x ≡ s.vm.mem.byte x) where
    -- What was in use is not in the pages of the child, and what is in them was free.
    apart_from : (x : ℕ) → cover x s.vm.mem.freelist ≡ 0 → inside x a (total_len rs) ≡ 0
    apart_from x e = ground (arith, less x, im.fits)

    was_free : (x : ℕ) → inside x a (total_len rs) ≡ 1 → 0 < cover x s.vm.mem.freelist
    was_free x e = ground (arith, less x, im.fits)

    copied_taken : (x : ℕ) → inside x a (total_len rs) ≡ 1 → cover x m.freelist ≡ 0
    copied_taken x e = ground (arith, less x, im.fits, free.once x)

    now_taken : (i : ℕ) → i < total_len rs → cover (a + i) m.freelist ≡ 0
    now_taken i h = ground (arith, less (a + i), im.fits, free.once (a + i))

    still_taken : (x : ℕ) → cover x s.vm.mem.freelist ≡ 0 → cover x m.freelist ≡ 0
    still_taken x e = omega (arith, less x)

    image-IsCopyable : IsCopyable rs a m.freelist
    image-IsCopyable = record {
      user = im.user;
      source = AllRegions-map rs (λ r f i h. still_taken (p2v r.pa + i) (f i h)) im.taken;
      other = AllRegions-map rs (λ r f i h. apart_from (p2v r.pa + i) (f i h)) im.taken;
      apart = im.apart;
      dest = now_taken;
      start = start;
      high = high;
      fits = omega (arith, im.fits);
    }

    HasSpace-HasImage :
        (pd : ℕ) (vm : Vm)
        → HasSpace s.kpagedir pd a rs (set_mem m s).vm vm
        → HasImage pd s.kpagedir rs s.vm vm
    HasSpace-HasImage pd vm h = record {
      space = h.space;
      sees =
          AllRegions-zip rs
            (λ r src rd i lt.
              let x = rd i lt in
              record {
                pa = x.pa;
                walks = x.walks;
                was_free = was_free (p2v x.pa) x.within;
                now_taken = omega (arith, h.less (p2v x.pa), copied_taken (p2v x.pa) x.within);
                byte = x.byte ∙ kept (p2v r.pa + i) (src i lt);
              })
            im.taken h.reads;
      nothing = h.nothing;
      kernel = h.kernel;
      names = h.names;
      keeps = record {
        less = λ x. omega (arith, h.less x, less x);
        bytes = λ x e. h.bytes x (still_taken x e) (apart_from x e) ∙ kept x e;
        words = λ q j e. h.words q j (still_taken q e);
      };
      apart = λ q e. h.apart q (still_taken q e);
    }

    Spaces-Forking :
        (o : Option Forked)
        → alloc_pages sz s.vm.mem ≡ some (some a, m)
        → Spaces t a rs (set_mem m s) o
        → Forking t rs sz s o
    Spaces-Forking _ e (spaced {s'} k) = child_forks (record {
      pd = k.pd;
      image = HasSpace-HasImage k.pd s'.vm k.space;
      child = k.child;
      files = k.files;
      others = k.others;
      queue = k.queue;
      runs = k.runs;
      next_pid = k.next_pid;
      heap = k.heap;
    })
    Spaces-Forking _ e (no_directory b) = no_child a m e (no_directory b)
    Spaces-Forking _ e (no_space pd vm acc k w) = no_child a m e (no_space pd vm acc k w)
    Spaces-Forking _ e (no_descriptors pd vm vm' acc acc' h h' k w g b) =
        no_child a m e (no_descriptors pd vm vm' acc acc' h h' k w g b)

  module _ (i j : ℕ) (mine : memmap_of (current s) ≡ some i) (listed : (s.memtab i).regions ≡ rs)
      (sized : (s.memtab i).sz ≡ some sz) (its : memmap_of (s.sched.procs t) ≡ some j)
      (asc : Ascending 0 s.fs.heap.heap) (r : (current s).state ≡ running) where
    Grants-Forking :
        (o : Option (Option ℕ × Mem))
        → alloc_pages sz s.vm.mem ≡ o
        → Grants sz s.vm.mem o
        → Forking t rs sz s (fork_child t s)
    unfolding fork_child
    Grants-Forking _ e (refused b) = rw (fork_child, mine) (rw sized (rw e (no_pages b)))
    Grants-Forking _ e (granted {a} {m'} f start high room less kept) =
        rw (fork_child, mine)
          (rw sized (
            rw (e, listed)
              (Spaces-Forking a m' start high room less kept _ e (
                fork_space-Spaces t a rs (set_mem m' s) j its f asc r
                  (image-IsCopyable a m' start high room less kept)))))

    pub fork_child-Forking : Forking t rs sz s (fork_child t s)
    fork_child-Forking =
        Grants-Forking (alloc_pages sz s.vm.mem) refl
          (alloc_pages-Grants sz s.vm.mem im.some_size im.small free)
