-- ===== src/Fork/Thread.antt =====
-- kernel/proc.c: the thread of the child of `sys_fork`, and its descriptors.
use trunix.Prelude.{
  ℕ, zero, suc, ◌+◌, ◌<◌, ◌≤◌, ◌≡◌, ◌≢◌, refl, inl, inr, Option, none, some, [], ◌∷◌, ◌++◌, true,
  false, is_some, arith, ◌∙◌, ap, Option-cases, ==_refl, ℕ_discrete,
}
use trunix.Round.{v2p}
use trunix.Pages.Cover.{AllBelow}
use trunix.KHeap.{KHeap, kmalloc, slot_size}
use trunix.KHeap.Alloc.{Ascending, Mallocs, kmalloc_lem}
use trunix.KHeap.Alloc
use trunix.Sched.{running, Proc, enqueue}
use trunix.Fs.{Fs, File, max_files, taken, set_file}
use trunix.Machine.{Machine, current, set_proc}
use trunix.Fork.{Forked, forks, copy_files, fork_thread}

-- The descriptors from `fd` on up to the first that the thread `p` does not have, at `stop`, are
-- new ones of `c'`; the others are those of `c`, and so is all else.
pub record Inherits (fd : ℕ) (p c c' : Proc) : Type 0 where
  pub stop : ℕ
  pub from : fd ≤ stop
  pub to : stop ≤ max_files
  pub all : (j : ℕ) → fd ≤ j → j < stop → is_some (p.ofile j) ≡ true
  pub ends : stop < max_files → p.ofile stop ≡ none
  pub has : (j : ℕ) → fd ≤ j → j < stop → is_some (c'.ofile j) ≡ true
  pub before : (j : ℕ) → j < fd → c'.ofile j ≡ c.ofile j
  pub after : (j : ℕ) → stop ≤ j → c'.ofile j ≡ c.ofile j
  pub rest : c' ≡ record c { ofile = c'.ofile }

-- The second heap is the first after some calls of `kmalloc` for a `struct file`.
pub data Grabs : KHeap → KHeap → Type 0 where
  at_once : {h : KHeap} → Grabs h h
  then_on : {h h1 h2 : KHeap} {a : ℕ} → kmalloc 12 h ≡ some (some a, h1) → Grabs h1 h2 → Grabs h h2

-- From the descriptor `fd` on, file by file: the file of `c'` is given what that of `p` holds then.
pub data Copying (p c' : Proc) : ℕ → (ℕ → File) → (ℕ → File) → Type 0 where
  ended :
      {fd : ℕ} {m m' : ℕ → File}
      → m ≡ m'
      → (fd < max_files → p.ofile fd ≡ none)
      → Copying p c' fd m m'
  copied :
      {fd : ℕ} {m m1 m' : ℕ → File} (f g : ℕ)
      → p.ofile fd ≡ some f
      → c'.ofile fd ≡ some g
      → m1 g ≡ m f
      → ((a : ℕ) → a ≢ g → m1 a ≡ m a)
      → Copying p c' (fd + 1) m1 m'
      → Copying p c' fd m m'

pub data CopiesFiles (fd : ℕ) (p c : Proc) (s : Fs) : Option (Proc × Fs) → Type 0 where
  inherits :
      {c' : Proc} {s' : Fs}
      → Inherits fd p c c'
      → Copying p c' fd s.files s'.files
      → Ascending 0 s'.heap.heap
      → CopiesFiles fd p c s (some (c', s'))
  no_memory :
      (h : KHeap) → Grabs s.heap h → AllBelow (slot_size 12) h.heap → CopiesFiles fd p c s none

Inherits-none :
    (fd : ℕ) (p c : Proc)
    → fd ≤ max_files
    → (fd < max_files → p.ofile fd ≡ none)
    → Inherits fd p c c
Inherits-none fd p c le e = record {
  stop = fd;
  from = omega arith;
  to = le;
  all = λ j a b. absurd (omega arith);
  ends = e;
  has = λ j a b. absurd (omega arith);
  before = λ j a. refl;
  after = λ j a. refl;
  rest = refl;
}

Inherits-suc :
    (fd g : ℕ) (p c c' : Proc) {f : ℕ}
    → p.ofile fd ≡ some f
    → Inherits (fd + 1) p (set_file fd g c) c'
    → Inherits fd p c c'
Inherits-suc fd g p c c' e n = record {
  stop = n.stop;
  from = omega (arith, n.from);
  to = n.to;
  all = λ j a b. elim (ℕ_discrete j fd) [
    | yes q ↦ ap is_some (ap p.ofile q ∙ e)
    | no q ↦ n.all j (omega arith) b
  ];
  ends = n.ends;
  has = λ j a b. elim (ℕ_discrete j fd) [
    | yes q ↦
        let pick : (set_file fd g c).ofile j ≡ some g = ground arith in
        ap is_some (n.before j (omega arith) ∙ pick)
    | no q ↦ n.has j (omega arith) b
  ];
  before = λ j a. n.before j (omega arith) ∙ ground arith;
  after = λ j a. let le = n.from in n.after j a ∙ ground arith;
  rest = n.rest;
}

CopiesFiles-suc :
    (fd g : ℕ) (p c : Proc) (s s' : Fs) (o : Option (Proc × Fs)) {f : ℕ}
    → p.ofile fd ≡ some f
    → kmalloc 12 s.heap ≡ some (some g, s'.heap)
    → s'.files g ≡ s.files f
    → ((a : ℕ) → a ≢ g → s'.files a ≡ s.files a)
    → CopiesFiles (fd + 1) p (set_file fd g c) s' o
    → CopiesFiles fd p c s o
CopiesFiles-suc fd g p c s s' _ {f} e k at_g out (inherits {c'} n m asc) =
    let pick : (set_file fd g c).ofile fd ≡ some g = rw (==_refl fd) refl in
    inherits (Inherits-suc fd g p c c' e n)
      (copied f g e (n.before fd (omega arith) ∙ pick) at_g out m) asc
CopiesFiles-suc fd g p c s s' _ e k at_g out (no_memory h w b) = no_memory h (then_on k w) b

module _ (p : Proc) (runs : p.state ≡ running) where
  copy_files-stop :
      (fd : ℕ) (c : Proc) (s : Fs) → fd ≡ max_files → copy_files 0 fd p c s ≡ some (c, s)
  unfolding copy_files
  copy_files-stop fd c s e = let t : taken p fd ≡ false = ground arith in rw t refl

  Mallocs-CopiesFiles :
      (rounds fd f : ℕ) (c : Proc) (s : Fs) (o : Option (Option ℕ × KHeap))
      → p.ofile fd ≡ some f
      → kmalloc 12 s.heap ≡ o
      → Mallocs 12 s.heap o
      → ((g : ℕ) (s' : Fs)
          → Ascending 0 s'.heap.heap
          → CopiesFiles
              (fd + 1)
              p
              (set_file fd g c)
              s'
              (copy_files rounds (fd + 1) p (set_file fd g c) s'))
      → CopiesFiles fd p c s (copy_files (suc rounds) fd p c s)
  unfolding copy_files
  Mallocs-CopiesFiles rounds fd f c s _ e k (Alloc.Mallocs.refused b) next =
      rw (copy_files, e) (rw k (no_memory s.heap at_once b))
  Mallocs-CopiesFiles rounds fd f c s _ e k (Alloc.Mallocs.granted q n {h'} _ _ _ asc _) next =
      rw (copy_files, e)
        (rw k (
          CopiesFiles-suc fd (q + 2) p c s _ _ e k (rw (==_refl (q + 2)) refl)
            (λ a ne. ground arith) (next (q + 2) _ asc)))

  pub copy_files-CopiesFiles :
      (rounds fd : ℕ) (c : Proc) (s : Fs)
      → fd + rounds ≡ max_files
      → Ascending 0 s.heap.heap
      → CopiesFiles fd p c s (copy_files rounds fd p c s)
  unfolding copy_files
  copy_files-CopiesFiles zero fd c s e asc = rw (copy_files-stop fd c s (omega arith)) (
      inherits (Inherits-none fd p c (omega arith) (λ lt. absurd (omega arith)))
        (ended refl (λ lt. absurd (omega arith))) asc)
  copy_files-CopiesFiles (suc rounds) fd c s e asc = elim (Option-cases (p.ofile fd)) [
    | inl n ↦
        rw (copy_files, n)
          (inherits (Inherits-none fd p c (omega arith) (λ lt. n)) (ended refl (λ lt. n)) asc)
    | inr (f, y) ↦
        Mallocs-CopiesFiles rounds fd f c s _ y refl (kmalloc_lem 12 s.heap (omega arith) asc)
          (λ g s' a. copy_files-CopiesFiles rounds (fd + 1) (set_file fd g c) s' (omega arith) a)
  ]

abbrev pub child_of : ℕ → ℕ → Machine → Proc
child_of t pd s = record (s.sched.procs t) {
  parent = s.sched.curthread;
  cr3 = v2p pd;
  tf = record (current s).tf { eax = 0 };
}

-- The thread `t` is a child of the one that runs, at the end of the queue; the memory is what it was.
pub record Joins (t pd : ℕ) (s s' : Machine) : Type 0 where
  pub child : Inherits 0 (current s) (child_of t pd s) (s'.sched.procs t)
  pub files : Copying (current s) (s'.sched.procs t) 0 s.fs.files s'.fs.files
  pub others : (u : ℕ) → u ≢ t → s'.sched.procs u ≡ s.sched.procs u
  pub queue : s'.sched.queue ≡ s.sched.queue ++ t ∷ []
  pub runs : s'.sched.curthread ≡ s.sched.curthread
  pub next_pid : s'.sched.next_pid ≡ s.sched.next_pid
  pub vm : s'.vm ≡ s.vm
  pub memtab : s'.memtab ≡ s.memtab
  pub heap : Ascending 0 s'.fs.heap.heap

pub data Joined (t pd : ℕ) (s : Machine) : Option Forked → Type 0 where
  joins : {s' : Machine} → Joins t pd s s' → Joined t pd s (some (forks (s.sched.procs t).pid t s'))
  no_files : (h : KHeap) → Grabs s.fs.heap h → AllBelow (slot_size 12) h.heap → Joined t pd s none

abbrev joined : ℕ → Proc → Fs → Machine → Machine
joined t c fs s =
    let s' = set_proc t c (record s { fs = fs }) in
    record s' { sched = record s'.sched { queue = s.sched.queue ++ t ∷ [] } }

CopiesFiles-Joined :
    (t pd : ℕ) (s : Machine) (o : Option (Proc × Fs))
    → CopiesFiles 0 (current s) (child_of t pd s) s.fs o
    → Joined t pd s (elim o [
      | none ↦ none
      | some (c, fs) ↦ some (forks (s.sched.procs t).pid t (joined t c fs s))
    ])
CopiesFiles-Joined t pd s _ (inherits {c'} {s' = fs} n m asc) = joins (record {
  child = rw (==_refl t) n;
  files = rw (==_refl t) m;
  others = λ u ne. ground arith;
  queue = refl;
  runs = refl;
  next_pid = refl;
  vm = refl;
  memtab = refl;
  heap = asc;
})
CopiesFiles-Joined t pd s _ (no_memory h w b) = no_files h w b

pub fork_thread-Joined :
    (t pd : ℕ) (s : Machine)
    → (current s).state ≡ running
    → Ascending 0 s.fs.heap.heap
    → Joined t pd s (fork_thread t pd s)
unfolding fork_thread enqueue
fork_thread-Joined t pd s r asc =
    CopiesFiles-Joined t pd s _
      (copy_files-CopiesFiles (current s) r max_files 0 (child_of t pd s) s.fs refl asc)
