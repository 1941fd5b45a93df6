-- ===== src/Fs/Open.antt =====
-- What `sys_open` returns, and what it changes.
use trunix.Prelude.{
  ℕ, zero, suc, ◌+◌, ◌<◌, ◌≤◌, ◌≡◌, ◌≢◌, refl, inl, inr, Option, none, some, true, false, List, [],
  ◌∷◌, ◌++◌, ltb, ◌==◌, is_some, arith, Bool-cases, Option-cases, ap, sym, subst, ◌-◌,
  if◌then◌else◌, get_or, ==_refl,
}
use trunix.Prelude.Int.{ℤ, pos, negsuc}
use trunix.Text.{strcmp}
use trunix.Text.Compare.{IsText, strcmp_iff}
use trunix.KHeap.{KHeap, kmalloc}
use trunix.Sched.{running, Proc}
use trunix.Fs.{
  max_files, Dirent, Fs, Cdevs, same_text, find_entry, attach, taken, free_fd, Opened, fails, opens,
  Driver, no_inode, overruns, set_file, sys_open,
}

abbrev pub AllTexts : List Dirent → Type 0
AllTexts [] = Unit {0}
AllTexts (d ∷ ds) = IsText d.name × AllTexts ds

-- No entry has the name.
abbrev pub NoneNamed : List ℕ → List Dirent → Type 0
NoneNamed path [] = Unit {0}
NoneNamed path (d ∷ ds) = (d.name ≢ path) × NoneNamed path ds

-- The entry is the first one with the name.
pub record First (path : List ℕ) (ds : List Dirent) (d : Dirent) : Type 0 where
  pub before : List Dirent
  pub after : List Dirent
  pub split : ds ≡ before ++ d ∷ after
  pub named : d.name ≡ path
  pub others : NoneNamed path before

same_text-true : (s t : List ℕ) → IsText s → IsText t → same_text s t ≡ true → s ≡ t
same_text-true s t hs ht e = (strcmp_iff s t hs ht).0 (by_cases (strcmp s t) e)
  where
    by_cases : (z : ℤ) → (elim z [ pos n ↦ n == 0 | negsuc _ ↦ false ]) ≡ true → z ≡ pos 0
    by_cases (pos n) e = ground arith
    by_cases (negsuc n) e = cc

same_text-false : (s t : List ℕ) → IsText s → IsText t → same_text s t ≡ false → t ≢ s
same_text-false s t hs ht e same = cc (rw (same_text, (strcmp_iff s t hs ht).1 (sym same)) at e)

find_entry-First :
    (path : List ℕ) (ds : List Dirent) {d : Dirent}
    → IsText path
    → AllTexts ds
    → find_entry path ds ≡ some d
    → First path ds d
unfolding find_entry
find_entry-First path [] t a e = cc
find_entry-First path (x ∷ xs) {d} t a e = elim (Bool-cases (same_text path x.name)) [
  | inl s ↦
      let e' : x ≡ d = ground arith in
      subst (First path (x ∷ xs)) e' (record {
        before = [];
        after = xs;
        split = refl;
        named = sym (same_text-true path x.name t a.0 s);
        others = tt;
      })
  | inr n ↦
      let w = find_entry-First path xs {d = d} t a.1 (ground arith) in
      record {
        before = x ∷ w.before;
        after = w.after;
        split = ap (λ l. x ∷ l) w.split;
        named = w.named;
        others = (same_text-false path x.name t a.0 n, w.others);
      }
]

find_entry-none :
    (path : List ℕ) (ds : List Dirent)
    → IsText path
    → AllTexts ds
    → find_entry path ds ≡ none
    → NoneNamed path ds
unfolding find_entry
find_entry-none path [] t a e = tt
find_entry-none path (x ∷ xs) t a e = elim (Bool-cases (same_text path x.name)) [
  | inl s ↦ ground arith
  | inr n ↦ (same_text-false path x.name t a.0 n, find_entry-none path xs t a.1 (ground arith))
]

taken-below : (p : Proc) (fd : ℕ) → p.state ≡ running → taken p fd ≡ true → fd < max_files
taken-below p fd r t = ground arith

-- The lowest descriptor that is not in use, up to the field behind the descriptors.
free_fd_lem :
    (rounds : ℕ) (p : Proc) (fd : ℕ)
    → p.state ≡ running
    → fd + rounds ≡ suc max_files
    → 0 < rounds
    → (k : ℕ) × (free_fd rounds p fd ≡ some k)
      × (k ≤ max_files)
      × (taken p k ≡ false)
      × ((j : ℕ) → fd ≤ j → j < k → taken p j ≡ true)
unfolding free_fd
free_fd_lem zero p fd r e h = absurd (omega arith)
free_fd_lem (suc rounds) p fd r e h = elim (Bool-cases (taken p fd)) [
  | inl t ↦
      let lt = taken-below p fd r t in
      let (k, e', b, f, below) = free_fd_lem rounds p (fd + 1) r (omega arith) (omega arith) in
      (
        k,
        ground arith,
        b,
        f,
        λ j lo hi. elim (Bool-cases (j == fd)) [
          | inl s ↦ ground arith
          | inr n ↦ below j (ground arith) hi
        ],
      )
  | inr f ↦ (fd, ground arith, omega arith, f, λ j lo hi. absurd (omega arith))
]

-- A `struct file` at `f`, from the heap, with the entry's inode; all else is what it was.
pub record Holds (d : Dirent) (f : ℕ) (h : KHeap) (s s' : Fs) : Type 0 where
  pub file : (s'.files f).inode ≡ d.inode
  pub others : (g : ℕ) → g ≢ f → s'.files g ≡ s.files g
  pub heap : s'.heap ≡ h
  pub dir_tbl : s'.dir_tbl ≡ s.dir_tbl
  pub ino_tbl : s'.ino_tbl ≡ s.ino_tbl

-- The major number of the entry's inode; the tables begin with inode 2.
abbrev pub major_of : Dirent → Fs → ℕ
major_of d s = (get_or s.ino_tbl (d.inode - 2) no_inode).major

-- The file of an entry: it is given 12 bytes of the heap and then to the driver that the inode's major
-- number says. Else there are no 12 bytes, or no driver, or the driver goes wrong.
pub data Attaches (cdevs : Cdevs) (d : Dirent) (s : Fs) : Option (ℕ × Fs) → Type 0 where
  fails_assertion : kmalloc 12 s.heap ≡ none → Attaches cdevs d s none
  no_bytes : (h : KHeap) → kmalloc 12 s.heap ≡ some (none, h) → Attaches cdevs d s none
  no_driver : cdevs (major_of d s) ≡ none → Attaches cdevs d s none
  goes_wrong :
      (dev_open : Driver) (f : ℕ) (h : KHeap) (mid : Fs)
      → kmalloc 12 s.heap ≡ some (some f, h)
      → Holds d f h s mid
      → cdevs (major_of d s) ≡ some dev_open
      → dev_open f mid ≡ none
      → Attaches cdevs d s none
  attached :
      {f : ℕ} {s' : Fs} (dev_open : Driver) (h : KHeap) (mid : Fs)
      → kmalloc 12 s.heap ≡ some (some f, h)
      → Holds d f h s mid
      → cdevs (major_of d s) ≡ some dev_open
      → dev_open f mid ≡ some s'
      → Attaches cdevs d s (some (f, s'))

abbrev held : Dirent → ℕ → KHeap → Fs → Fs
held d f h s = record s {
  heap = h;
  files = λ a. if a == f then record { inode = d.inode; priv = (s.files f).priv } else s.files a;
}

held-Holds : (d : Dirent) (f : ℕ) (h : KHeap) (s : Fs) → Holds d f h s (held d f h s)
held-Holds d f h s = record {
  file = rw (==_refl f) refl;
  others = λ g ne. ground arith;
  heap = refl;
  dir_tbl = refl;
  ino_tbl = refl;
}

attach-Attaches : (cdevs : Cdevs) (d : Dirent) (s : Fs) → Attaches cdevs d s (attach cdevs d s)
unfolding attach
attach-Attaches cdevs d s = elim (Option-cases (kmalloc 12 s.heap)) [
  | inl n ↦ rw (attach, n) (fails_assertion n)
  | inr ((none, h), e) ↦ rw (attach, e) (no_bytes h e)
  | inr ((some f, h), e) ↦ elim (Option-cases (cdevs (major_of d s))) [
    | inl n ↦ rw (attach, e) (rw n (no_driver n))
    | inr (dev_open, c) ↦ elim (Option-cases (dev_open f (held d f h s))) [
      | inl n ↦
          rw (attach, e)
            (rw (c, n) (goes_wrong dev_open f h (held d f h s) e (held-Holds d f h s) c n))
      | inr (s', o) ↦
          rw (attach, e) (rw (c, o) (attached dev_open h (held d f h s) e (held-Holds d f h s) c o))
    ]
  ]
]

-- What `sys_open` of a running thread comes to.
pub data Opening (cdevs : Cdevs) (path : List ℕ) (p : Proc) (s : Fs) : Option Opened → Type 0 where
  missing : NoneNamed path s.dir_tbl → Opening cdevs path p s (some fails)
  unattached :
      {d : Dirent} → First path s.dir_tbl d → Attaches cdevs d s none → Opening cdevs path p s none
  opened :
      {d : Dirent} {fd f : ℕ} {s' : Fs}
      → First path s.dir_tbl d
      → Attaches cdevs d s (some (f, s'))
      → fd < max_files
      → p.ofile fd ≡ none
      → ((j : ℕ) → j < fd → is_some (p.ofile j) ≡ true)
      → Opening cdevs path p s (some (opens fd (set_file fd f p) s'))
  full :
      {d : Dirent} {f : ℕ} {s' : Fs}
      → First path s.dir_tbl d
      → Attaches cdevs d s (some (f, s'))
      → ((j : ℕ) → j < max_files → is_some (p.ofile j) ≡ true)
      → Opening cdevs path p s (some (overruns f s'))

taken-ofile : (p : Proc) (j : ℕ) → j < max_files → taken p j ≡ true → is_some (p.ofile j) ≡ true
taken-ofile p j h t = ground arith

free-ofile : (p : Proc) (j : ℕ) → j < max_files → taken p j ≡ false → p.ofile j ≡ none
free-ofile p j h t = ground arith

-- `sys_open` of a running thread returns -1 if no file has the name. Else it makes a file with the
-- inode of the first entry that has it, and has the driver of this inode's major number open it, or
-- goes wrong, for want of memory or of a driver. If a descriptor is free the thread gets the file
-- as the lowest one; if none is, it does not fail, but writes the file's address over the field
-- behind the descriptors, the thread's state.
pub sys_open-Opening :
    (cdevs : Cdevs) (path : List ℕ) (p : Proc) (s : Fs)
    → p.state ≡ running
    → IsText path
    → AllTexts s.dir_tbl
    → Opening cdevs path p s (sys_open cdevs path p s)
unfolding sys_open
sys_open-Opening cdevs path p s r t a = elim (Option-cases (find_entry path s.dir_tbl)) [
  | inl e ↦ rw (sys_open, e) (missing (find_entry-none path s.dir_tbl t a e))
  | inr (d, e) ↦
      let first = find_entry-First path s.dir_tbl {d = d} t a e in
      let (k, e', le, free, below) = free_fd_lem 17 p 0 r refl (omega arith) in
      elim (Option-cases (attach cdevs d s)) [
        | inl n ↦
            rw (sys_open, e)
              (rw (e', n)
                (unattached first (subst (Attaches cdevs d s) n (attach-Attaches cdevs d s))))
        | inr ((f, s'), y) ↦
            let w : Attaches cdevs d s (some (f, s')) =
              subst (Attaches cdevs d s) y (attach-Attaches cdevs d s) in
            elim (Bool-cases (ltb k max_files)) [
              | inl lt ↦
                  rw (sys_open, e)
                    (rw (e', y)
                      (rw lt (
                        opened first w (ground arith) (free-ofile p k (ground arith) free)
                          (λ j h. taken-ofile p j (ground arith) (below j (omega arith) h)))))
              | inr ge ↦
                  rw (sys_open, e)
                    (rw (e', y)
                      (rw ge (
                        full first w
                          (λ j h. taken-ofile p j h (below j (omega arith) (ground arith))))))
            ]
      ]
]
