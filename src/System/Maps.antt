-- ===== src/System/Maps.antt =====
-- kernel/mem.c: the other processes when one maps memory for itself.
use trunix.Prelude.{
  ℕ, ◌+◌, ◌-◌, ◌%◌, ◌<◌, ◌≡◌, ◌≢◌, inl, inr, some, true, List, ◌∷◌, ◌&&◌, ltb, leb, arith, ◌∙◌, ap,
  sym, subst, ℕ_discrete, Bool-cases,
}
use trunix.Round.{page, kernel_offset, p2v}
use trunix.Block.{cover}
use trunix.Sched.Queue.{has}
use trunix.Vm.Walk.{table, walk}
use trunix.Machine.{Machine, current}
use trunix.Mmap.Extend.{space_of, base_of, Extended}
use trunix.System.{dir_of, IsProcess, Separate, IsSystem}
use trunix.System.Fixed.{
  Fixed, Fixed-walk, Fixed-IsSpace, Fixed-Separate, Separate-sym, same_table, present,
}

module _ (size pa : ℕ) (s s' : Machine) (w : Extended size pa s s') (whole : size % page ≡ 0) where
  abbrev cur : ℕ
  cur = s.sched.curthread

  -- A space that is separate from that of the thread.
  pub Separate-Fixed : (b : ℕ) → Separate s.vm (space_of s) b → Fixed b s.vm s'.vm
  Separate-Fixed b z = record {
    less = w.less;
    dir = λ j. w.words b j z.directory;
    tables = λ i j h p. w.words (table b i s.vm) j (z.tables i h p);
  }

  -- What the thread has at `x`: a byte that was free, or what it had.
  data Has (x q : ℕ) : Type 0 where
    new : 0 < cover (p2v q) s.vm.mem.freelist → cover (p2v q) s'.vm.mem.freelist ≡ 0 → Has x q
    old : walk s.vm (space_of s) x ≡ some q → Has x q

  walk-Has : (x : ℕ) {q : ℕ} → x < kernel_offset → walk s'.vm (space_of s) x ≡ some q → Has x q
  walk-Has x {q} h e = elim (Bool-cases (leb (base_of s) x && ltb x (base_of s + size))) [
    | inl y ↦
        let i = x - base_of s in
        let lt : i < size = ground arith in
        let at_i : pa + i ≡ q = cc (rw y at (w.walks x h)) in
        new (subst (λ z. 0 < cover (p2v z) s.vm.mem.freelist) at_i (w.was_free i lt))
          (subst (λ z. cover (p2v z) s'.vm.mem.freelist ≡ 0) at_i (w.now_taken i lt))
    | inr n ↦ old (cc (rw n at (w.walks x h)))
  ]

  Has-apart :
      (b x y : ℕ) {q : ℕ}
      → Has x q
      → (walk s.vm b y ≡ some q → cover (p2v q) s.vm.mem.freelist ≡ 0)
      → (walk s.vm (space_of s) x ≡ some q → walk s.vm b y ≢ some q)
      → walk s.vm b y ≢ some q
  Has-apart b x y (new free taken) used apart e = let z = used e in absurd (omega arith)
  Has-apart b x y (old e1) used apart e = apart e1 e

  -- The thread's own space and another one.
  mapped-Separate :
      (b : ℕ)
      → Separate s.vm (space_of s) b
      → ((y q : ℕ)
          → y < kernel_offset
          → walk s.vm b y ≡ some q
          → cover (p2v q) s.vm.mem.freelist ≡ 0)
      → Separate s'.vm (space_of s) b
  mapped-Separate b z used =
      let f = Separate-Fixed b z in
      record {
        directory = w.outside b z.directory;
        tables = λ i h p.
            rw (same_table b s.vm s'.vm f i)
              (w.outside (table b i s.vm) (z.tables i h (present b s.vm s'.vm f i p)));
        memory = λ x y h k e e'.
            Has-apart b x y (walk-Has x h e) (used y _ k) (z.memory x y h k)
              (sym (Fixed-walk b s.vm s'.vm f y k) ∙ e');
      }

  same_cur : s'.sched.curthread ≡ cur
  same_cur = ap (λ z. z.curthread) w.sched

  cur_proc : s'.sched.procs cur ≡ record (current s) { mmap_base = base_of s + size }
  cur_proc = ap s'.sched.procs (sym same_cur) ∙ w.moved

  pub same_dir : (t : ℕ) → dir_of s' t ≡ dir_of s t
  same_dir t = elim (ℕ_discrete t cur) [
    | yes e ↦
        ap (λ u. p2v (s'.sched.procs u).cr3) e
        ∙ ap (λ p. p2v p.cr3) cur_proc
        ∙ ap (λ u. p2v (s.sched.procs u).cr3) (sym e)
    | no ne ↦ ap (λ p. p2v p.cr3) (w.others t ne)
  ]

  module _ (ts : List ℕ) (v : IsSystem ts s) where
    mine : has cur ts ≡ true
    mine = v.live cur (ground arith)

    cur-IsProcess : IsProcess s'.vm cur (current s).cr3 (base_of s + size) (current s).pid
    cur-IsProcess =
        let p = v.process cur mine in
        record {
          space = w.space;
          aligned = omega (arith, p.aligned);
          user = omega (arith, w.below);
          named = p.named;
          stands = omega (arith, p.stands, w.less cur);
          in_use = λ x {pa = q} h e. used x q h (walk-Has x h e);
        }
      where
        used : (x q : ℕ) → x < kernel_offset → Has x q → cover (p2v q) s'.vm.mem.freelist ≡ 0
        used x q h (new free taken) = taken
        used x q h (old e) = omega (arith, w.less (p2v q), (v.process cur mine).in_use x h e)

    other-Fixed : (t : ℕ) → t ≢ cur → has t ts ≡ true → Fixed (dir_of s t) s.vm s'.vm
    other-Fixed t ne h = Separate-Fixed (dir_of s t) (v.separate cur t mine h (λ e. ne (sym e)))

    other-IsProcess :
        (t : ℕ)
        → t ≢ cur
        → has t ts ≡ true
        → IsProcess s'.vm t (s.sched.procs t).cr3 (s.sched.procs t).mmap_base (s.sched.procs t).pid
    other-IsProcess t ne h =
        let p = v.process t h in
        let f = other-Fixed t ne h in
        record {
          space = Fixed-IsSpace (dir_of s t) s.vm s'.vm f w.space.free p.space;
          aligned = p.aligned;
          user = p.user;
          named = p.named;
          stands = omega (arith, p.stands, w.less t);
          in_use = λ x {pa = q} k e. omega (
            arith,
            w.less (p2v q),
            p.in_use x k (sym (Fixed-walk (dir_of s t) s.vm s'.vm f x k) ∙ e),
          );
        }

    pub mapped-IsProcess :
        (t : ℕ)
        → has t ts ≡ true
        → IsProcess s'.vm t
            (s'.sched.procs t).cr3
            (s'.sched.procs t).mmap_base
            (s'.sched.procs t).pid
    mapped-IsProcess t h = elim (ℕ_discrete t cur) [
      | yes e ↦
          subst
            (λ u.
              IsProcess s'.vm u (s'.sched.procs u).cr3 (s'.sched.procs u).mmap_base
                (s'.sched.procs u).pid)
            (sym e)
            (subst (λ p. IsProcess s'.vm cur p.cr3 p.mmap_base p.pid) (sym cur_proc) cur-IsProcess)
      | no ne ↦
          subst (λ p. IsProcess s'.vm t p.cr3 p.mmap_base p.pid) (sym (w.others t ne))
            (other-IsProcess t ne h)
    ]

    with_cur : (u : ℕ) → u ≢ cur → has u ts ≡ true → Separate s'.vm (space_of s) (dir_of s u)
    with_cur u ne h =
        mapped-Separate (dir_of s u) (v.separate cur u mine h (λ e. ne (sym e)))
          (λ y q k e. (v.process u h).in_use y k e)

    apart_still :
        (t u : ℕ)
        → has t ts ≡ true
        → has u ts ≡ true
        → t ≢ u
        → Separate s'.vm (dir_of s t) (dir_of s u)
    apart_still t u h k ne = elim (ℕ_discrete t cur) [
      | yes e ↦
          subst (λ z. Separate s'.vm (dir_of s z) (dir_of s u)) (sym e)
            (with_cur u (λ e'. ne (e ∙ sym e')) k)
      | no nt ↦ elim (ℕ_discrete u cur) [
        | yes e ↦
            subst (λ z. Separate s'.vm (dir_of s t) (dir_of s z)) (sym e)
              (Separate-sym (space_of s) (dir_of s t) s'.vm w.space (with_cur t nt h))
        | no nu ↦
            Fixed-Separate (dir_of s t) (dir_of s u) s.vm s'.vm (other-Fixed t nt h)
              (other-Fixed u nu k) (v.separate t u h k ne)
      ]
    ]

    pub mapped-IsSystem : IsSystem ts s'
    mapped-IsSystem = record {
      heap = w.heap;
      live = λ t h. v.live t (subst (λ z. has t (z.curthread ∷ z.queue) ≡ true) w.sched h);
      process = mapped-IsProcess;
      separate = λ t u h k ne. rw (same_dir t, same_dir u) (apart_still t u h k ne);
    }
