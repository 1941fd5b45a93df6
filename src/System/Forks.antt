-- ===== src/System/Forks.antt =====
-- kernel/proc.c: the processes when one has made a child.
use trunix.Prelude.{
  ℕ, ◌+◌, ◌-◌, ◌<◌, ◌≡◌, ◌≢◌, refl, inl, inr, some, true, List, [], ◌∷◌, ◌++◌, arith, ◌∙◌, ap, sym,
  subst, ℕ_discrete, ◌&&◌, leb, ltb, Bool-cases, ◌⊎◌,
}
use trunix.Round.{kernel_offset, p2v, v2p}
use trunix.Block.{cover, inside}
use trunix.Sched.{Proc}
use trunix.Sched.Queue.{has, has-append}
use trunix.Vm.{Vm}
use trunix.Vm.Walk.{table, walk, IsSpace}
use trunix.Machine.{Region, Machine}
use trunix.Fork.Regions.{AllRegions}
use trunix.Fork.Image.{Sees}
use trunix.Fork.Whole.{IsPid, IsChild}
use trunix.System.{dir_of, IsProcess, Separate, IsSystem}
use trunix.System.Fixed.{
  Fixed, Fixed-walk, Fixed-IsSpace, Fixed-Separate, Separate-sym, same_table, present,
}

-- Whether an address of the child lies in a region.
Sees-cases :
    (rs : List Region) (s s' : Vm) (pd x : ℕ)
    → AllRegions (λ r. (i : ℕ) → i < r.len → Sees s s' pd (r.va + i) (p2v r.pa + i)) rs
    → ((src : ℕ) × Sees s s' pd x src) ⊎ AllRegions (λ r. inside x r.va r.len ≡ 0) rs
Sees-cases [] s s' pd x a = inr tt
Sees-cases (r ∷ rs) s s' pd x a = elim (Bool-cases (leb r.va x && ltb x (r.va + r.len))) [
  | inl y ↦
      let i = x - r.va in
      let at_x : r.va + i ≡ x = ground arith in
      inl (p2v r.pa + i, subst (λ z. Sees s s' pd z (p2v r.pa + i)) at_x (a.0 i (ground arith)))
  | inr n ↦ elim (Sees-cases rs s s' pd x a.1) [ inl w ↦ inl w | inr out ↦ inr (rw n refl, out) ]
]

module _ (rs : List Region) (t : ℕ) (s s' : Machine) (c : IsChild rs t s s') where
  pub kept-Fixed : (b : ℕ) → IsSpace b s.vm → Fixed b s.vm s'.vm
  kept-Fixed b v =
      let k = c.image.keeps in
      record {
        less = k.less;
        dir = λ j. k.words b j v.taken;
        tables = λ i j h p. k.words (table b i s.vm) j (v.table_taken i h p);
      }

  -- What the child maps was free, and is in use.
  child-walk :
      (x q : ℕ)
      → x < kernel_offset
      → walk s'.vm c.pd x ≡ some q
      → (0 < cover (p2v q) s.vm.mem.freelist) × (cover (p2v q) s'.vm.mem.freelist ≡ 0)
  child-walk x q h e = elim (Sees-cases rs s.vm s'.vm c.pd x c.image.sees) [
    | inl (src, z) ↦
        let same : z.pa ≡ q = cc (z.walks, e) in
        subst (λ k. (0 < cover (p2v k) s.vm.mem.freelist) × (cover (p2v k) s'.vm.mem.freelist ≡ 0))
          same (z.was_free, z.now_taken)
    | inr out ↦ cc (c.image.nothing x h out, e)
  ]

  child-Separate :
      (b : ℕ)
      → IsSpace b s.vm
      → ((y q : ℕ)
          → y < kernel_offset
          → walk s.vm b y ≡ some q
          → cover (p2v q) s.vm.mem.freelist ≡ 0)
      → Separate s'.vm c.pd b
  child-Separate b v used =
      let f = kept-Fixed b v in
      record {
        directory = c.image.apart b v.taken;
        tables = λ i h p.
            rw (same_table b s.vm s'.vm f i)
              (c.image.apart (table b i s.vm) (v.table_taken i h (present b s.vm s'.vm f i p)));
        memory = λ x y {pa} h k e e'.
            let was = child-walk x pa h e in
            let z = used y pa k (sym (Fixed-walk b s.vm s'.vm f y k) ∙ e') in
            absurd (omega (arith, was.0));
      }

  abbrev child : Proc
  child = s'.sched.procs t

  child_cr3 : child.cr3 ≡ v2p c.pd
  child_cr3 = ap (λ p. p.cr3) c.child.rest

  child_dir : dir_of s' t ≡ c.pd
  child_dir = ap p2v child_cr3 ∙ c.image.names

  child-IsProcess : IsPid s.sched.next_pid → IsProcess s'.vm t child.cr3 child.mmap_base child.pid
  child-IsProcess n =
      let base : child.mmap_base ≡ 0 = ap (λ p. p.mmap_base) c.child.rest in
      let pid : child.pid ≡ s.sched.next_pid = ap (λ p. p.pid) c.child.rest in
      record {
        space = subst (λ d. IsSpace d s'.vm) (sym child_dir) c.image.space;
        aligned = rw base refl;
        user = omega (arith, base);
        named = rw pid n;
        stands = c.now_taken;
        in_use =
            λ x {pa = q} h e. (child-walk x q h (ap (λ d. walk s'.vm d x) (sym child_dir) ∙ e)).1;
      }

  module _ (ts : List ℕ) (v : IsSystem ts s) where
    not_child : (u : ℕ) → has u ts ≡ true → u ≢ t
    not_child u h e =
        let z = (v.process u h).stands in
        let f : 0 < cover u s.vm.mem.freelist = rw e c.was_free in absurd (omega arith)

    pub same_dir_old : (u : ℕ) → has u ts ≡ true → dir_of s' u ≡ dir_of s u
    same_dir_old u h = ap (λ p. p2v p.cr3) (c.others u (not_child u h))

    old-Fixed : (u : ℕ) → has u ts ≡ true → Fixed (dir_of s u) s.vm s'.vm
    old-Fixed u h = kept-Fixed (dir_of s u) (v.process u h).space

    old-IsProcess :
        (u : ℕ)
        → has u ts ≡ true
        → IsProcess s'.vm u
            (s'.sched.procs u).cr3
            (s'.sched.procs u).mmap_base
            (s'.sched.procs u).pid
    old-IsProcess u h =
        let p = v.process u h in
        let f = old-Fixed u h in
        subst (λ p. IsProcess s'.vm u p.cr3 p.mmap_base p.pid) (sym (c.others u (not_child u h)))
          (record {
            space = Fixed-IsSpace (dir_of s u) s.vm s'.vm f c.image.space.free p.space;
            aligned = p.aligned;
            user = p.user;
            named = p.named;
            stands = omega (arith, p.stands, c.image.keeps.less u);
            in_use = λ x {pa = q} k e. omega (
              arith,
              c.image.keeps.less (p2v q),
              p.in_use x k (sym (Fixed-walk (dir_of s u) s.vm s'.vm f x k) ∙ e),
            );
          })

    with_child : (u : ℕ) → has u ts ≡ true → Separate s'.vm c.pd (dir_of s u)
    with_child u h =
        child-Separate (dir_of s u) (v.process u h).space (λ y q k e. (v.process u h).in_use y k e)

    -- A thread of the longer list is the child or an old one.
    old_one : (u : ℕ) → u ≢ t → has u (t ∷ ts) ≡ true → has u ts ≡ true
    old_one u ne h = ground arith

    apart_now :
        (u w : ℕ)
        → has u (t ∷ ts) ≡ true
        → has w (t ∷ ts) ≡ true
        → u ≢ w
        → Separate s'.vm (dir_of s' u) (dir_of s' w)
    apart_now u w h k ne = elim (ℕ_discrete u t) [
      | yes e ↦
          let kw = old_one w (λ e'. ne (e ∙ sym e')) k in
          rw (same_dir_old w kw) (
            subst (λ d. Separate s'.vm d (dir_of s w)) (sym (ap (dir_of s') e ∙ child_dir))
              (with_child w kw))
      | no nu ↦
          let hu = old_one u nu h in
          elim (ℕ_discrete w t) [
            | yes e ↦ rw (same_dir_old u hu) (
                subst (λ d. Separate s'.vm (dir_of s u) d) (sym (ap (dir_of s') e ∙ child_dir))
                  (Separate-sym c.pd (dir_of s u) s'.vm c.image.space (with_child u hu)))
            | no nw ↦
                let kw = old_one w nw k in
                rw (same_dir_old u hu, same_dir_old w kw)
                  (Fixed-Separate (dir_of s u) (dir_of s w) s.vm s'.vm (old-Fixed u hu)
                    (old-Fixed w kw) (v.separate u w hu kw ne))
          ]
    ]

    pub forked-IsSystem : IsPid s.sched.next_pid → IsSystem (t ∷ ts) s'
    forked-IsSystem n = record {
      heap = c.heap;
      live = λ u h.
          let h' : has u (s.sched.curthread ∷ s.sched.queue ++ t ∷ []) ≡ true =
            rw (c.runs, c.queue) at h in
          let i = v.live u in ground (arith, has-append u s.sched.queue t, i);
      process = λ u h. elim (ℕ_discrete u t) [
        | yes e ↦
            subst
              (λ z.
                IsProcess s'.vm z (s'.sched.procs z).cr3 (s'.sched.procs z).mmap_base
                  (s'.sched.procs z).pid)
              (sym e) (child-IsProcess n)
        | no ne ↦ old-IsProcess u (old_one u ne h)
      ];
      separate = apart_now;
    }
