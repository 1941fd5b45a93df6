-- ===== src/System/Fails.antt =====
-- kernel/proc.c: the processes when a fork has returned -1.
use trunix.Prelude.{ℕ, ◌≡◌, ◌≢◌, true, List, arith, ap, sym, subst, ◌∙◌, ◌<◌}
use trunix.Round.{p2v}
use trunix.Block.{cover}
use trunix.Sched.Queue.{has}
use trunix.Vm.Walk.{table, IsSpace}
use trunix.Machine.{Machine}
use trunix.Fork.Whole.{Leaves}
use trunix.System.{dir_of, IsProcess, IsSystem}
use trunix.System.Fixed.{Fixed, Fixed-walk, Fixed-IsSpace, Fixed-Separate}

module _ (t : ℕ) (s s' : Machine) (c : Leaves t s s') where
  pub left-Fixed : (b : ℕ) → IsSpace b s.vm → Fixed b s.vm s'.vm
  left-Fixed b v = record {
    less = c.keeps.less;
    dir = λ j. c.keeps.words b j v.taken;
    tables = λ i j h p. c.keeps.words (table b i s.vm) j (v.table_taken i h p);
  }

  module _ (ts : List ℕ) (v : IsSystem ts s) where
    not_new : (u : ℕ) → has u ts ≡ true → u ≢ t
    not_new u h e =
        let z = (v.process u h).stands in
        let f : 0 < cover u s.vm.mem.freelist = rw e c.was_free in absurd (omega arith)

    pub same_dir_left : (u : ℕ) → has u ts ≡ true → dir_of s' u ≡ dir_of s u
    same_dir_left u h = ap (λ p. p2v p.cr3) (c.others u (not_new u h))

    left-IsProcess :
        (u : ℕ)
        → has u ts ≡ true
        → IsProcess s'.vm u
            (s'.sched.procs u).cr3
            (s'.sched.procs u).mmap_base
            (s'.sched.procs u).pid
    left-IsProcess u h =
        let p = v.process u h in
        let f = left-Fixed (dir_of s u) p.space in
        subst (λ p. IsProcess s'.vm u p.cr3 p.mmap_base p.pid) (sym (c.others u (not_new u h)))
          (record {
            space = Fixed-IsSpace (dir_of s u) s.vm s'.vm f c.free p.space;
            aligned = p.aligned;
            user = p.user;
            named = p.named;
            stands = omega (arith, p.stands, c.keeps.less u);
            in_use = λ x {pa = q} k e. omega (
              arith,
              c.keeps.less (p2v q),
              p.in_use x k (sym (Fixed-walk (dir_of s u) s.vm s'.vm f x k) ∙ e),
            );
          })

    pub left-IsSystem : IsSystem ts s'
    left-IsSystem = record {
      heap = c.heap;
      live = λ u h. v.live u (rw (c.runs, c.queue) at h);
      process = left-IsProcess;
      separate = λ u w h k ne.
          rw (same_dir_left u h, same_dir_left w k)
            (Fixed-Separate (dir_of s u) (dir_of s w) s.vm s'.vm
              (left-Fixed (dir_of s u) (v.process u h).space)
              (left-Fixed (dir_of s w) (v.process w k).space) (v.separate u w h k ne));
    }
