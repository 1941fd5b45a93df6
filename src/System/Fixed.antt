-- ===== src/System/Fixed.antt =====
-- A space that a change of the machine does not touch.
use trunix.Prelude.{ℕ, ◌-◌, ◌%◌, ◌<◌, ◌≤◌, ◌≡◌, ◌≢◌, refl, arith, sym, ◌∙◌, ap, ℕ_discrete}
use trunix.Round.{kernel_offset, p2v}
use trunix.Block.{cover}
use trunix.Pages.Free.{IsFree}
use trunix.Vm.{Vm}
use trunix.Vm.Walk.{dir_index, table_index, table, walk, IsSpace, walk-translate, translate_absent}
use trunix.Vm.Range.{Outside}
use trunix.System.{Separate}

-- The entries of the directory `b` and of its tables are the same, and nothing has become free.
pub record Fixed (b : ℕ) (s s' : Vm) : Type 0 where
  pub less : (x : ℕ) → cover x s'.mem.freelist ≤ cover x s.mem.freelist
  pub dir : (j : ℕ) → s'.word b j ≡ s.word b j
  pub tables :
      (i j : ℕ) → i < 512 → s.word b i % 2 ≢ 0 → s'.word (table b i s) j ≡ s.word (table b i s) j

module _ (b : ℕ) (s s' : Vm) (f : Fixed b s s') where
  pub same_table : (i : ℕ) → table b i s' ≡ table b i s
  same_table i = ap (λ w. p2v (w - w % 0x1000)) (f.dir i)

  pub present : (i : ℕ) → s'.word b i % 2 ≢ 0 → s.word b i % 2 ≢ 0
  present i p = rw (f.dir i) at p

  pub Fixed-walk : (x : ℕ) → x < kernel_offset → walk s' b x ≡ walk s b x
  Fixed-walk x h =
      let e = f.dir (dir_index x) in
      let t = same_table (dir_index x) in
      elim (ℕ_discrete (s.word b (dir_index x) % 2) 0) [
        | yes z ↦
            walk-translate s' b x _ _ _ e refl refl
            ∙ translate_absent (s.word b (dir_index x)) _ x z
            ∙ sym (
                walk-translate s b x _ _ _ refl refl refl
                ∙ translate_absent (s.word b (dir_index x)) _ x z)
        | no z ↦
            walk-translate s' b x _ _ _ e t (f.tables (dir_index x) (table_index x) (omega arith) z)
            ∙ sym (walk-translate s b x _ _ _ refl refl refl)
      ]

  pub Fixed-IsSpace : IsFree s'.mem → IsSpace b s → IsSpace b s'
  Fixed-IsSpace free v = record {
    free = free;
    taken = omega (arith, f.less b, v.taken);
    small = λ i h p. rw (f.dir i) (v.small i h (present i p));
    table_taken = λ i h p.
        rw (same_table i) (omega (arith, f.less (table b i s), v.table_taken i h (present i p)));
    table_ne = λ i h p. rw (same_table i) (v.table_ne i h (present i p));
    apart = λ i j h k ne p q.
        rw (same_table i, same_table j) (v.apart i j h k ne (present i p) (present j q));
  }

  pub Fixed-Outside : (q : ℕ) → Outside b s q → Outside b s' q
  Fixed-Outside q o = record {
    taken = omega (arith, f.less q, o.taken);
    ne_dir = o.ne_dir;
    ne_table = λ i h p. rw (same_table i) (o.ne_table i h (present i p));
  }

pub Fixed-Separate :
    (a b : ℕ) (s s' : Vm) → Fixed a s s' → Fixed b s s' → Separate s a b → Separate s' a b
Fixed-Separate a b s s' f g z = record {
  directory = Fixed-Outside a s s' f b z.directory;
  tables = λ i h p.
      rw (same_table b s s' g i)
        (Fixed-Outside a s s' f (table b i s) (z.tables i h (present b s s' g i p)));
  memory = λ x y h k e e'.
      z.memory x y h k (sym (Fixed-walk a s s' f x h) ∙ e) (sym (Fixed-walk b s s' g y k) ∙ e');
}

-- What is separate from `a` is so the other way around.
pub Separate-sym : (a b : ℕ) (s : Vm) → IsSpace a s → Separate s a b → Separate s b a
Separate-sym a b s v z = record {
  directory = record {
    taken = v.taken;
    ne_dir = λ e. z.directory.ne_dir (sym e);
    ne_table = λ i h p e. (z.tables i h p).ne_dir (sym e);
  };
  tables = λ i h p. record {
    taken = v.table_taken i h p;
    ne_dir = λ e. z.directory.ne_table i h p (sym e);
    ne_table = λ j k q e. (z.tables j k q).ne_table i h p (sym e);
  };
  memory = λ x y h k e e'. z.memory y x k h e' e;
}
