-- ===== src/Vm/Keeps.antt =====
-- Changes that leave alone what was in use.
use trunix.Prelude.{ℕ, ◌≤◌, ◌≡◌, arith, ◌∙◌}
use trunix.Block.{cover}
use trunix.Vm.{Vm}

-- No byte and no page that was in use in `s` is changed or becomes free.
pub record Keeps (s s' : Vm) : Type 0 where
  pub less : (x : ℕ) → cover x s'.mem.freelist ≤ cover x s.mem.freelist
  pub bytes : (x : ℕ) → cover x s.mem.freelist ≡ 0 → s'.mem.byte x ≡ s.mem.byte x
  pub words : (q j : ℕ) → cover q s.mem.freelist ≡ 0 → s'.word q j ≡ s.word q j

pub Keeps-trans : (s s1 s2 : Vm) → Keeps s s1 → Keeps s1 s2 → Keeps s s2
Keeps-trans s s1 s2 k l = record {
  less = λ x. omega (arith, k.less x, l.less x);
  bytes = λ x c. l.bytes x (omega (arith, k.less x)) ∙ k.bytes x c;
  words = λ q j c. l.words q j (omega (arith, k.less q)) ∙ k.words q j c;
}
