-- ===== src/System/Isolation.antt =====
-- kernel/proc.c, kernel/mem.c: what calls of one process do to the others.
use trunix.Prelude.{ℕ, ◌≡◌}
use trunix.Sched.{Sched}
use trunix.Vm.{Vm}
use trunix.Machine.{Machine}
use trunix.Mmap.{MmapDevs}
use trunix.Mmap.Extend.{Extended}
use trunix.System.{load, dir_of, Separate}
use trunix.System
use trunix.System.Fixed.{Fixed}

-- The state behind an anonymous `sys_mmap` that returns.
data Mmaps (size : ℕ) (s s' : Machine) : Type 0 where
  unchanged : s ≡ s' → Mmaps size s s'
  extends : (pa : ℕ) → Extended size pa s s' → Mmaps size s s'

module _ (devs : MmapDevs) where
  abbrev SameLoad : Machine → Machine → ℕ → ℕ → Type 0
  SameLoad s s' u x = load s'.vm (dir_of s' u) x ≡ load s.vm (dir_of s u) x
