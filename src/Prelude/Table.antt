-- ===== src/Prelude/Table.antt =====
-- A test of all numbers below a bound, to be run on a table.
use Prim.Native.Nat.{ℕ, zero, suc, ◌<◌}
use mathlib.Core.Path.{◌≡◌}
use mathlib.Core.Bool.{Bool, true, ◌&&◌}
use native.Mathlib.Omega.{arith}

unfoldable pub every : (ℕ → Bool) → ℕ → Bool
every test zero = true
every test (suc bound) = every test bound && test bound

pub every_lem :
    (test : ℕ → Bool) (bound k : ℕ) → k < bound → every test bound ≡ true → test k ≡ true
unfolding every
every_lem test zero k below passed = absurd (omega arith)
every_lem test (suc bound) k below passed = ground (arith, every_lem test bound k)
