-- ===== src/Prelude/Bytes.antt =====
-- Integers in memory, the low byte first.
use Prim.Native.Nat.{ℕ, ◌+◌, ◌*◌, ◌^◌}

abbrev pub u16_at : (ℕ → ℕ) → ℕ → ℕ
u16_at byte a = byte a + byte (a + 1) * 2 ^ 8

abbrev pub u32_at : (ℕ → ℕ) → ℕ → ℕ
u32_at byte a = u16_at byte a + u16_at byte (a + 2) * 2 ^ 16
