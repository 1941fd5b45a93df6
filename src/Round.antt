-- ===== src/Round.antt =====
-- include/trunix/vm.h: rounding to a boundary, and the two address maps of the kernel. A `u32` is a
-- number below 2 ^ 32, and every sum that the code makes in 32 bits is taken modulo 2 ^ 32.
use trunix.Prelude.{ℕ, ◌+◌, ◌-◌, ◌%◌, ◌^◌, ◌≤◌, ◌<◌, ◌≡◌, ◌==◌, if◌then◌else◌, arith}

-- `_kernel_offset`: 0x80400000 - 0x00400000 (kernel/linker.ld).
abbrev pub kernel_offset : ℕ
kernel_offset = 0x80000000

abbrev pub page : ℕ
page = 0x1000

unfoldable pub roundup : ℕ → ℕ → ℕ
roundup x a = let p = x % a in if p == 0 then x else (x + a - p) % 2 ^ 32

unfoldable pub rounddown : ℕ → ℕ → ℕ
rounddown x a = let p = x % a in if p == 0 then x else x - p

abbrev pub pg_roundup : ℕ → ℕ
pg_roundup x = roundup x page

abbrev pub pg_rounddown : ℕ → ℕ
pg_rounddown x = rounddown x page

-- `x & ~KERNEL_OFFSET` and `x | KERNEL_OFFSET`: the offset is bit 31 alone.
unfoldable pub v2p : ℕ → ℕ
v2p x = x % kernel_offset

unfoldable pub p2v : ℕ → ℕ
p2v x = x % kernel_offset + kernel_offset

-- What is used of a rounded address: `pg_roundup` is the next multiple of the page size.
pub pg_roundup_lem :
    (x : ℕ)
    → x + 0xfff < 2 ^ 32
    → (pg_roundup x % page ≡ 0) × (x ≤ pg_roundup x) × (pg_roundup x < x + page)
unfolding roundup
pg_roundup_lem x h = ground arith

pub pg_rounddown_lem :
    (x : ℕ) → (pg_rounddown x % page ≡ 0) × (pg_rounddown x ≤ x) × (x < pg_rounddown x + page)
unfolding rounddown
pg_rounddown_lem x = ground arith

pub pg_roundup_self : (x : ℕ) → x % page ≡ 0 → pg_roundup x ≡ x
unfolding roundup
pg_roundup_self x h = ground arith

pub pg_rounddown_self : (x : ℕ) → x % page ≡ 0 → pg_rounddown x ≡ x
unfolding rounddown
pg_rounddown_self x h = ground arith

-- The kernel's half of the address space and the physical memory are in bijection.
pub v2p-p2v : (x : ℕ) → x < kernel_offset → v2p (p2v x) ≡ x
unfolding v2p p2v
v2p-p2v x h = omega arith

pub p2v-v2p : (x : ℕ) → kernel_offset ≤ x → x < 2 ^ 32 → p2v (v2p x) ≡ x
unfolding v2p p2v
p2v-v2p x h k = omega arith
