-- ===== src/Block.antt =====
-- A run of free bytes, and how often a list of such runs covers an address. `struct block` of the
-- page allocator and `struct sblock` of the kernel heap (kernel/mem.c) stand at the start of the run
-- that they describe; here a list of blocks is the linked list, in its order.
use trunix.Prelude.{ℕ, ◌+◌, ◌-◌, ◌≤◌, ◌≡◌, List, [], ◌∷◌, ltb, leb, ◌&&◌, if◌then◌else◌, arith}

pub record Block : Type 0 where
  pub addr : ℕ
  pub sz : ℕ

abbrev pub block : ℕ → ℕ → Block
block a n = record { addr = a; sz = n }

-- 1 if the address `x` lies in the `n` bytes from `a` on, else 0.
abbrev pub inside : ℕ → ℕ → ℕ → ℕ
inside x a n = if leb a x && ltb x (a + n) then 1 else 0

-- In how many blocks the address `x` lies.
abbrev pub cover : ℕ → List Block → ℕ
cover x [] = 0
cover x (b ∷ bs) = inside x b.addr b.sz + cover x bs

abbrev pub total : List Block → ℕ
total [] = 0
total (b ∷ bs) = b.sz + total bs

-- A run that is cut in two covers what it covered.
pub inside_split : (x a m n : ℕ) → inside x a (m + n) ≡ inside x a m + inside x (a + m) n
inside_split x a m n = ground arith

pub inside_cut : (x a m n : ℕ) → m ≤ n → inside x a n ≡ inside x a m + inside x (a + m) (n - m)
inside_cut x a m n h = ground arith
