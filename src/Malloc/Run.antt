-- ===== src/Malloc/Run.antt =====
-- lib/libc/stdlib/malloc.c: the addresses of allocations in a row.
use trunix.Prelude.{
  ℕ, ◌+◌, ◌-◌, ◌%◌, ◌^◌, ◌≤◌, ◌<◌, ◌≡◌, ◌≢◌, refl, Option, none, some, List, [], ◌∷◌, arith, ltb,
  leb, true, false, Bool, ◌==◌,
}
use trunix.Round.{roundup, page, pg_roundup, pg_roundup_lem}
use trunix.Block.{block}
use trunix.Malloc.{UserHeap, put_u32, writable, can_take, user_slot, map_first, malloc}

-- Calls of `malloc` in a row.
unfoldable pub mallocs :
    (ℕ → Option ℕ) → (ℕ → Bool) → List ℕ → UserHeap → Option (List (Option ℕ) × UserHeap)
unfolding malloc
mallocs mmap mapped [] h = some ([], h)
mallocs mmap mapped (sz ∷ szs) h = elim (malloc mmap mapped sz h) [
  | none ↦ none
  | some (a, h') ↦ elim (mallocs mmap mapped szs h') [
    | none ↦ none
    | some (rest, h'') ↦ some (a ∷ rest, h'')
  ]
]

-- The addresses of allocations one behind the other from `a` on, each behind its header.
abbrev pub starts : ℕ → List ℕ → List (Option ℕ)
starts a [] = []
starts a (sz ∷ szs) = some (a + 4) ∷ starts (a + user_slot sz) szs

abbrev pub slots : List ℕ → ℕ
slots [] = 0
slots (sz ∷ szs) = user_slot sz + slots szs

-- The requests are for some bytes, and do not wrap around with their header.
abbrev pub AllSmall : List ℕ → Type 0
AllSmall [] = Unit {0}
AllSmall (sz ∷ szs) = ((0 < sz) × (sz + 8 < 2 ^ 32)) × AllSmall szs

pub user_slot_lem : (sz : ℕ) → sz + 8 < 2 ^ 32 → (sz + 4 ≤ user_slot sz) × (user_slot sz < sz + 8)
unfolding user_slot roundup
user_slot_lem sz h = ground arith

write_at :
    (mapped : ℕ → Bool) (a n low high : ℕ)
    → ((x : ℕ) → low ≤ x → x < high → mapped x ≡ true)
    → low ≤ a
    → 0 < n
    → a + n ≤ high
    → writable mapped a n ≡ true
write_at mapped a n low high mem l pos h =
    rw (mem a l (omega arith), mem (a + n - 1) (omega arith) (omega arith)) refl

-- From a free block that has more than enough.
malloc-block :
    (mmap : ℕ → Option ℕ) (mapped : ℕ → Bool) (sz a n : ℕ) (byte : ℕ → ℕ)
    → user_slot sz < n
    → a + user_slot sz < 2 ^ 32
    → 4 < user_slot sz
    → writable mapped a 4 ≡ true
    → writable mapped (a + user_slot sz) 8 ≡ true
    → (byte' : ℕ → ℕ) × (malloc mmap mapped sz (record { heap = block a n ∷ []; byte = byte })
        ≡ some (
          some (a + 4),
          record { heap = block (a + user_slot sz) (n - user_slot sz) ∷ []; byte = byte' },
        ))
unfolding malloc
malloc-block mmap mapped sz a n byte fit low some_size here behind_it =
    let k = user_slot sz in
    let not_four : (k == 4) ≡ false = ground arith in
    let to : (a + k) % 2 ^ 32 ≡ a + k = omega arith in
    let can : can_take mapped k (block a n) ≡ true = rw to (ground arith) in
    let more : ltb k n ≡ true = ground arith in
    let enough : leb k n ≡ true = ground arith in
    let behind : (a + 4) % 2 ^ 32 ≡ a + 4 = omega arith in
    (
      put_u32 (put_u32 byte (a + k) (n - k)) a k,
      rw (malloc, enough, more, to, behind, not_four, here, behind_it) refl,
    )

mallocs-block :
    (mmap : ℕ → Option ℕ) (mapped : ℕ → Bool) (szs : List ℕ) (a n : ℕ) (byte : ℕ → ℕ)
    → AllSmall szs
    → slots szs < n
    → a + slots szs + 8 ≤ 2 ^ 32
    → ((x : ℕ) → a ≤ x → x < a + slots szs + 8 → mapped x ≡ true)
    → (h' : UserHeap) × (mallocs mmap mapped szs (record { heap = block a n ∷ []; byte = byte })
        ≡ some (starts a szs, h'))
unfolding mallocs
mallocs-block mmap mapped [] a n byte s fit low mem =
    (record { heap = block a n ∷ []; byte = byte }, refl)
mallocs-block mmap mapped (sz ∷ szs) a n byte s fit low mem =
    let k = user_slot sz in
    let (above, below) = user_slot_lem sz s.0.1 in
    let (b, first) =
      malloc-block mmap mapped sz a n byte (omega arith) (omega arith) (omega (arith, s.0.0))
        (write_at mapped a 4 a (a + (k + slots szs) + 8) mem (omega arith) (omega arith)
          (omega arith))
        (write_at mapped (a + k) 8 a (a + (k + slots szs) + 8) mem (omega arith) (omega arith)
          (omega arith)) in
    let (h', e) =
      mallocs-block mmap mapped szs (a + k) (n - k) b s.1 (omega arith) (omega arith)
        (λ x l u. mem x (omega arith) (omega arith)) in
    (h', rw (mallocs, first) (rw e refl))

-- The first request: the block behind it has almost 4 GiB.
malloc-empty :
    (mmap : ℕ → Option ℕ) (mapped : ℕ → Bool) (s sz : ℕ) (byte : ℕ → ℕ)
    → sz + 8 < 2 ^ 32
    → mmap (user_slot sz) ≡ some s
    → page ≤ s
    → user_slot sz % page ≢ 0
    → s + user_slot sz < 2 ^ 32
    → writable mapped s 4 ≡ true
    → writable mapped (s + user_slot sz) 8 ≡ true
    → (left : ℕ) × (byte' : ℕ → ℕ) × (malloc mmap mapped sz (record { heap = []; byte = byte })
        ≡ some (some (s + 4), record { heap = block (s + user_slot sz) left ∷ []; byte = byte' }))
      × (2 ^ 32 ≤ left + page)
unfolding malloc map_first
malloc-empty mmap mapped s sz byte small e high part low here behind_it =
    let n = user_slot sz in
    let (above, below) = user_slot_lem sz small in
    let (whole, up, within) = pg_roundup_lem n (omega arith) in
    let left = (n + 2 ^ 32 - pg_roundup n) % 2 ^ 32 in
    let to : (s + n) % 2 ^ 32 ≡ s + n = omega arith in
    let behind : (s + 4) % 2 ^ 32 ≡ s + 4 = omega arith in
    let ends_inside : n < pg_roundup n = omega (arith, part) in
    (
      left,
      put_u32 (put_u32 byte (s + n) left) s n,
      rw (malloc, map_first, e) (rw (to, behind, here, behind_it) refl),
      omega arith,
    )

-- The first request of a program and all others after it are served from one run of memory, one
-- behind the other, each at the address behind its header, if they are not for zero bytes, the
-- first does not take whole pages, and the run, with 8 bytes behind it, lies below 2 ^ 32 in memory
-- that is mapped. That these bytes are mapped is all that limits the run: `malloc` counts nearly 4
-- GiB behind the first request as free, and maps nothing for the others.
pub mallocs-Consecutive :
    (mmap : ℕ → Option ℕ) (mapped : ℕ → Bool) (s sz : ℕ) (szs : List ℕ) (byte : ℕ → ℕ)
    → AllSmall (sz ∷ szs)
    → mmap (user_slot sz) ≡ some s
    → page ≤ s
    → user_slot sz % page ≢ 0
    → s + slots (sz ∷ szs) + 8 ≤ 2 ^ 32
    → ((x : ℕ) → s ≤ x → x < s + slots (sz ∷ szs) + 8 → mapped x ≡ true)
    → (h' : UserHeap) × (mallocs mmap mapped (sz ∷ szs) (record { heap = []; byte = byte })
        ≡ some (starts s (sz ∷ szs), h'))
unfolding mallocs
mallocs-Consecutive mmap mapped s sz szs byte small e high part low mem =
    let n = user_slot sz in
    let (above, below) = user_slot_lem sz small.0.1 in
    let end = s + n + slots szs + 8 in
    let mem' : (x : ℕ) → s ≤ x → x < end → mapped x ≡ true = λ x l u. mem x l (omega arith) in
    let (left, b, first, huge) =
      malloc-empty mmap mapped s sz byte small.0.1 e high part (omega arith)
        (write_at mapped s 4 s end mem' (omega arith) (omega arith) (omega arith))
        (write_at mapped (s + n) 8 s end mem' (omega arith) (omega arith) (omega arith)) in
    let (h', e') =
      mallocs-block mmap mapped szs (s + n) left b small.1 (omega arith) (omega arith)
        (λ x l u. mem' x (omega arith) (omega arith)) in
    (h', rw (mallocs, first) (rw e' refl))
