-- ===== src/KHeap/Alloc.antt =====
-- kernel/mem.c: what `kmalloc` hands out.
use trunix.Prelude.{
  ℕ, ◌+◌, ◌%◌, ◌^◌, ◌≤◌, ◌<◌, ◌≡◌, inl, inr, Option, none, some, List, [], ◌∷◌, ltb, leb, arith,
  Bool-cases, lt→ltb, Option-cases, true,
}
use trunix.Round.{roundup}
use trunix.Block.{Block, inside, cover, inside_cut}
use trunix.Pages.Cover.{AllBelow}
use trunix.KHeap.{KHeap, slot_size, carve, kmalloc}

-- Free blocks from `lo` on, by rising address, with no overlap, none of them empty.
abbrev pub Ascending : ℕ → List Block → Type 0
Ascending lo [] = Unit {0}
Ascending lo (b ∷ bs) = (lo ≤ b.addr) × (0 < b.sz) × Ascending (b.addr + b.sz) bs

pub Ascending-mono : (lo hi : ℕ) (bs : List Block) → lo ≤ hi → Ascending hi bs → Ascending lo bs
Ascending-mono lo hi [] h a = tt
Ascending-mono lo hi (b ∷ bs) h a = ground arith

pub slot_size_lem :
    (sz : ℕ)
    → sz < 0x1000
    → (slot_size sz % 8 ≡ 0) × (sz + 2 ≤ slot_size sz) × (slot_size sz < sz + 10)
unfolding slot_size roundup
slot_size_lem sz h = ground arith

pub slot_size_small : (sz : ℕ) → sz + 9 < 0x1000 → ltb (slot_size sz) 0x1000 ≡ true
slot_size_small sz h = lt→ltb (slot_size sz) 0x1000 (omega (arith, slot_size_lem sz (omega arith)))

carve-none : (n : ℕ) (fl : List Block) → carve n fl ≡ none → AllBelow n fl
unfolding carve
carve-none n [] e = tt
carve-none n (q ∷ ps) e = elim (Option-cases (carve n ps)) [
  | inl e' ↦ ground (arith, carve-none n ps e')
  | inr (r, e') ↦ ground arith
]

-- `rest` is the list `fl` without the `n` bytes at `a`.
record Carved (lo n : ℕ) (fl : List Block) (a : ℕ) (rest : List Block) : Type 0 where
  above : lo ≤ a
  ascending : Ascending lo rest
  covers : (x : ℕ) → cover x fl ≡ inside x a n + cover x rest

carve-Carved :
    (lo n : ℕ) (fl : List Block) {a : ℕ} {rest : List Block}
    → Ascending lo fl
    → carve n fl ≡ some (a, rest)
    → Carved lo n fl a rest
unfolding carve
carve-Carved lo n [] asc e = cc
carve-Carved lo n (p ∷ ps) {a} {rest} asc e = elim (Bool-cases (leb n p.sz)) [
  | inl t ↦ record {
    above = ground arith;
    ascending = ground (arith, Ascending-mono lo (p.addr + p.sz) ps);
    covers = λ x. ground (arith, inside_cut x p.addr n p.sz);
  }
  | inr f ↦ elim (Option-cases (carve n ps)) [
    | inl e' ↦ ground arith
    | inr ((r, rest'), e') ↦
        let c = carve-Carved (p.addr + p.sz) n ps {a = r} {rest = rest'} asc.2 e' in
        record {
          above = ground (arith, c.above);
          ascending = ground (arith, c.ascending);
          covers = λ x. ground (arith, c.covers x);
        }
  ]
]

-- What `kmalloc` promises for a request of `sz` bytes.
pub data Mallocs (sz : ℕ) (h : KHeap) : Option (Option ℕ × KHeap) → Type 0 where
  refused : AllBelow (slot_size sz) h.heap → Mallocs sz h (some (none, h))
  granted :
      (p n : ℕ) {h' : KHeap}
      → h'.header p ≡ n
      → sz + 2 ≤ n
      → n < sz + 10
      → Ascending 0 h'.heap
      → ((x : ℕ) → cover x h.heap ≡ inside x p n + cover x h'.heap)
      → Mallocs sz h (some (some (p + 2), h'))

-- For a request of less than 4087 bytes, which fits in a page with its header, `kmalloc` returns
-- NULL, when no free block is large enough, and changes nothing; or it returns the address behind a
-- header, which holds the number of bytes taken. Exactly these bytes leave the heap, they hold the
-- header and the request, and the heap stays in order of address with no overlap.
pub kmalloc_lem :
    (sz : ℕ) (h : KHeap) → sz + 9 < 0x1000 → Ascending 0 h.heap → Mallocs sz h (kmalloc sz h)
unfolding kmalloc
kmalloc_lem sz h small asc =
    let size = slot_size_lem sz (omega arith) in
    let fits = slot_size_small sz small in
    elim (Option-cases (carve (slot_size sz) h.heap)) [
      | inl e ↦ rw (fits, e, kmalloc) (refused (carve-none (slot_size sz) h.heap e))
      | inr ((p, rest), e) ↦
          let c = carve-Carved 0 (slot_size sz) h.heap {a = p} {rest = rest} asc e in
          rw (fits, e, kmalloc)
            (granted p (slot_size sz) (ground arith) size.1 size.2 c.ascending c.covers)
    ]

-- A request that does not fit in a page with its header fails the assertion.
pub kmalloc_large : (sz : ℕ) (h : KHeap) → 0x1000 ≤ sz + 9 → sz + 9 < 2 ^ 32 → kmalloc sz h ≡ none
unfolding kmalloc slot_size roundup
kmalloc_large sz h l u = ground arith
