-- ===== src/KHeap/Free.antt =====
-- kernel/mem.c: what `kfree` gives back, and where its behaviour is undefined.
use mathlib.Core.Option
use trunix.Prelude.{
  ℕ, ap, subst, ◌+◌, ◌-◌, ◌≤◌, ◌<◌, ◌≡◌, ◌⊎◌, refl, inl, inr, Option, none, some, List, [], ◌∷◌,
  ltb, ◌==◌, if◌then◌else◌, arith, Bool-cases, lt→ltb, false, true, suc, length,
}
use trunix.Block.{Block, block, inside, cover, inside_split}
use trunix.KHeap.{KHeap, slot_size, carve, kmalloc, join, place, release, kfree}
use trunix.KHeap.Alloc.{Ascending, Ascending-mono, slot_size_small, slot_size_lem}

-- Every block ends at or below `a`.
abbrev pub AllUnder : ℕ → List Block → Type 0
AllUnder a [] = Unit {0}
AllUnder a (b ∷ bs) = (b.addr + b.sz ≤ a) × AllUnder a bs

-- The block `p` overlaps no block of the list.
abbrev pub Apart : Block → List Block → Type 0
Apart p [] = Unit {0}
Apart p (b ∷ bs) = ((b.addr + b.sz ≤ p.addr) ⊎ (p.addr + p.sz ≤ b.addr)) × Apart p bs

-- How many of the blocks end where `p` begins, or begin where it ends.
abbrev pub touching : Block → List Block → ℕ
touching p [] = 0
touching p (b ∷ bs) =
    (if b.addr + b.sz == p.addr then 1 else 0)
    + (if b.addr == p.addr + p.sz then 1 else 0)
    + touching p bs

touching-above :
    (p : Block) (lo : ℕ) (fl : List Block)
    → p.addr + p.sz < lo
    → Ascending lo fl
    → touching p fl ≡ 0
touching-above p lo [] h asc = refl
touching-above p lo (b ∷ bs) h asc =
    ground (arith, touching-above p (b.addr + b.sz) bs (omega (arith, asc.0)) asc.2)

-- The list `fl'` is the list `fl` with the bytes of `p`, from `lo` on, in one block with those that it
-- touches.
pub record Given (lo : ℕ) (p : Block) (fl fl' : List Block) : Type 0 where
  pub ascending : Ascending lo fl'
  pub covers : (x : ℕ) → cover x fl' ≡ inside x p.addr p.sz + cover x fl
  pub joined : length fl' + touching p fl ≡ suc (length fl)

join-length :
    (q tmp : Block) (rest : List Block)
    → length (join q tmp rest) + (if tmp.addr == q.addr + q.sz then 1 else 0)
      ≡ suc (suc (length rest))
unfolding join
join-length q tmp rest = ground arith

join-Given :
    (lo : ℕ) (q tmp : Block) (rest : List Block)
    → lo ≤ q.addr
    → 0 < q.sz
    → Ascending (q.addr + q.sz) (tmp ∷ rest)
    → Given lo q (tmp ∷ rest) (join q tmp rest)
unfolding join
join-Given lo q tmp rest h pos asc = record {
  ascending = ground (arith, Ascending-mono (q.addr + (q.sz + tmp.sz)) (tmp.addr + tmp.sz) rest);
  covers = λ x. ground (arith, inside_split x q.addr q.sz tmp.sz);
  joined =
      let ends : (tmp.addr + tmp.sz == q.addr) ≡ false = ground arith in
      rw ends (
        omega (
          arith,
          join-length q tmp rest,
          touching-above q (tmp.addr + tmp.sz) rest (omega arith) asc.2,
        ));
}

-- Between `n` and `tmp`, with no space behind `n`.
merge-Given :
    (lo : ℕ) (p n tmp : Block) (rest : List Block)
    → 0 < p.sz
    → n.addr + n.sz ≡ p.addr
    → p.addr + p.sz ≤ tmp.addr
    → Ascending lo (n ∷ tmp ∷ rest)
    → Given lo p (n ∷ tmp ∷ rest) (join (block n.addr (n.sz + p.sz)) tmp rest)
merge-Given lo p n tmp rest pos e under asc =
    let g =
      join-Given lo (block n.addr (n.sz + p.sz)) tmp rest asc.0 (omega arith)
        (omega arith, asc.2.1, asc.2.2) in
    record {
      ascending = g.ascending;
      covers = λ x. omega (
        arith,
        g.covers x,
        subst (λ a. inside x n.addr (n.sz + p.sz) ≡ inside x n.addr n.sz + inside x a p.sz) e
            (inside_split x n.addr n.sz p.sz),
      );
      joined =
          let q : Block = block n.addr (n.sz + p.sz) in
          let end : q.addr + q.sz ≡ p.addr + p.sz = omega arith in
          let here : (n.addr + n.sz == p.addr) ≡ true = ground arith in
          let starts : (n.addr == p.addr + p.sz) ≡ false = ground arith in
          let ends : (tmp.addr + tmp.sz == p.addr) ≡ false = ground arith in
          let one : length (join q tmp rest) + (if tmp.addr == p.addr + p.sz then 1 else 0)
              ≡ suc (suc (length rest)) =
            subst
              (λ z.
                length (join q tmp rest) + (if tmp.addr == z then 1 else 0)
                ≡ suc (suc (length rest)))
              end (join-length q tmp rest) in
          rw (here, starts, ends)
            (omega (arith, one, touching-above p (tmp.addr + tmp.sz) rest (omega arith) asc.2.2));
    }

-- Between `n` and `tmp`, with space behind `n`.
after-Given :
    (lo : ℕ) (p n tmp : Block) (rest : List Block)
    → 0 < p.sz
    → n.addr + n.sz < p.addr
    → p.addr + p.sz ≤ tmp.addr
    → Ascending lo (n ∷ tmp ∷ rest)
    → Given lo p (n ∷ tmp ∷ rest) (n ∷ join p tmp rest)
after-Given lo p n tmp rest pos over under asc =
    let g = join-Given (n.addr + n.sz) p tmp rest (omega arith) pos (under, asc.2.1, asc.2.2) in
    record {
      ascending = (asc.0, asc.1, g.ascending);
      covers = λ x. omega (arith, g.covers x);
      joined =
          let ends : (n.addr + n.sz == p.addr) ≡ false = ground arith in
          let starts : (n.addr == p.addr + p.sz) ≡ false = ground arith in
          rw (ends, starts) (omega (arith, g.joined));
    }

abbrev Places : ℕ → Block → List Block → Option (List Block) → Type 0
Places lo p fl none = AllUnder p.addr fl
Places lo p fl (some fl') = Given lo p fl fl'

Places-cons :
    (lo : ℕ) (p n : Block) (fl : List Block) (r : Option (List Block))
    → n.addr + n.sz < p.addr
    → Ascending lo (n ∷ fl)
    → Places (n.addr + n.sz) p fl r
    → Places lo p (n ∷ fl) (Option.map (λ l. n ∷ l) r)
Places-cons lo p n fl none h asc pl = (omega arith, pl)
Places-cons lo p n fl (some fl') h asc pl = record {
  ascending = (asc.0, asc.1, pl.ascending);
  covers = λ x. omega (arith, pl.covers x);
  joined =
      let ends : (n.addr + n.sz == p.addr) ≡ false = ground arith in
      let starts : (n.addr == p.addr + p.sz) ≡ false = ground arith in
      rw (ends, starts) (omega (arith, pl.joined));
}

place-Places :
    (lo : ℕ) (p n : Block) (fl : List Block)
    → 0 < p.sz
    → n.addr < p.addr
    → Ascending lo (n ∷ fl)
    → Apart p (n ∷ fl)
    → Places lo p (n ∷ fl) (place p (n ∷ fl))
unfolding place
place-Places lo p n [] pos lt asc ap = ground arith
place-Places lo p n (tmp ∷ rest) pos lt asc ap =
    let low = lt→ltb n.addr p.addr lt in
    elim (Bool-cases (ltb p.addr tmp.addr)) [
      | inl t ↦ elim (Bool-cases (n.addr + n.sz == p.addr)) [
        | inl e ↦
            rw (low, t, e, place)
              (merge-Given lo p n tmp rest pos (ground arith) (ground arith) asc)
        | inr e ↦
            rw (low, t, e, place)
              (after-Given lo p n tmp rest pos (ground arith) (ground arith) asc)
      ]
      | inr f ↦
          rw (low, f, place)
            (Places-cons lo p n (tmp ∷ rest) (place p (tmp ∷ rest)) (ground arith) asc
              (place-Places (n.addr + n.sz) p tmp rest pos (ground arith) asc.2 ap.1))
    ]

-- What becomes of a block `p` that is given back to the heap `h`.
pub data Frees (p : Block) (h : KHeap) : Option KHeap → Type 0 where
  freed : {h' : KHeap} → Given 0 p h.heap h'.heap → Frees p h (some h')
  below_first :
      (b : Block) (rest : List Block) → h.heap ≡ b ∷ rest → p.addr + p.sz ≡ b.addr → Frees p h none
  above_all : AllUnder p.addr h.heap → Frees p h none

Places-Frees :
    (p : Block) (h : KHeap) (fl : List Block) (r : Option (List Block))
    → h.heap ≡ fl
    → Places 0 p fl r
    → Frees p h (Option.map (λ l. record h { heap = l }) r)
Places-Frees p h fl none e pl = above_all (rw e pl)
Places-Frees p h fl (some fl') e pl = freed (rw e pl)

apart_above :
    (p n : Block) (rest : List Block)
    → 0 < p.sz
    → p.addr + p.sz < n.addr
    → 0 < n.sz
    → Ascending 0 (n ∷ rest)
    → touching p (n ∷ rest) ≡ 0
apart_above p n rest pos lt some_size asc =
    touching-above p n.addr (n ∷ rest) lt (omega arith, asc.1, asc.2)

release-Frees :
    (p : Block) (h : KHeap) (fl : List Block)
    → h.heap ≡ fl
    → 0 < p.sz
    → Ascending 0 fl
    → Apart p fl
    → Frees p h (Option.map (λ l. record h { heap = l }) (release p fl))
unfolding release
release-Frees p h [] e pos asc ap = above_all (rw e tt)
release-Frees p h (n ∷ rest) e pos asc ap = elim (Bool-cases (ltb p.addr n.addr)) [
  | inl t ↦ elim (Bool-cases (p.addr + p.sz == n.addr)) [
    | inl t' ↦ rw (t, t', release) (below_first n rest e (ground arith))
    | inr f' ↦
        rw (t, f', release)
          (freed (
            rw e (record {
              ascending = ground arith;
              covers = λ x. refl;
              joined = omega (arith, apart_above p n rest pos (ground arith) (ground arith) asc);
            })))
  ]
  | inr f ↦
      rw (f, release)
        (Places-Frees p h (n ∷ rest) (place p (n ∷ rest)) e
          (place-Places 0 p n rest pos (ground arith) asc ap))
]

-- A block that overlaps no free block and holds its size in its header is given back by `kfree`:
-- exactly its bytes are free again, the blocks are still in order of address, and there is one more
-- of them, less one for each that the block touches, as it is joined to these; except in two cases,
-- in which the behaviour is undefined: the block ends where the first free block begins, or every
-- free block lies below it.
pub kfree_lem :
    (a : ℕ) (h : KHeap)
    → 0 < h.header (a - 2)
    → Ascending 0 h.heap
    → Apart (block (a - 2) (h.header (a - 2))) h.heap
    → Frees (block (a - 2) (h.header (a - 2))) h (kfree a h)
unfolding kfree
kfree_lem a h pos asc ap = release-Frees (block (a - 2) (h.header (a - 2))) h h.heap refl pos asc ap

-- A block whose end is the start of the first free block cannot be given back.
kfree_below :
    (a n k : ℕ) (rest : List Block) (h : KHeap)
    → h.heap ≡ block (a + n) k ∷ rest
    → h.header a ≡ n
    → 0 < n
    → kfree (a + 2) h ≡ none
unfolding kfree release
kfree_below a n k rest h e hd pos =
    let back : a + 2 - 2 ≡ a = omega arith in rw (kfree, back, e) (ground arith)

-- The first allocation from a heap of one block cannot be given back.
pub kfree-kmalloc :
    (sz : ℕ) (b : Block) (h : KHeap)
    → sz + 9 < 0x1000
    → slot_size sz < b.sz
    → h.heap ≡ b ∷ []
    → (h' : KHeap) × (kmalloc sz h ≡ some (some (b.addr + 2), h')) × (kfree (b.addr + 2) h' ≡ none)
unfolding kmalloc kfree release carve
kfree-kmalloc sz b h small lt e =
    let n = slot_size sz in
    let h' : KHeap = record {
      heap = block (b.addr + n) (b.sz - n) ∷ [];
      header = λ a. if a == b.addr then n else h.header a;
    } in
    (
      h',
      rw (slot_size_small sz small, e) (ground arith),
      kfree_below b.addr n (b.sz - n) [] h' refl (ground arith)
          (omega (arith, slot_size_lem sz (omega arith))),
    )
