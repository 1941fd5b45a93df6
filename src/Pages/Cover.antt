-- ===== src/Pages/Cover.antt =====
-- kernel/mem.c: which memory `alloc_pages` and `free_pages` hand out and take back.
use trunix.Prelude.{
  length, suc, ap, ℕ, ◌+◌, ◌-◌, ◌%◌, ◌^◌, ◌≤◌, ◌<◌, ◌≡◌, ◌≢◌, refl, inl, inr, Option, none, some,
  List, [], ◌∷◌, ltb, leb, arith, Bool-cases, Option-cases,
}
use trunix.Round.{page, pg_roundup, pg_roundup_self, pg_rounddown_self, pg_roundup_lem}
use trunix.Block.{Block, block, inside, cover, inside_cut}
use trunix.Pages.{fill, Mem, insert, free_pages, take_fit, split, alloc_pages}

-- A block of whole pages below the top of the address space, and not at address 0.
pub record IsRun (b : Block) : Type 0 where
  pub aligned : b.addr % page ≡ 0
  pub whole : b.sz % page ≡ 0
  pub not_null : b.addr ≢ 0
  pub fits : b.addr + b.sz < 2 ^ 32

abbrev pub AllRuns : List Block → Type 0
AllRuns [] = Unit {0}
AllRuns (b ∷ bs) = IsRun b × AllRuns bs

cover-insert :
    (x : ℕ) (n : Block) (fl : List Block)
    → fl ≢ []
    → cover x (insert n fl) ≡ inside x n.addr n.sz + cover x fl
unfolding insert
cover-insert x n [] h = absurd (h refl)
cover-insert x n (p ∷ []) h = ground arith
cover-insert x n (p ∷ q ∷ rest) h = ground (arith, cover-insert x n (q ∷ rest) (λ e. cc))

insert-AllRuns : (n : Block) (fl : List Block) → IsRun n → AllRuns fl → AllRuns (insert n fl)
unfolding insert
insert-AllRuns n [] r a = tt
insert-AllRuns n (p ∷ []) r a = ground arith
insert-AllRuns n (p ∷ q ∷ rest) r a = ground (arith, insert-AllRuns n (q ∷ rest) r a.1)

pub cover-take_fit :
    (x sz : ℕ) (fl : List Block) {p : Block} {rest : List Block}
    → take_fit sz fl ≡ some (p, rest)
    → (cover x fl ≡ inside x p.addr p.sz + cover x rest) × (sz ≤ p.sz)
unfolding take_fit
cover-take_fit x sz [] e = cc
cover-take_fit x sz (q ∷ ps) e = elim (Bool-cases (leb sz q.sz)) [
  | inl t ↦ ground arith
  | inr f ↦ elim (Option-cases (take_fit sz ps)) [
    | inl e' ↦ ground arith
    | inr ((r, rest'), e') ↦ ground (arith, cover-take_fit x sz ps e')
  ]
]

pub take_fit-AllRuns :
    (sz : ℕ) (fl : List Block) {p : Block} {rest : List Block}
    → take_fit sz fl ≡ some (p, rest)
    → AllRuns fl
    → IsRun p × AllRuns rest × (length fl ≡ suc (length rest))
unfolding take_fit
take_fit-AllRuns sz [] e a = cc
take_fit-AllRuns sz (q ∷ ps) e a = elim (Bool-cases (leb sz q.sz)) [
  | inl t ↦ ground arith
  | inr f ↦ elim (Option-cases (take_fit sz ps)) [
    | inl e' ↦ ground arith
    | inr ((r, rest'), e') ↦ ground (arith, take_fit-AllRuns sz ps e' a.1)
  ]
]

-- No block of the list has `sz` bytes.
abbrev pub AllBelow : ℕ → List Block → Type 0
AllBelow sz [] = Unit {0}
AllBelow sz (b ∷ bs) = (b.sz < sz) × AllBelow sz bs

pub take_fit-none : (sz : ℕ) (fl : List Block) → take_fit sz fl ≡ none → AllBelow sz fl
unfolding take_fit
take_fit-none sz [] e = tt
take_fit-none sz (q ∷ ps) e = elim (Option-cases (take_fit sz ps)) [
  | inl e' ↦ ground (arith, take_fit-none sz ps e')
  | inr (r, e') ↦ ground arith
]

-- What a free list has become when the `n` bytes at `a` are taken from it.
pub record Taken (fl fl' : List Block) (a n : ℕ) : Type 0 where
  pub runs : AllRuns fl'
  pub covers : (x : ℕ) → cover x fl ≡ inside x a n + cover x fl'

-- `free_pages` of whole pages, on a list that is not empty, adds just these pages.
pub free_pages_lem :
    (a n : ℕ) (m : Mem)
    → IsRun (block a n)
    → AllRuns m.freelist
    → m.freelist ≢ []
    → (m' : Mem) × (free_pages a n m ≡ some m')
      × Taken m'.freelist m.freelist a n
      × AllRuns m'.freelist
unfolding free_pages
free_pages_lem a n m r runs ne = (
  m',
  rw (pg_rounddown_self a r.aligned, pg_roundup_self n r.whole) (ground arith),
  record { runs = runs; covers = λ x. cover-insert x (block a n) m.freelist ne },
  insert-AllRuns (block a n) m.freelist r runs,
)
  where
    m' : Mem
    m' = record { freelist = insert (block a n) m.freelist; byte = fill m.byte a 0x69 n }

-- The block that is found, with a list of at least one other block.
pub split_lem :
    (sz : ℕ) (p : Block) (m : Mem)
    → 0 < sz
    → sz % page ≡ 0
    → sz ≤ p.sz
    → IsRun p
    → AllRuns m.freelist
    → m.freelist ≢ []
    → (m' : Mem) × (split sz p m ≡ some m')
      × AllRuns m'.freelist
      × ((x : ℕ)
          → inside x p.addr p.sz + cover x m.freelist ≡ inside x p.addr sz + cover x m'.freelist)
unfolding split
split_lem sz p m pos al h r runs ne = elim (Bool-cases (ltb sz p.sz)) [
  | inl t ↦
      let (m', e, tk, runs') = free_pages_lem (p.addr + sz) (p.sz - sz) m (ground arith) runs ne in
      (m', rw t e, runs', λ x. omega (arith, tk.covers x, inside_cut x p.addr sz p.sz h))
  | inr f ↦ (m, rw f refl, runs, λ x. ground arith)
]

-- What `alloc_pages` promises for a request of `sz` bytes.
pub data Allocates (sz : ℕ) (m : Mem) : Option (Option ℕ × Mem) → Type 0 where
  refused : AllBelow sz m.freelist → Allocates sz m (some (none, m))
  granted :
      {a : ℕ} {m' : Mem}
      → Taken m.freelist m'.freelist a (pg_roundup sz)
      → Allocates sz m (some (some a, m'))

-- A whole number of pages that holds `n` bytes holds `n` rounded up.
pub fits : {n k u : ℕ} → n ≤ k → k % page ≡ 0 → u % page ≡ 0 → u < n + page → u ≤ k
fits h wk wu lt = omega arith

-- With at least two free blocks, `alloc_pages` either returns NULL, when no block has `sz` bytes,
-- and changes nothing, or returns the start of `pg_roundup sz` bytes that were free, and exactly
-- these bytes leave the free list, whose blocks stay runs of whole pages; no assertion fails.
pub alloc_pages_lem :
    (sz : ℕ) (m : Mem)
    → 0 < sz
    → sz + 0xfff < 2 ^ 32
    → AllRuns m.freelist
    → 2 ≤ length m.freelist
    → Allocates sz m (alloc_pages sz m)
unfolding alloc_pages
alloc_pages_lem sz m pos small runs two = elim (Option-cases (take_fit sz m.freelist)) [
  | inl e ↦ rw (e, alloc_pages) (refused (take_fit-none sz m.freelist e))
  | inr ((p, rest), e) ↦
      let (rp, rr, len) = take_fit-AllRuns sz m.freelist e runs in
      let (up, above, below) = pg_roundup_lem sz small in
      let fit : sz ≤ p.sz = (cover-take_fit 0 sz m.freelist e).1 in
      let (m', e', runs', cov) =
        split_lem (pg_roundup sz) p (record m { freelist = rest }) (omega arith) up
          (fits fit rp.whole up below) rp rr (λ (z : rest ≡ []). omega (arith, ap length z)) in
      rw (e, alloc_pages)
        (rw e' (
          granted (record {
            runs = runs';
            covers = λ x. omega (arith, (cover-take_fit x sz m.freelist e).0, cov x);
          })))
]
