-- ===== src/Pages/Sorted.antt =====
-- kernel/mem.c: the free list by size, and what is lost when it is empty.
use trunix.Prelude.{
  ℕ, ◌+◌, ◌-◌, ◌^◌, ◌≤◌, ◌<◌, ◌≡◌, ◌≢◌, refl, inl, inr, Option, none, some, List, [], ◌∷◌, ltb, leb,
  Perm, subst, arith, Bool-cases, Option-cases,
}
use trunix.Round.{pg_roundup, pg_rounddown, pg_roundup_lem}
use trunix.Block.{Block, block}
use mathlib.Core.List.Perm
use trunix.Pages.Cover.{cover-take_fit, AllBelow, take_fit-none}
use trunix.Pages.{fill, Mem, insert, free_pages, take_fit, split, alloc_pages}

-- Every block has at least `s` bytes.
abbrev pub AtLeast : ℕ → List Block → Type 0
AtLeast s [] = Unit {0}
AtLeast s (b ∷ bs) = (s ≤ b.sz) × AtLeast s bs

-- Sizes do not fall along the list.
abbrev pub IsSorted : List Block → Type 0
IsSorted [] = Unit {0}
IsSorted (b ∷ bs) = AtLeast b.sz bs × IsSorted bs

AtLeast-mono : (s t : ℕ) (bs : List Block) → s ≤ t → AtLeast t bs → AtLeast s bs
AtLeast-mono s t [] h a = tt
AtLeast-mono s t (b ∷ bs) h a = (omega arith, AtLeast-mono s t bs h a.1)

insert-AtLeast :
    (s : ℕ) (n : Block) (fl : List Block) → s ≤ n.sz → AtLeast s fl → AtLeast s (insert n fl)
unfolding insert
insert-AtLeast s n [] h a = tt
insert-AtLeast s n (p ∷ []) h a = ground arith
insert-AtLeast s n (p ∷ q ∷ rest) h a = ground (arith, insert-AtLeast s n (q ∷ rest) h a.1)

insert-IsSorted : (n : Block) (fl : List Block) → IsSorted fl → IsSorted (insert n fl)
unfolding insert
insert-IsSorted n [] s = tt
insert-IsSorted n (p ∷ []) s = ground arith
insert-IsSorted n (p ∷ q ∷ rest) s = elim (Bool-cases (leb n.sz p.sz)) [
  | inl t ↦ ground (arith, AtLeast-mono n.sz p.sz (q ∷ rest))
  | inr f ↦
      rw f (insert-AtLeast p.sz n (q ∷ rest) (ground arith) s.0, insert-IsSorted n (q ∷ rest) s.1)
]

take_fit-AtLeast :
    (s sz : ℕ) (fl : List Block) {p : Block} {rest : List Block}
    → take_fit sz fl ≡ some (p, rest)
    → AtLeast s fl
    → AtLeast s rest
unfolding take_fit
take_fit-AtLeast s sz [] e a = cc
take_fit-AtLeast s sz (q ∷ ps) e a = elim (Bool-cases (leb sz q.sz)) [
  | inl t ↦ ground arith
  | inr f ↦ elim (Option-cases (take_fit sz ps)) [
    | inl e' ↦ ground arith
    | inr ((r, rest'), e') ↦ ground (arith, take_fit-AtLeast s sz ps e' a.1)
  ]
]

-- Every block of the list that has `sz` bytes has `s` bytes.
abbrev pub FitAtLeast : ℕ → ℕ → List Block → Type 0
FitAtLeast sz s [] = Unit {0}
FitAtLeast sz s (b ∷ bs) = (sz ≤ b.sz → s ≤ b.sz) × FitAtLeast sz s bs

FitAtLeast-of_AtLeast : (sz s : ℕ) (bs : List Block) → AtLeast s bs → FitAtLeast sz s bs
FitAtLeast-of_AtLeast sz s [] a = tt
FitAtLeast-of_AtLeast sz s (b ∷ bs) a = ((λ _. a.0), FitAtLeast-of_AtLeast sz s bs a.1)

take_fit-IsSorted :
    (sz : ℕ) (fl : List Block) {p : Block} {rest : List Block}
    → take_fit sz fl ≡ some (p, rest)
    → IsSorted fl
    → IsSorted rest × FitAtLeast sz p.sz fl
unfolding take_fit
take_fit-IsSorted sz [] e s = cc
take_fit-IsSorted sz (q ∷ ps) {p} e s = elim (Bool-cases (leb sz q.sz)) [
  | inl t ↦ ground (arith, FitAtLeast-of_AtLeast sz q.sz ps s.0)
  | inr f ↦ elim (Option-cases (take_fit sz ps)) [
    | inl e' ↦ ground arith
    | inr ((r, rest'), e') ↦
        ground (arith, take_fit-IsSorted sz ps e' s.1, take_fit-AtLeast q.sz sz ps e' s.0)
  ]
]

-- `free_pages` keeps the free list sorted by size.
pub free_pages-IsSorted :
    (a n : ℕ) (m : Mem) {m' : Mem}
    → IsSorted m.freelist
    → free_pages a n m ≡ some m'
    → IsSorted m'.freelist
unfolding free_pages
free_pages-IsSorted a n m s e =
    ground (arith, insert-IsSorted (block (pg_rounddown a) (pg_roundup n)) m.freelist s)

split-IsSorted :
    (sz : ℕ) (p : Block) (m : Mem)
    → 0 < sz
    → IsSorted m.freelist
    → (m' : Mem) × (split sz p m ≡ some m') × IsSorted m'.freelist
unfolding split free_pages
split-IsSorted sz p m pos s = elim (Bool-cases (ltb sz p.sz)) [
  | inl t ↦
      let b = block (pg_rounddown (p.addr + sz)) (pg_roundup (p.sz - sz)) in
      (
        record { freelist = insert b m.freelist; byte = fill m.byte b.addr 0x69 b.sz },
        ground arith,
        insert-IsSorted b m.freelist s,
      )
  | inr f ↦ (m, rw f refl, s)
]

take_fit-perm :
    (sz : ℕ) (fl : List Block) {p : Block} {rest : List Block}
    → take_fit sz fl ≡ some (p, rest)
    → Perm fl (p ∷ rest)
unfolding take_fit
take_fit-perm sz [] e = cc
take_fit-perm sz (q ∷ ps) {p} e = elim (Bool-cases (leb sz q.sz)) [
  | inl t ↦ subst (λ r. Perm (q ∷ ps) r) (ground arith) (Perm.refl (q ∷ ps))
  | inr f ↦ elim (Option-cases (take_fit sz ps)) [
    | inl e' ↦ ground arith
    | inr ((r, rest'), e') ↦
        subst (λ l. Perm (q ∷ ps) l) (ground arith)
          (Perm.trans (Perm.cons q (take_fit-perm sz ps e')) (Perm.swap r q rest'))
  ]
]

-- The result of `alloc_pages` is the start of a smallest block `p` of those with `sz` bytes.
pub data TakesBest (sz : ℕ) (fl : List Block) : Option (Option ℕ × Mem) → Type 0 where
  refuses : {m : Mem} → AllBelow sz fl → IsSorted m.freelist → TakesBest sz fl (some (none, m))
  takes :
      {m : Mem} (p : Block) (rest : List Block)
      → Perm fl (p ∷ rest)
      → sz ≤ p.sz
      → FitAtLeast sz p.sz fl
      → IsSorted m.freelist
      → TakesBest sz fl (some (some p.addr, m))

-- On a free list that is sorted by size, `alloc_pages` is best fit: it returns the start of a
-- smallest block that has `sz` bytes, or NULL if none has, and leaves the list sorted.
pub alloc_pages_best :
    (sz : ℕ) (m : Mem)
    → 0 < sz
    → sz + 0xfff < 2 ^ 32
    → IsSorted m.freelist
    → TakesBest sz m.freelist (alloc_pages sz m)
unfolding alloc_pages
alloc_pages_best sz m pos small s = elim (Option-cases (take_fit sz m.freelist)) [
  | inl e ↦ rw (e, alloc_pages) (refuses (take_fit-none sz m.freelist e) s)
  | inr ((p, rest), e) ↦
      let (sorted, best) = take_fit-IsSorted sz m.freelist e s in
      let perm = take_fit-perm sz m.freelist e in
      let up = pg_roundup_lem sz small in
      let (m', e', s') =
        split-IsSorted (pg_roundup sz) p (record m { freelist = rest }) (omega arith) sorted in
      rw (e, alloc_pages) (rw e' (takes p rest perm (cover-take_fit 0 sz m.freelist e).1 best s'))
]

-- An empty free list stays empty: what is freed then is lost.
pub free_pages_leak :
    (a n : ℕ) (m : Mem)
    → a ≢ 0
    → m.freelist ≡ []
    → (m' : Mem) × (free_pages a n m ≡ some m') × (m'.freelist ≡ [])
unfolding free_pages insert
free_pages_leak a n m nz e = (
  record {
    freelist = insert (block (pg_rounddown a) (pg_roundup n)) m.freelist;
    byte = fill m.byte (pg_rounddown a) 0x69 (pg_roundup n);
  },
  ground arith,
  ground arith,
)

-- So an allocation from the only free block, which is at least a page larger than the request,
-- leaves nothing to allocate: the rest of the block is lost.
alloc_pages_leak :
    (sz : ℕ) (p : Block) (m : Mem)
    → m.freelist ≡ p ∷ []
    → 0 < sz
    → sz + 0xfff < 2 ^ 32
    → pg_roundup sz < p.sz
    → (m' : Mem) × (alloc_pages sz m ≡ some (some p.addr, m')) × (m'.freelist ≡ [])
unfolding alloc_pages split take_fit
alloc_pages_leak sz p m e pos small h =
    let up = pg_roundup_lem sz small in
    let a = p.addr + pg_roundup sz in
    let (m', e', out) =
      free_pages_leak a (p.sz - pg_roundup sz) (record m { freelist = [] }) (λ z. omega arith)
        refl in
    (m', ground (arith, e'), out)
