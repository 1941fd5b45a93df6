-- ===== src/Pages/Free.antt =====
-- kernel/mem.c: `alloc_pages` on a free list of any length, as its callers rely on it.
use trunix.Prelude.{
  ℕ, ◌+◌, ◌-◌, ◌%◌, ◌^◌, ◌≤◌, ◌<◌, ◌≡◌, refl, inl, inr, Option, none, some, List, [], ◌∷◌, ltb,
  arith, Bool-cases, Option-cases, ◌==◌, dec_lt, false,
}
use trunix.Round.{
  pg_rounddown, page, kernel_offset, pg_roundup, pg_roundup_lem, pg_rounddown_self, pg_roundup_self,
}
use trunix.Block.{Block, inside, cover, inside_cut}
use trunix.Pages.{fill, Mem, insert, free_pages, take_fit, split, alloc_pages}
use trunix.Pages.Cover.{
  IsRun, AllRuns, AllBelow, fits, cover-take_fit, take_fit-AllRuns, take_fit-none, split_lem,
}

-- The free blocks are runs of whole pages in the kernel's window, and do not overlap.
pub record IsFree (m : Mem) : Type 0 where
  pub runs : AllRuns m.freelist
  pub once : (x : ℕ) → cover x m.freelist ≤ 1
  pub high : (x : ℕ) → x < kernel_offset → cover x m.freelist ≡ 0

-- What a request of `sz` bytes comes to; a page that is granted was free, and is free no more.
pub data Grants (sz : ℕ) (m : Mem) : Option (Option ℕ × Mem) → Type 0 where
  refused : AllBelow sz m.freelist → Grants sz m (some (none, m))
  granted :
      {a : ℕ} {m' : Mem}
      → IsFree m'
      → a % page ≡ 0
      → kernel_offset ≤ a
      → a + pg_roundup sz < 2 ^ 32
      → ((x : ℕ) → inside x a (pg_roundup sz) + cover x m'.freelist ≤ cover x m.freelist)
      → ((x : ℕ) → cover x m.freelist ≡ 0 → m'.byte x ≡ m.byte x)
      → Grants sz m (some (some a, m'))

-- The last block that is free: what is left of it is lost.
split_last :
    (sz : ℕ) (p : Block) (byte : ℕ → ℕ)
    → IsRun p
    → (m' : Mem) × (split sz p (record { freelist = []; byte = byte }) ≡ some m')
      × (m'.freelist ≡ [])
unfolding split free_pages insert
split_last sz p byte r = elim (Bool-cases (ltb sz p.sz)) [
  | inl t ↦
      let ok : (p.addr + sz == 0) ≡ false = ground (arith, r.not_null) in
      (
        record {
          freelist = [];
          byte = fill byte (pg_rounddown (p.addr + sz)) 0x69 (pg_roundup (p.sz - sz));
        },
        rw t (rw ok refl),
        refl,
      )
  | inr f ↦ (record { freelist = []; byte = byte }, rw f refl, refl)
]

-- The block that is found, with any list.
split_any :
    (sz : ℕ) (p : Block) (rest : List Block) (byte : ℕ → ℕ)
    → 0 < sz
    → sz % page ≡ 0
    → sz ≤ p.sz
    → IsRun p
    → AllRuns rest
    → (m' : Mem) × (split sz p (record { freelist = rest; byte = byte }) ≡ some m')
      × AllRuns m'.freelist
      × ((x : ℕ) → inside x p.addr sz + cover x m'.freelist ≤ inside x p.addr p.sz + cover x rest)
split_any sz p [] byte pos al h r a =
    let (m', e, z) = split_last sz p byte r in
    (m', e, rw z tt, λ x. rw z (omega (arith, inside_cut x p.addr sz p.sz h)))
split_any sz p (b ∷ bs) byte pos al h r a =
    let (m', e, runs, cov) =
      split_lem sz p (record { freelist = b ∷ bs; byte = byte }) pos al h r a (λ z. cc) in
    (m', e, runs, λ x. omega (arith, cov x))

-- What is given back is filled, and nothing else.
split-byte :
    (sz : ℕ) (p : Block) (m : Mem) {m' : Mem}
    → sz % page ≡ 0
    → sz ≤ p.sz
    → IsRun p
    → split sz p m ≡ some m'
    → (x : ℕ) → inside x p.addr p.sz ≡ 0
    → m'.byte x ≡ m.byte x
unfolding split free_pages
split-byte sz p m {m'} al h r e x out = elim (Bool-cases (ltb sz p.sz)) [
  | inl t ↦
      let ok : (p.addr + sz == 0) ≡ false = ground (arith, r.not_null) in
      let down = pg_rounddown_self (p.addr + sz) (omega (arith, r.aligned)) in
      let up = pg_roundup_self (p.sz - sz) (omega (arith, r.whole)) in
      let e' = rw (t, ok, down, up) at e in ground arith
  | inr f ↦ let e' = rw f at e in ground arith
]

granted_high :
    (a n : ℕ) (m : Mem)
    → 0 < n
    → ((x : ℕ) → inside x a n ≤ cover x m.freelist)
    → IsFree m
    → kernel_offset ≤ a
granted_high a n m pos h f = elim (dec_lt a kernel_offset) [
  | yes lt ↦ absurd (ground (arith, h a, f.high a lt))
  | no ge ↦ omega arith
]

pub alloc_pages-Grants :
    (sz : ℕ) (m : Mem) → 0 < sz → sz + 0xfff < 2 ^ 32 → IsFree m → Grants sz m (alloc_pages sz m)
unfolding alloc_pages
alloc_pages-Grants sz m pos small f = elim (Option-cases (take_fit sz m.freelist)) [
  | inl e ↦ rw (e, alloc_pages) (refused (take_fit-none sz m.freelist e))
  | inr ((p, rest), e) ↦
      let (rp, rr, len) = take_fit-AllRuns sz m.freelist e f.runs in
      let (up, above, below) = pg_roundup_lem sz small in
      let fit : sz ≤ p.sz = (cover-take_fit 0 sz m.freelist e).1 in
      let room = fits fit rp.whole up below in
      let (m', e', runs', cov) =
        split_any (pg_roundup sz) p rest m.byte (omega arith) up room rp rr in
      let less : (x : ℕ)
          → inside x p.addr (pg_roundup sz) + cover x m'.freelist ≤ cover x m.freelist =
        λ x. omega (arith, (cover-take_fit x sz m.freelist e).0, cov x) in
      let free : IsFree m' = record {
        runs = runs';
        once = λ x. omega (arith, less x, f.once x);
        high = λ x h. omega (arith, less x, f.high x h);
      } in
      rw (e, alloc_pages)
        (rw e' (
          granted free rp.aligned
            (granted_high p.addr (pg_roundup sz) m (omega arith) (λ x. omega (arith, less x)) f)
            (omega (arith, rp.fits, room)) less
            (λ x c.
              split-byte (pg_roundup sz) p (record m { freelist = rest }) up room rp e' x
                (omega (arith, (cover-take_fit x sz m.freelist e).0)))))
]
