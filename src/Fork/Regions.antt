-- ===== src/Fork/Regions.antt =====
-- kernel/proc.c: what the loop of `sys_fork` copies.
use trunix.Prelude.{
  ℕ, ◌+◌, ◌-◌, ◌%◌, ◌^◌, ◌<◌, ◌≤◌, ◌≡◌, ◌⊎◌, refl, some, List, [], ◌∷◌, true, false, ◌&&◌, ltb, leb,
  arith, ◌∙◌, ap,
}
use trunix.Round.{page, kernel_offset, pg_roundup, pg_roundup_self, v2p, p2v}
use trunix.Block.{Block, cover, inside, inside_split}
use trunix.Vm.{Vm}
use trunix.Vm.Walk.{walk, IsSpace}
use trunix.Vm.Range.{Outside, Ranged}
use trunix.Vm.Take.{IsSpace-less}
use trunix.Machine.{Region}
use trunix.Fork.{moved}

-- The bytes that the loop takes from the pages of the child.
abbrev pub total_len : List Region → ℕ
total_len [] = 0
total_len (r ∷ rs) = pg_roundup r.len + total_len rs

abbrev pub AllRegions : (Region → Type 0) → List Region → Type 0
AllRegions P [] = Unit {0}
AllRegions P (r ∷ rs) = P r × AllRegions P rs

abbrev pub Apart : List Region → Type 0
Apart [] = Unit {0}
Apart (r ∷ rs) = AllRegions (λ q. r.va + r.len ≤ q.va ⊎ q.va + q.len ≤ r.va) rs × Apart rs

-- A region of whole pages of the user's half, with its physical memory.
pub record IsUser (r : Region) : Type 0 where
  pub va_aligned : r.va % page ≡ 0
  pub whole : r.len % page ≡ 0
  pub va_fits : r.va + r.len ≤ kernel_offset
  pub pa_fits : r.pa + r.len ≤ kernel_offset

-- Regions that do not overlap, and pages from `mem` on for their copies; both are in use, and are not
-- the same.
pub record IsCopyable (rs : List Region) (mem : ℕ) (fl : List Block) : Type 0 where
  pub user : AllRegions IsUser rs
  pub source : AllRegions (λ r. (i : ℕ) → i < r.len → cover (p2v r.pa + i) fl ≡ 0) rs
  pub other :
      AllRegions (λ r. (i : ℕ) → i < r.len → inside (p2v r.pa + i) mem (total_len rs) ≡ 0) rs
  pub apart : Apart rs
  pub dest : (i : ℕ) → i < total_len rs → cover (mem + i) fl ≡ 0
  pub start : mem % page ≡ 0
  pub high : kernel_offset ≤ mem
  pub fits : mem + total_len rs < 2 ^ 32

-- Where the space `pd` of `s'` has the byte `b` at `x`: in one of the `n` bytes from `mem` on.
pub record Reads (pd mem n : ℕ) (s' : Vm) (x b : ℕ) : Type 0 where
  pub pa : ℕ
  pub walks : walk s' pd x ≡ some pa
  pub within : inside (p2v pa) mem n ≡ 1
  pub byte : s'.mem.byte (p2v pa) ≡ b

-- In `s'` the space `pd` reads in each of the regions what stood in its memory in `s`, from bytes of its
-- own; elsewhere it is what it was, and so is all else that was in use.
pub record CopiesAll (pd mem : ℕ) (rs : List Region) (s s' : Vm) : Type 0 where
  pub space : IsSpace pd s'
  pub reads :
      AllRegions
        (λ r.
          (i : ℕ)
          → i < r.len
          → Reads pd mem (total_len rs) s' (r.va + i) (s.mem.byte (p2v r.pa + i)))
        rs
  pub walks :
      (x : ℕ)
      → x < kernel_offset
      → AllRegions (λ r. inside x r.va r.len ≡ 0) rs
      → walk s' pd x ≡ walk s pd x
  pub kernel : (i : ℕ) → 512 ≤ i → s'.word pd i ≡ s.word pd i
  pub less : (x : ℕ) → cover x s'.mem.freelist ≤ cover x s.mem.freelist
  pub bytes :
      (x : ℕ)
      → cover x s.mem.freelist ≡ 0
      → inside x mem (total_len rs) ≡ 0
      → s'.mem.byte x ≡ s.mem.byte x
  pub others : (q j : ℕ) → Outside pd s q → s'.word q j ≡ s.word q j
  pub outside : (q : ℕ) → Outside pd s q → Outside pd s' q

pub AllRegions-map :
    {P Q : Region → Type 0} (rs : List Region)
    → ((r : Region) → P r → Q r)
    → AllRegions P rs
    → AllRegions Q rs
AllRegions-map [] f a = tt
AllRegions-map (r ∷ rs) f a = (f r a.0, AllRegions-map rs f a.1)

pub AllRegions-zip :
    {P Q R : Region → Type 0} (rs : List Region)
    → ((r : Region) → P r → Q r → R r)
    → AllRegions P rs
    → AllRegions Q rs
    → AllRegions R rs
AllRegions-zip [] f a b = tt
AllRegions-zip (r ∷ rs) f a b = (f r a.0 b.0, AllRegions-zip rs f a.1 b.1)

pub CopiesAll-none : (pd mem : ℕ) (s : Vm) → IsSpace pd s → CopiesAll pd mem [] s s
CopiesAll-none pd mem s v = record {
  space = v;
  reads = tt;
  walks = λ x h a. refl;
  kernel = λ i h. refl;
  less = λ x. omega arith;
  bytes = λ x c o. refl;
  others = λ q j o. refl;
  outside = λ q o. o;
}

-- One region, and then the rest.
module _ (pd mem : ℕ) (r : Region) (rs : List Region) (s s1 : Vm)
    (c : IsCopyable (r ∷ rs) mem s.mem.freelist) (w : Ranged pd r.va (v2p mem) r.len s s1) where
  abbrev pub s2 : Vm
  s2 = moved mem (p2v r.pa) r.len s1

  user : IsUser r
  user = c.user.0

  whole : pg_roundup r.len ≡ r.len
  whole = pg_roundup_self r.len user.whole

  dest_taken : (i : ℕ) → i < r.len + total_len rs → cover (mem + i) s.mem.freelist ≡ 0
  dest_taken i h = c.dest i (rw whole h)

  still_taken : (x : ℕ) → cover x s.mem.freelist ≡ 0 → cover x s1.mem.freelist ≡ 0
  still_taken x e = omega (arith, w.less x)

  -- Outside the pages of all the copies is outside those of the rest.
  later :
      (x : ℕ) → inside x mem (total_len (r ∷ rs)) ≡ 0 → inside x (mem + r.len) (total_len rs) ≡ 0
  later x e =
      let e' : inside x mem (r.len + total_len rs) ≡ 0 = rw whole at e in
      omega (arith, inside_split x mem r.len (total_len rs))

  pub rest-IsCopyable : IsCopyable rs (mem + r.len) s2.mem.freelist
  rest-IsCopyable = record {
    user = c.user.1;
    source = AllRegions-map rs (λ q f i h. still_taken (p2v q.pa + i) (f i h)) c.source.1;
    other = AllRegions-map rs (λ q f i h. later (p2v q.pa + i) (f i h)) c.other.1;
    apart = c.apart.1;
    dest = λ i h.
        let e : mem + r.len + i ≡ mem + (r.len + i) = omega arith in
        rw e (still_taken (mem + (r.len + i)) (dest_taken (r.len + i) (omega arith)));
    start = omega (arith, c.start, user.whole);
    high = omega (arith, c.high);
    fits = omega (arith, whole, c.fits);
  }

  pub s2-IsSpace : IsSpace pd s2
  s2-IsSpace =
      IsSpace-less pd s1 s2.mem w.space
        (record { runs = w.space.free.runs; once = w.space.free.once; high = w.space.free.high })
        (λ x. omega arith)

  same_walk : (x : ℕ) → walk s2 pd x ≡ walk s1 pd x
  unfolding walk
  same_walk x = refl

  earlier : (x : ℕ) → inside x mem (total_len (r ∷ rs)) ≡ 0 → inside x mem r.len ≡ 0
  earlier x e =
      let e' : inside x mem (r.len + total_len rs) ≡ 0 = rw whole at e in
      omega (arith, inside_split x mem r.len (total_len rs))

  address : (i : ℕ) → i < r.len → p2v (v2p mem + i) ≡ mem + i
  unfolding p2v v2p
  address i h = omega (arith, c.high, c.fits, whole)

  -- What is outside the copy of the region is not written.
  kept :
      (x : ℕ) → cover x s.mem.freelist ≡ 0 → inside x mem r.len ≡ 0 → s2.mem.byte x ≡ s.mem.byte x
  kept x e o =
      let out : (leb mem x && ltb x (mem + r.len)) ≡ false = ground arith in rw out (w.bytes x e)

  written : (i : ℕ) → i < r.len → s2.mem.byte (mem + i) ≡ s.mem.byte (p2v r.pa + i)
  written i h =
      let inn : (leb mem (mem + i) && ltb (mem + i) (mem + r.len)) ≡ true = ground arith in
      let off : mem + i - mem ≡ i = omega arith in
      rw (inn, off) (w.bytes (p2v r.pa + i) (c.source.0 i h))

  module _ (s' : Vm) (o : CopiesAll pd (mem + r.len) rs s2 s') where
    first_bytes :
        (i : ℕ)
        → i < r.len
        → Reads pd mem (total_len (r ∷ rs)) s' (r.va + i) (s.mem.byte (p2v r.pa + i))
    first_bytes i h = record {
      pa = v2p mem + i;
      walks =
          let inn : (leb r.va (r.va + i) && ltb (r.va + i) (r.va + r.len)) ≡ true = ground arith in
          let off : r.va + i - r.va ≡ i = omega arith in
          o.walks (r.va + i) (omega (arith, user.va_fits))
            (AllRegions-map rs (λ q d. ground arith) c.apart.0)
          ∙ same_walk (r.va + i)
          ∙ w.walks (r.va + i) (omega (arith, user.va_fits))
          ∙ rw (inn, off) refl;
      within = rw (address i h, whole) (ground arith);
      byte =
          ap s'.mem.byte (address i h)
          ∙ o.bytes (mem + i) (still_taken (mem + i) (dest_taken i (omega arith))) (ground arith)
          ∙ written i h;
    }

    later_bytes :
        (q : Region)
        → ((i : ℕ) → i < q.len → cover (p2v q.pa + i) s.mem.freelist ≡ 0)
          × ((i : ℕ) → i < q.len → inside (p2v q.pa + i) mem (total_len (r ∷ rs)) ≡ 0)
        → ((i : ℕ)
            → i < q.len
            → Reads pd (mem + r.len) (total_len rs) s' (q.va + i) (s2.mem.byte (p2v q.pa + i)))
        → (i : ℕ) → i < q.len
        → Reads pd mem (total_len (r ∷ rs)) s' (q.va + i) (s.mem.byte (p2v q.pa + i))
    later_bytes q src rd i h =
        let x = rd i h in
        record {
          pa = x.pa;
          walks = x.walks;
          within = rw whole (ground (arith, x.within));
          byte = x.byte ∙ kept (p2v q.pa + i) (src.0 i h) (earlier (p2v q.pa + i) (src.1 i h));
        }

    stays_out : (q : ℕ) → Outside pd s q → Outside pd s2 q
    stays_out q z =
        let z' = w.outside q z in
        record { taken = z'.taken; ne_dir = z'.ne_dir; ne_table = z'.ne_table }

    pub CopiesAll-cons : CopiesAll pd mem (r ∷ rs) s s'
    CopiesAll-cons = record {
      space = o.space;
      reads = (
        first_bytes,
        AllRegions-zip rs later_bytes (AllRegions-zip rs (λ q a b. (a, b)) c.source.1 c.other.1)
            o.reads,
      );
      walks = λ x h a.
          let out : (leb r.va x && ltb x (r.va + r.len)) ≡ false = ground arith in
          o.walks x h a.1 ∙ same_walk x ∙ w.walks x h ∙ rw out refl;
      kernel = λ i h. o.kernel i h ∙ w.kernel i h;
      less = λ x. omega (arith, o.less x, w.less x);
      bytes = λ x e i. o.bytes x (still_taken x e) (later x i) ∙ kept x e (earlier x i);
      others = λ q j z. o.others q j (stays_out q z) ∙ w.others q j z;
      outside = λ q z. o.outside q (stays_out q z);
    }
