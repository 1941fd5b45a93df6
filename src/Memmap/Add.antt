-- ===== src/Memmap/Add.antt =====
-- kernel/paging.c: what `add_memmap` adds.
use trunix.Prelude.{
  ℕ, ◌+◌, ◌%◌, ◌^◌, ◌<◌, ◌≤◌, ◌≡◌, ◌≢◌, refl, none, some, true, false, ◌||◌, List, ltb, leb,
  if◌then◌else◌, take, drop, ◌∙◌, length, arith, Option-cases, inl, inr, subst, ℕ_discrete,
}
use trunix.Round.{
  roundup, rounddown, page, pg_roundup, pg_rounddown, pg_roundup_self, pg_rounddown_self,
}
use trunix.Memmap.{Entry, KInfo, entry, memory_available, fill_slot, add_memmap}
use trunix.Memmap.Slots.{
  within, covers, IsEntry, AllEntries, Filled, covers-drop_mono, fill_slot-Filled,
}

-- The entries are whole pages, and those from `mmap_n` on are empty.
pub record IsMap (k : KInfo) : Type 0 where
  pub entries : AllEntries k.memmap
  pub used : (x : ℕ) → covers x (drop k.mmap_n k.memmap) ≡ false
  pub within_array : k.mmap_n ≤ length k.memmap

-- The record of the initial ram disk is the same.
abbrev pub SameInitrd : KInfo → KInfo → Type 0
SameInitrd k k' = (k'.initrd_start ≡ k.initrd_start) × (k'.initrd_end ≡ k.initrd_end)

pub SameInitrd-trans : (k k' k'' : KInfo) → SameInitrd k k' → SameInitrd k' k'' → SameInitrd k k''
SameInitrd-trans k k' k'' u v = (v.0 ∙ u.0, v.1 ∙ u.1)

-- The map `k'` is the map `k` with the `n` bytes at `a`; entries that do not hold an address are where
-- they were, as far as it goes.
pub record Added (a n : ℕ) (k k' : KInfo) : Type 0 where
  pub map : IsMap k'
  pub covered :
      (x : ℕ) → covers x k'.memmap ≡ (within x (entry a n memory_available) || covers x k.memmap)
  pub clear :
      (x m : ℕ)
      → within x (entry a n memory_available) ≡ false
      → covers x (take m k'.memmap) ≡ covers x (take m k.memmap)
  pub same_length : length k'.memmap ≡ length k.memmap
  pub initrd : SameInitrd k k'
  pub grows : k.mmap_n ≤ k'.mmap_n

pub Added-none : (a n : ℕ) (k : KInfo) → n ≡ 0 → IsMap k → Added a n k k
Added-none a n k z v = record {
  map = v;
  covered = λ x. ground arith;
  clear = λ x m h. refl;
  same_length = refl;
  initrd = (refl, refl);
  grows = omega arith;
}

-- The map that `add_memmap` makes of a slot that it has filled.
abbrev pub with_slot : KInfo → ℕ → List Entry → ℕ → KInfo
with_slot k i es high = record k {
  memmap = es;
  mmap_n = if leb k.mmap_n i then i + 1 else k.mmap_n;
  mem_high_phys = if ltb k.mem_high_phys high then high else k.mem_high_phys;
}

pub Filled-Added :
    (a n i high : ℕ) (k : KInfo) (es : List Entry)
    → IsEntry (entry a n memory_available)
    → IsMap k
    → Filled (entry a n memory_available) 0 k.memmap i es
    → Added a n k (with_slot k i es high)
Filled-Added a n i high k es r v w =
    let m = (with_slot k i es high).mmap_n in
    let up : k.mmap_n ≤ m = ground arith in
    let over : i < 0 + m = ground arith in
    record {
      map = record {
        entries = w.entries r v.entries;
        used = λ x. w.suffix x m over ∙ covers-drop_mono x k.memmap k.mmap_n m up (v.used x);
        within_array = ground (arith, w.upper, w.same_length, v.within_array);
      };
      covered = w.covered;
      clear = w.clear;
      same_length = w.same_length;
      initrd = (refl, refl);
      grows = up;
    }

pub add_memmap-slot :
    (a n i : ℕ) (k : KInfo) (es : List Entry)
    → a % page ≡ 0
    → n % page ≡ 0
    → a + n < 2 ^ 32
    → n ≢ 0
    → fill_slot 0 (entry a n memory_available) k.memmap ≡ some (i, es)
    → add_memmap a n k ≡ some (with_slot k i es ((a + n) % 2 ^ 32))
unfolding add_memmap
add_memmap-slot a n i k es al wh fits nz f =
    let la : a % 2 ^ 32 ≡ a = omega arith in
    let ln : n % 2 ^ 32 ≡ n = omega arith in
    let ra = pg_roundup_self a al in
    let rn = pg_rounddown_self n wh in rw (la, ln, ra, rn) (ground (arith, f))

add_memmap-full :
    (a n : ℕ) (k : KInfo)
    → a % page ≡ 0
    → n % page ≡ 0
    → a + n < 2 ^ 32
    → n ≢ 0
    → fill_slot 0 (entry a n memory_available) k.memmap ≡ none
    → add_memmap a n k ≡ none
unfolding add_memmap
add_memmap-full a n k al wh fits nz f =
    let la : a % 2 ^ 32 ≡ a = omega arith in
    let ln : n % 2 ^ 32 ≡ n = omega arith in
    rw (la, ln, pg_roundup_self a al, pg_rounddown_self n wh) (ground (arith, f))

add_memmap-zero : (a n : ℕ) (k : KInfo) → n ≡ 0 → add_memmap a n k ≡ some k
unfolding add_memmap
add_memmap-zero a n k z = ground arith

-- Of whole pages `add_memmap` adds exactly these, unless no slot is free, when it panics.
pub add_memmap-Added :
    (a n : ℕ) (k : KInfo) {k' : KInfo}
    → a % page ≡ 0
    → n % page ≡ 0
    → a + n < 2 ^ 32
    → IsMap k
    → add_memmap a n k ≡ some k'
    → Added a n k k'
add_memmap-Added a n k {k'} al wh fits v e = elim (ℕ_discrete n 0) [
  | yes z ↦
      let same : k ≡ k' = cc (add_memmap-zero a n k z) in
      subst (Added a n k) same (Added-none a n k z v)
  | no nz ↦ elim (Option-cases (fill_slot 0 (entry a n memory_available) k.memmap)) [
    | inl f ↦ cc (add_memmap-full a n k al wh fits nz f)
    | inr ((i, es), f) ↦
        let w = fill_slot-Filled (entry a n memory_available) 0 k.memmap {i = i} {es' = es} f in
        let same : with_slot k i es ((a + n) % 2 ^ 32) ≡ k' =
          cc (add_memmap-slot a n i k es al wh fits nz f) in
        subst (Added a n k) same (Filled-Added a n i ((a + n) % 2 ^ 32) k es (omega arith) v w)
  ]
]

rounded_beyond :
    (a n : ℕ)
    → a % page ≢ 0
    → page ≤ n
    → a % page + n % page < page
    → a + n + page < 2 ^ 32
    → within (a + n) (entry (pg_roundup (a % 2 ^ 32)) (pg_rounddown (n % 2 ^ 32)) memory_available)
      ≡ true
unfolding roundup rounddown
rounded_beyond a n h l u fits = ground arith

-- The run of `n` bytes at `a` ends below the address `a + n`. If `a` is not at a page boundary and the
-- run ends in the page after its last whole one, `add_memmap` adds that address too: the start is
-- moved up, and the length is rounded down on its own.
add_memmap-beyond :
    (a n : ℕ) (k : KInfo) {k' : KInfo}
    → a % page ≢ 0
    → page ≤ n
    → a % page + n % page < page
    → a + n + page < 2 ^ 32
    → add_memmap a n k ≡ some k'
    → covers (a + n) k'.memmap ≡ true
unfolding add_memmap
add_memmap-beyond a n k {k'} h l u fits e =
    let new = entry (pg_roundup (a % 2 ^ 32)) (pg_rounddown (n % 2 ^ 32)) memory_available in
    elim (Option-cases (fill_slot 0 new k.memmap)) [
      | inl f ↦ ground arith
      | inr ((i, es), f) ↦
          let w = fill_slot-Filled new 0 k.memmap {i = i} {es' = es} f in
          ground (arith, w.covered (a + n), rounded_beyond a n h l u fits)
    ]
