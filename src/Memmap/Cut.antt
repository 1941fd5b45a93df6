-- ===== src/Memmap/Cut.antt =====
-- kernel/paging.c: what `cut_memmap` takes out of the map.
use trunix.Prelude.{
  ℕ, zero, suc, ◌+◌, ◌%◌, ◌^◌, ◌<◌, ◌≤◌, ◌≡◌, refl, some, true, false, ◌&&◌, not, ltb, take, length,
  arith, Bool-cases, Option-cases, inl, inr, subst, ◌∙◌,
}
use trunix.Round.{page, pg_roundup, pg_rounddown, pg_roundup_lem, pg_rounddown_lem}
use trunix.Memmap.{KInfo, max_memmap, cut_slot, cut_slots, cut_memmap}
use trunix.Memmap.Slots.{covers_split, covers-drop_mono, covers}
use trunix.Memmap.Add.{IsMap, SameInitrd, SameInitrd-trans}
use trunix.Memmap.CutSlot.{between, cut_slot-CutTo}

-- The map `k'` is the map `k` without the addresses from `s` on and below `t`.
pub record IsCut (s t : ℕ) (k k' : KInfo) : Type 0 where
  pub map : IsMap k'
  pub outside : (x : ℕ) → between x s t ≡ false → covers x k'.memmap ≡ covers x k.memmap
  pub gone : (x : ℕ) → between x s t ≡ true → covers x k'.memmap ≡ false
  pub same_length : length k'.memmap ≡ length k.memmap
  pub initrd : SameInitrd k k'

-- The loop has passed all slots that are in use.
ended :
    (s t m : ℕ) (k : KInfo)
    → k.mmap_n ≤ m
    → IsMap k
    → ((x : ℕ) → between x s t ≡ true → covers x (take m k.memmap) ≡ false)
    → IsCut s t k k
ended s t m k h v before = record {
  map = v;
  outside = λ x o. refl;
  gone = λ x i. ground (
    arith,
    covers_split x k.memmap m,
    before x i,
    covers-drop_mono x k.memmap k.mmap_n m h (v.used x),
  );
  same_length = refl;
  initrd = (refl, refl);
}

cut_slots-IsCut :
    (rounds s t m : ℕ) (k : KInfo) {k' : KInfo}
    → s % page ≡ 0
    → t % page ≡ 0
    → length k.memmap ≤ m + rounds
    → IsMap k
    → ((x : ℕ) → between x s t ≡ true → covers x (take m k.memmap) ≡ false)
    → cut_slots rounds s t m k ≡ some k'
    → IsCut s t k k'
unfolding cut_slots
cut_slots-IsCut zero s t m k {k'} sa ta h v before e =
    subst (IsCut s t k) (ground arith) (ended s t m k (omega (arith, v.within_array)) v before)
cut_slots-IsCut (suc rounds) s t m k {k'} sa ta h v before e = elim (Bool-cases (ltb m k.mmap_n)) [
  | inl go ↦ elim (Option-cases (cut_slot s t m k)) [
    | inl n ↦ ground arith
    | inr (mid, r) ↦
        let c = cut_slot-CutTo s t m k sa ta v r in
        let i =
          cut_slots-IsCut rounds s t (suc m) mid {k' = k'} sa ta (omega (arith, c.same_length))
            c.map (λ x b. c.inside x b (before x b)) (ground arith) in
        record {
          map = i.map;
          outside = λ x o. i.outside x o ∙ c.outside x o;
          gone = i.gone;
          same_length = i.same_length ∙ c.same_length;
          initrd = SameInitrd-trans k mid k' c.initrd i.initrd;
        }
  ]
  | inr stop ↦ subst (IsCut s t k) (ground arith) (ended s t m k (ground arith) v before)
]

-- Unless it runs out of slots and panics, `cut_memmap` takes exactly the pages of the run out of the
-- map: an address from the start's page boundary to the end's is covered no more, every other one is
-- covered if it was before, and the entries stay whole pages.
pub cut_memmap-IsCut :
    (start end : ℕ) (k : KInfo) {k' : KInfo}
    → end + 0xfff < 2 ^ 32
    → length k.memmap ≡ max_memmap
    → IsMap k
    → cut_memmap start end k ≡ some k'
    → IsCut (pg_rounddown start) (pg_roundup end) k k'
unfolding cut_memmap
cut_memmap-IsCut start end k {k'} h l v e =
    cut_slots-IsCut max_memmap (pg_rounddown start) (pg_roundup end) 0 k {k' = k'}
      (pg_rounddown_lem start).0 (pg_roundup_lem end h).0 (omega arith) v (λ x i. refl) e

pub covers-IsCut :
    (s t x : ℕ) (k k' : KInfo)
    → IsCut s t k k'
    → covers x k'.memmap ≡ (covers x k.memmap && not (between x s t))
covers-IsCut s t x k k' c = elim (Bool-cases (between x s t)) [
  | inl y ↦ rw y (c.gone x y ∙ ground arith)
  | inr n ↦ rw n (c.outside x n ∙ ground arith)
]
