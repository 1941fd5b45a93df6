-- ===== src/Memmap/CutSlot.antt =====
-- kernel/paging.c: what `cut_memmap` does to one slot of the map.
use trunix.Prelude.{
  ℕ, zero, suc, ◌+◌, ◌-◌, ◌%◌, ◌^◌, ◌<◌, ◌≤◌, ◌≡◌, refl, some, Bool, true, false, ◌&&◌, List, [],
  ◌∷◌, ltb, leb, if◌then◌else◌, get_or, set, take, length, arith, Bool-cases, Option-cases, inl,
  inr, subst, length-set, ◌∙◌,
}
use trunix.Round.{page}
use trunix.Memmap.{Entry, KInfo, entry, no_entry, add_memmap, cut_entry, cut_slot}
use trunix.Memmap.Slots.{
  covers-drop-set, within, covers, get_or-IsEntry, set-AllEntries, covers-set, covers-take-set,
  covers-take-suc,
}
use trunix.Memmap.Add.{IsMap, SameInitrd, SameInitrd-trans, Added, Added-none, add_memmap-Added}

-- The address `x` lies from `s` on and below `t`.
abbrev pub between : ℕ → ℕ → ℕ → Bool
between x s t = leb s x && ltb x t

-- The two ends of an entry that are kept.
record Kept (cs ce ms me : ℕ) (k k' : KInfo) : Type 0 where
  middle : KInfo
  below : Added ms (cs - ms) k middle
  above : Added ce (me - ce) middle k'

cut_entry-Kept :
    (cs ce ms me : ℕ) (k : KInfo) {k' : KInfo}
    → cs % page ≡ 0
    → ce % page ≡ 0
    → ms % page ≡ 0
    → me % page ≡ 0
    → ms ≤ cs
    → cs < ce
    → ce ≤ me
    → me < 2 ^ 32
    → IsMap k
    → cut_entry cs ce ms me k ≡ some k'
    → Kept cs ce ms me k k'
unfolding cut_entry
cut_entry-Kept cs ce ms me k {k'} a b c d h l u f v e =
    elim (Option-cases (if ltb ms cs then add_memmap ms (cs - ms) k else some k)) [
      | inl n ↦ ground arith
      | inr (mid, r) ↦
          let low : Added ms (cs - ms) k mid = elim (Bool-cases (ltb ms cs)) [
            | inl t ↦ add_memmap-Added ms (cs - ms) k c (omega arith) (omega arith) v (rw t at r)
            | inr n ↦
                subst (Added ms (cs - ms) k) (ground arith)
                  (Added-none ms (cs - ms) k (ground arith) v)
          ] in
          record {
            middle = mid;
            below = low;
            above = elim (Bool-cases (ltb ce me)) [
              | inl t ↦
                  add_memmap-Added ce (me - ce) mid b (omega arith) (omega arith) low.map
                    (ground arith)
              | inr n ↦
                  subst (Added ce (me - ce) mid) (ground arith)
                    (Added-none ce (me - ce) mid (ground arith) low.map)
            ];
          }
    ]

-- The map `k'` is `k` after the round for slot `m`.
pub record CutTo (s t m : ℕ) (k k' : KInfo) : Type 0 where
  pub map : IsMap k'
  pub outside : (x : ℕ) → between x s t ≡ false → covers x k'.memmap ≡ covers x k.memmap
  pub inside :
      (x : ℕ)
      → between x s t ≡ true
      → covers x (take m k.memmap) ≡ false
      → covers x (take (suc m) k'.memmap) ≡ false
  pub same_length : length k'.memmap ≡ length k.memmap
  pub initrd : SameInitrd k k'
  pub grows : k.mmap_n ≤ k'.mmap_n

-- A slot that does not meet the run.
passed :
    (s t m : ℕ) (k : KInfo)
    → ((x : ℕ) → between x s t ≡ true → within x (get_or k.memmap m no_entry) ≡ false)
    → IsMap k
    → CutTo s t m k k
passed s t m k miss v = record {
  map = v;
  outside = λ x o. refl;
  inside = λ x i c. ground (arith, covers-take-suc x k.memmap m, miss x i);
  same_length = refl;
  initrd = (refl, refl);
  grows = omega arith;
}

-- The map with slot `m` empty.
abbrev pub emptied : KInfo → ℕ → KInfo
emptied k m = record k { memmap = set k.memmap m (entry 0 0 (get_or k.memmap m no_entry).type) }

pub emptied-IsMap : (k : KInfo) (m : ℕ) → IsMap k → IsMap (emptied k m)
emptied-IsMap k m v = record {
  entries = set-AllEntries k.memmap m _ (omega arith) v.entries;
  used = λ x. covers-drop-set x _ k.memmap k.mmap_n m (v.used x);
  within_array =
      omega (
        arith,
        length-set k.memmap m (entry 0 0 (get_or k.memmap m no_entry).type),
        v.within_array,
      );
}

get_or-set_empty :
    (x t : ℕ) (es : List Entry) (m : ℕ)
    → within x (get_or (set es m (entry 0 0 t)) m no_entry) ≡ false
get_or-set_empty x t [] m = ground arith
get_or-set_empty x t (e ∷ es) zero = ground arith
get_or-set_empty x t (e ∷ es) (suc m) = get_or-set_empty x t es m

met :
    (s t cs ce ms me m : ℕ) (k k' : KInfo)
    → (get_or k.memmap m no_entry).addr ≡ ms
    → ms + (get_or k.memmap m no_entry).len ≡ me
    → ms ≤ cs
    → cs < ce
    → ce ≤ me
    → s ≤ cs
    → ce ≤ t
    → (ms < cs → cs ≡ s)
    → (ce < me → ce ≡ t)
    → Kept cs ce ms me (emptied k m) k'
    → CutTo s t m k k'
met s t cs ce ms me m k k' es el a b c d e f g w =
    let k0 = emptied k m in
    let ty = (get_or k.memmap m no_entry).type in
    record {
      map = w.above.map;
      outside =
          λ x o. ground (arith, w.above.covered x, w.below.covered x, covers-set x ty k.memmap m);
      inside = λ x i n. ground (
        arith,
        w.above.clear x (suc m),
        w.below.clear x (suc m),
        covers-take-suc x k0.memmap m,
        covers-take-set x ty k.memmap m m n,
        get_or-set_empty x ty k.memmap m,
      );
      initrd = SameInitrd-trans k w.middle k' w.below.initrd w.above.initrd;
      same_length = w.above.same_length ∙ w.below.same_length ∙ length-set k.memmap m _;
      grows = omega (arith, w.above.grows, w.below.grows);
    }

pub cut_slot-CutTo :
    (s t m : ℕ) (k : KInfo) {k' : KInfo}
    → s % page ≡ 0
    → t % page ≡ 0
    → IsMap k
    → cut_slot s t m k ≡ some k'
    → CutTo s t m k k'
unfolding cut_slot
cut_slot-CutTo s t m k {k'} sa ta v e =
    let en = get_or k.memmap m no_entry in
    let r = get_or-IsEntry k.memmap m v.entries in
    let ms = en.addr % 2 ^ 32 in
    let me = (en.addr + en.len) % 2 ^ 32 in
    let cs : ℕ = if ltb s ms then ms else s in
    let ce : ℕ = if ltb me t then me else t in
    let es : en.addr ≡ ms = omega (arith, r.fits) in
    let el : ms + en.len ≡ me = omega (arith, r.fits) in
    let w = r.whole in
    let al = r.aligned in
    elim (Bool-cases (leb ce cs)) [
      | inl miss ↦
          let same : k ≡ k' = ground arith in
          subst (CutTo s t m k) same (passed s t m k (λ x i. ground arith) v)
      | inr hit ↦
          let e' : cut_entry cs ce ms me (emptied k m) ≡ some k' = ground arith in
          met s t cs ce ms me m k k' es el (ground arith) (ground arith) (ground arith)
            (ground arith) (ground arith) (ground arith) (ground arith)
            (cut_entry-Kept cs ce ms me (emptied k m) (ground arith) (ground arith) (omega arith)
              (omega arith) (ground arith) (ground arith) (ground arith) (omega arith)
              (emptied-IsMap k m v) e')
    ]
