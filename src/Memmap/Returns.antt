-- ===== src/Memmap/Returns.antt =====
-- kernel/paging.c: when `cut_memmap` finds the slots that it needs.
use trunix.Prelude.{
  ℕ, zero, suc, ◌+◌, ◌-◌, ◌%◌, ◌^◌, ◌<◌, ◌≤◌, ◌≡◌, ◌≢◌, refl, inl, inr, Option, some, true, false,
  ltb, leb, if◌then◌else◌, get_or, drop, length, arith, Bool-cases,
}
use trunix.Round.{page, pg_roundup, pg_rounddown, pg_roundup_lem, pg_rounddown_lem}
use trunix.Memmap.{
  KInfo, entry, no_entry, max_memmap, memory_available, add_memmap, cut_entry, cut_slot, cut_slots,
  cut_memmap,
}
use trunix.Memmap.Slots.{get_or-IsEntry}
use trunix.Memmap.Add.{IsMap, with_slot, add_memmap-slot, add_memmap-Added}
use trunix.Memmap.Room.{
  spare, meets, meeting, Uses, Uses-trans, fill_slot-Uses, spare-set, meeting-drop-set,
  meeting-drop,
}
use trunix.Memmap.CutSlot.{emptied, emptied-IsMap}
use trunix.Memmap.Cut.{IsCut, cut_memmap-IsCut}

-- What a call leaves if it has room.
record Leaves (s t n : ℕ) (k : KInfo) (o : Option KInfo) : Type 0 where
  after : KInfo
  returned : o ≡ some after
  map : IsMap after
  uses : Uses s t n k.memmap after.memmap

add_memmap-Leaves :
    (s t a n : ℕ) (k : KInfo)
    → a % page ≡ 0
    → n % page ≡ 0
    → a + n < 2 ^ 32
    → n ≢ 0
    → meets s t (entry a n memory_available) ≡ false
    → IsMap k
    → 0 < spare k.memmap
    → Leaves s t 1 k (add_memmap a n k)
add_memmap-Leaves s t a n k al wh fits nz m v r =
    let (i, es, e, u) = fill_slot-Uses s t 0 (entry a n memory_available) k.memmap m r in
    let k' = with_slot k i es ((a + n) % 2 ^ 32) in
    let e' = add_memmap-slot a n i k es al wh fits nz e in
    record {
      after = k';
      returned = e';
      map = (add_memmap-Added a n k {k' = k'} al wh fits v e').map;
      uses = u;
    }

some-Leaves : (s t : ℕ) (k : KInfo) → IsMap k → Leaves s t 1 k (some k)
some-Leaves s t k v = record {
  after = k;
  returned = refl;
  map = v;
  uses = record { room = omega arith; fewer = λ j. omega arith };
}

cut_entry-Leaves :
    (s t cs ce ms me : ℕ) (k : KInfo)
    → cs % page ≡ 0
    → ce % page ≡ 0
    → ms % page ≡ 0
    → me % page ≡ 0
    → ms ≤ cs
    → cs < ce
    → ce ≤ me
    → me < 2 ^ 32
    → (ms < cs → cs ≡ s)
    → (ce < me → ce ≡ t)
    → s < t
    → IsMap k
    → 2 ≤ spare k.memmap
    → Leaves s t 2 k (cut_entry cs ce ms me k)
unfolding cut_entry
cut_entry-Leaves s t cs ce ms me k a b c d h l u f es et st v r =
    let low : Leaves s t 1 k (if ltb ms cs then add_memmap ms (cs - ms) k else some k) =
      elim (Bool-cases (ltb ms cs)) [
        | inl y ↦
            let eq = es (ground arith) in
            rw y (
              add_memmap-Leaves s t ms (cs - ms) k c (omega arith) (omega arith) (λ z. ground arith)
                (ground arith) v (omega arith))
        | inr n ↦ rw n (some-Leaves s t k v)
      ] in
    let mid = low.after in
    let high : Leaves s t 1 mid (if ltb ce me then add_memmap ce (me - ce) mid else some mid) =
      elim (Bool-cases (ltb ce me)) [
        | inl y ↦
            let eq = et (ground arith) in
            rw y (
              add_memmap-Leaves s t ce (me - ce) mid b (omega arith) (omega arith)
                (λ z. ground arith) (ground arith) low.map (omega (arith, low.uses.room)))
        | inr n ↦ rw n (some-Leaves s t mid low.map)
      ] in
    record {
      after = high.after;
      returned = rw (cut_entry, low.returned) high.returned;
      map = high.map;
      uses = Uses-trans {es' = mid.memmap} {es'' = high.after.memmap} low.uses high.uses;
    }

-- One round, for slot `m`.
record Rounds (s t m : ℕ) (k : KInfo) (o : Option KInfo) : Type 0 where
  after : KInfo
  returned : o ≡ some after
  map : IsMap after
  spends :
      spare k.memmap + meeting s t (drop (suc m) after.memmap)
      ≤ spare after.memmap + meeting s t (drop m k.memmap)

missed-Rounds :
    (s t m : ℕ) (k : KInfo)
    → meets s t (get_or k.memmap m no_entry) ≡ false
    → IsMap k
    → Rounds s t m k (some k)
missed-Rounds s t m k f v = record {
  after = k;
  returned = refl;
  map = v;
  spends = omega (arith, rw f at (meeting-drop s t k.memmap m));
}

met-Rounds :
    (s t m : ℕ) (k : KInfo) (o : Option KInfo)
    → meets s t (get_or k.memmap m no_entry) ≡ true
    → (get_or k.memmap m no_entry).len ≢ 0
    → Leaves s t 2 (emptied k m) o
    → Rounds s t m k o
met-Rounds s t m k o y nz w =
    let ty = (get_or k.memmap m no_entry).type in
    record {
      after = w.after;
      returned = w.returned;
      map = w.map;
      spends = omega (
        arith,
        rw y at (meeting-drop s t k.memmap m),
        w.uses.room,
        w.uses.fewer (suc m),
        spare-set ty m k.memmap nz,
        meeting-drop-set s t ty m k.memmap (suc m),
      );
    }

cut_slot-Rounds :
    (s t m : ℕ) (k : KInfo)
    → s % page ≡ 0
    → t % page ≡ 0
    → IsMap k
    → meeting s t (drop m k.memmap) ≤ spare k.memmap
    → Rounds s t m k (cut_slot s t m k)
unfolding cut_slot
cut_slot-Rounds s t m k sa ta v h =
    let en = get_or k.memmap m no_entry in
    let r = get_or-IsEntry k.memmap m v.entries in
    let ms = en.addr in
    let me = en.addr + en.len in
    let cs : ℕ = if ltb s ms then ms else s in
    let ce : ℕ = if ltb me t then me else t in
    let es : en.addr % 2 ^ 32 ≡ ms = omega (arith, r.fits) in
    let el : (en.addr + en.len) % 2 ^ 32 ≡ me = omega (arith, r.fits) in
    let w = r.whole in
    let al = r.aligned in
    let fit = r.fits in
    elim (Bool-cases (leb ce cs)) [
      | inl miss ↦ rw (cut_slot, es, el) (rw miss (missed-Rounds s t m k (ground arith) v))
      | inr hit ↦
          let y : meets s t en ≡ true = ground arith in
          let nz : en.len ≢ 0 = λ z. ground arith in
          let more = spare-set en.type m k.memmap nz in
          let two : 2 ≤ spare (emptied k m).memmap =
            omega (arith, more, rw y at (meeting-drop s t k.memmap m)) in
          rw (cut_slot, es, el)
            (rw hit (
              met-Rounds s t m k _ y nz (
                cut_entry-Leaves s t cs ce ms me (emptied k m) (ground arith) (ground arith) al
                  (omega arith) (ground arith) (ground arith) (ground arith) fit (λ z. ground arith)
                  (λ z. ground arith) (ground arith) (emptied-IsMap k m v) two)))
    ]

cut_slots-some :
    (rounds s t m : ℕ) (k : KInfo)
    → s % page ≡ 0
    → t % page ≡ 0
    → IsMap k
    → meeting s t (drop m k.memmap) ≤ spare k.memmap
    → (k' : KInfo) × (cut_slots rounds s t m k ≡ some k')
      × (spare k.memmap ≤ spare k'.memmap + meeting s t (drop m k.memmap))
unfolding cut_slots
cut_slots-some zero s t m k sa ta v h = (k, refl, omega arith)
cut_slots-some (suc rounds) s t m k sa ta v h = elim (Bool-cases (ltb m k.mmap_n)) [
  | inl y ↦
      let w = cut_slot-Rounds s t m k sa ta v h in
      let (k', e, u) =
        cut_slots-some rounds s t (suc m) w.after sa ta w.map (omega (arith, h, w.spends)) in
      (k', rw (cut_slots, y) (rw w.returned e), omega (arith, u, w.spends))
  | inr n ↦ (k, rw (cut_slots, n) refl, omega arith)
]

-- If there are at least as many free slots as entries that meet the rounded run, `cut_memmap`
-- returns, and takes exactly that run out of the map: it does not panic. For each of these entries
-- it uses at most one free slot.
pub cut_memmap-some :
    (start end : ℕ) (k : KInfo)
    → end + 0xfff < 2 ^ 32
    → length k.memmap ≡ max_memmap
    → IsMap k
    → meeting (pg_rounddown start) (pg_roundup end) k.memmap ≤ spare k.memmap
    → (k' : KInfo) × (cut_memmap start end k ≡ some k')
      × IsCut (pg_rounddown start) (pg_roundup end) k k'
      × (spare k.memmap ≤ spare k'.memmap + meeting (pg_rounddown start) (pg_roundup end) k.memmap)
unfolding cut_memmap
cut_memmap-some start end k h l v room =
    let (k', e, u) =
      cut_slots-some max_memmap (pg_rounddown start) (pg_roundup end) 0 k (pg_rounddown_lem start).0
        (pg_roundup_lem end h).0 v room in
    (k', e, cut_memmap-IsCut start end k h l v e, u)
