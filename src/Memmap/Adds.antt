-- ===== src/Memmap/Adds.antt =====
-- kernel/paging.c: `add_memmap` of any run of bytes, and the slots that it uses.
use trunix.Prelude.{
  ℕ, ◌+◌, ◌%◌, ◌^◌, ◌<◌, ◌≤◌, ◌≡◌, refl, inl, inr, some, false, ◌==◌, List, [], ◌∷◌, length, arith,
  Bool-cases,
}
use trunix.Round.{pg_roundup, pg_rounddown, pg_roundup_lem, pg_rounddown_lem}
use trunix.Memmap.{Entry, KInfo, entry, memory_available, fill_slot, add_memmap}
use trunix.Memmap.Slots.{fill_slot-Filled}
use trunix.Memmap.Add.{IsMap, Added, Added-none, Filled-Added, with_slot}
use trunix.Memmap.Room.{spare, meets, meeting, fill_slot-Uses}

-- What `add_memmap` of the `n` bytes at `a` leaves.
pub record Adds (a n : ℕ) (k k' : KInfo) : Type 0 where
  pub added : Added (pg_roundup a) (pg_rounddown n) k k'
  pub room : spare k.memmap ≤ 1 + spare k'.memmap

meets_none : (e : Entry) → meets 0 0 e ≡ false
meets_none e = ground arith

add_memmap-filled :
    (a n i : ℕ) (k : KInfo) (es : List Entry)
    → a < 2 ^ 32
    → n < 2 ^ 32
    → (n == 0) ≡ false
    → fill_slot 0 (entry (pg_roundup a) (pg_rounddown n) memory_available) k.memmap ≡ some (i, es)
    → add_memmap a n k ≡ some (with_slot k i es ((pg_roundup a + pg_rounddown n) % 2 ^ 32))
unfolding add_memmap
add_memmap-filled a n i k es sa sn nz f =
    let la : a % 2 ^ 32 ≡ a = omega arith in
    let ln : n % 2 ^ 32 ≡ n = omega arith in rw (la, ln) (ground (arith, f, nz))

-- A run with both ends in the address space is added with its start moved up and its length rounded
-- down, if a slot is free.
pub add_memmap-Adds :
    (a n : ℕ) (k : KInfo)
    → a + n + 0xfff < 2 ^ 32
    → IsMap k
    → 0 < spare k.memmap
    → (k' : KInfo) × (add_memmap a n k ≡ some k') × Adds a n k k'
unfolding add_memmap
add_memmap-Adds a n k h v r = elim (Bool-cases (n == 0)) [
  | inl y ↦
      let z : n ≡ 0 = ground arith in
      let none_left = pg_rounddown_lem n in
      (
        k,
        rw (add_memmap, y) refl,
        record {
          added = Added-none (pg_roundup a) (pg_rounddown n) k (omega (arith, none_left)) v;
          room = omega arith;
        },
      )
  | inr nz ↦
      let (down, up, small) = pg_roundup_lem a (omega arith) in
      let (whole, less, _) = pg_rounddown_lem n in
      let e = entry (pg_roundup a) (pg_rounddown n) memory_available in
      let high = (pg_roundup a + pg_rounddown n) % 2 ^ 32 in
      let (i, es, f, u) = fill_slot-Uses 0 0 0 e k.memmap (meets_none e) r in
      (
        with_slot k i es high,
        add_memmap-filled a n i k es (omega arith) (omega arith) nz f,
        record {
          added =
              Filled-Added (pg_roundup a) (pg_rounddown n) i high k es (omega arith) v
                (fill_slot-Filled e 0 k.memmap {i = i} {es' = es} f);
          room = u.room;
        },
      )
]

-- No more entries meet a run than slots are not free.
pub meeting-spare : (s t : ℕ) (es : List Entry) → meeting s t es + spare es ≤ length es
meeting-spare s t [] = omega arith
meeting-spare s t (e ∷ es) = ground (arith, meeting-spare s t es)
