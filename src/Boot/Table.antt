-- ===== src/Boot/Table.antt =====
-- kernel/init.c: the boot loader's table of memory, and the loop that reads it.
use trunix.Prelude.{
  ℕ, zero, suc, ◌+◌, ◌*◌, ◌%◌, ◌^◌, ◌<◌, ◌≤◌, ◌≡◌, refl, inl, inr, some, Bool, true, false, ◌&&◌,
  ◌||◌, List, [], ◌∷◌, ltb, ◌==◌, length, arith, Bool-cases, ◌∙◌, ap,
}
use trunix.Prelude.Bytes.{u32_at}
use trunix.Round.{pg_roundup, pg_rounddown}
use trunix.Memmap.{Entry, KInfo, entry, memory_available, add_memmap}
use trunix.Memmap.Slots.{within, covers}
use trunix.Memmap.Add.{IsMap}
use trunix.Memmap.Room.{spare}
use trunix.Memmap.Adds.{add_memmap-Adds}
use trunix.Boot.{read_memmap}
use trunix.Boot.Memory.{count}

-- The entry whose size stands at `a`.
abbrev pub entry_at : (ℕ → ℕ) → ℕ → Entry
entry_at byte a =
    entry (u32_at byte (a + 4) + u32_at byte (a + 8) * 2 ^ 32)
      (u32_at byte (a + 12) + u32_at byte (a + 16) * 2 ^ 32) (u32_at byte (a + 20))

-- From offset `m` on the boot loader's table of `len` bytes at `addr` is the list of entries.
pub data IsTable (byte : ℕ → ℕ) (addr len : ℕ) : ℕ → List Entry → Type 0 where
  ends : {m : ℕ} → len ≤ m → IsTable byte addr len m []
  next :
      {m : ℕ} {es : List Entry}
      → m < len
      → m + u32_at byte (addr + m) + 4 < 2 ^ 32
      → IsTable byte addr len (m + u32_at byte (addr + m) + 4) es
      → IsTable byte addr len m (entry_at byte (addr + m) ∷ es)

-- The available entries end below the last page of the address space.
abbrev pub AllLow : List Entry → Type 0
AllLow [] = Unit {0}
AllLow (e ∷ es) =
    ((e.type == memory_available) ≡ true → e.addr + e.len + 0xfff < 2 ^ 32) × AllLow es

-- The address lies in an available entry, with its start rounded up and its length rounded down.
abbrev pub usable : ℕ → List Entry → Bool
usable x [] = false
usable x (e ∷ es) =
    (e.type == memory_available
      && within x (entry (pg_roundup e.addr) (pg_rounddown e.len) memory_available))
    || usable x es

-- The map `k'` is `k` with the available entries.
pub record Reads (es : List Entry) (k k' : KInfo) : Type 0 where
  pub map : IsMap k'
  pub covered : (x : ℕ) → covers x k'.memmap ≡ (usable x es || covers x k.memmap)
  pub room : spare k.memmap ≤ count es + spare k'.memmap
  pub same_length : length k'.memmap ≡ length k.memmap

module _ (byte : ℕ → ℕ) (addr len : ℕ) where
  module _ (rounds m : ℕ) (k : KInfo) (lt : m < len)
      (fits : m + u32_at byte (addr + m) + 4 < 2 ^ 32) where
    abbrev e : Entry
    e = entry_at byte (addr + m)

    abbrev to : ℕ
    to = m + u32_at byte (addr + m) + 4

    added_round :
        {mid : KInfo}
        → (e.type == memory_available) ≡ true
        → add_memmap e.addr e.len k ≡ some mid
        → read_memmap (suc rounds) byte addr len m k ≡ read_memmap rounds byte addr len to mid
    unfolding read_memmap
    added_round {mid} y a =
        let on : ltb m len ≡ true = ground arith in
        let t : to % 2 ^ 32 ≡ to = omega arith in
        let w = addr + m in
        let y' : (u32_at byte (w + 20) == memory_available) ≡ true = y in
        let a' : add_memmap (u32_at byte (w + 4) + u32_at byte (w + 8) * 2 ^ 32)
              (u32_at byte (w + 12) + u32_at byte (w + 16) * 2 ^ 32) k
            ≡ some mid =
          a in
        rw (on, y') (rw a' (ap (λ z. read_memmap rounds byte addr len z mid) t))

    skipped_round :
        (e.type == memory_available) ≡ false
        → read_memmap (suc rounds) byte addr len m k ≡ read_memmap rounds byte addr len to k
    unfolding read_memmap
    skipped_round n =
        let on : ltb m len ≡ true = ground arith in
        let t : to % 2 ^ 32 ≡ to = omega arith in rw (on, n, t) refl

  last_round : (rounds m : ℕ) (k : KInfo) → len ≤ m → read_memmap rounds byte addr len m k ≡ some k
  unfolding read_memmap
  last_round zero m k h = ground arith
  last_round (suc rounds) m k h = let off : ltb m len ≡ false = ground arith in rw off refl

  -- The loop ends within the rounds, as each entry takes at least four bytes: a table whose sizes do not
  -- wrap around, and whose available entries end more than a page below 4 GiB, is read to its end, and
  -- each of these is added, if there are as many free slots.
  pub read_memmap-Reads :
      (rounds m : ℕ) (es : List Entry) (k : KInfo)
      → len ≤ m + rounds * 4
      → IsTable byte addr len m es
      → AllLow es
      → IsMap k
      → count es ≤ spare k.memmap
      → (k' : KInfo) × (read_memmap rounds byte addr len m k ≡ some k') × Reads es k k'
  read_memmap-Reads rounds m _ k h (ends over) low v r = (
    k,
    last_round rounds m k over,
    record { map = v; covered = λ x. refl; room = omega arith; same_length = refl },
  )
  read_memmap-Reads zero m _ k h (next lt fits t) low v r = absurd (omega arith)
  read_memmap-Reads (suc rounds) m _ k h (next {es = es} lt fits t) low v r =
      let e = entry_at byte (addr + m) in
      let to = m + u32_at byte (addr + m) + 4 in
      elim (Bool-cases (e.type == memory_available)) [
        | inl y ↦
            let one : count (e ∷ es) ≡ suc (count es) = rw y (omega arith) in
            let (mid, a, w) = add_memmap-Adds e.addr e.len k (low.0 y) v (omega (arith, r, one)) in
            let (k', b, u) =
              read_memmap-Reads rounds to es mid (omega arith) t low.1 w.added.map
                (omega (arith, w.room, r, one)) in
            (
              k',
              added_round rounds m k lt fits y a ∙ b,
              record {
                map = u.map;
                covered = λ x. ground (arith, y, u.covered x, w.added.covered x);
                room = omega (arith, u.room, w.room, one);
                same_length = omega (arith, u.same_length, w.added.same_length);
              },
            )
        | inr n ↦
            let same : count (e ∷ es) ≡ count es = rw n (omega arith) in
            let (k', b, u) =
              read_memmap-Reads rounds to es k (omega arith) t low.1 v (omega (arith, r, same)) in
            (
              k',
              skipped_round rounds m k lt fits n ∙ b,
              record {
                map = u.map;
                covered = λ x. ground (arith, n, u.covered x);
                room = omega (arith, u.room, same);
                same_length = u.same_length;
              },
            )
      ]
