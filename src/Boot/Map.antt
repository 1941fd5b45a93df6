-- ===== src/Boot/Map.antt =====
-- kernel/init.c: the memory map that `init_trunix` makes of the boot loader's.
use trunix.Prelude.{
  replicate, ℕ, ◌+◌, ◌*◌, ◌/◌, ◌^◌, ◌<◌, ◌≤◌, ◌≡◌, ◌≢◌, refl, inl, inr, Option, none, some, Bool,
  false, ◌&&◌, not, List, ltb, ◌==◌, length, arith, Bool-cases, ◌∙◌, ap, bit_or, bit_and,
}
use trunix.Prelude.Bytes.{u32_at}
use trunix.Prelude.Bits.{bit_or_above}
use trunix.Round.{pg_roundup, pg_rounddown, pg_roundup_self, pg_rounddown_self}
use trunix.Memmap.{no_entry, Entry, KInfo, max_memmap, cut_memmap}
use trunix.Memmap.Slots.{covers-replicate, replicate-AllEntries, covers}
use trunix.Memmap.Add.{IsMap}
use trunix.Memmap.Room.{spare}
use trunix.Memmap.Adds.{meeting-spare}
use trunix.Memmap.CutSlot.{between}
use trunix.Memmap.Cut.{IsCut, covers-IsCut}
use trunix.Memmap.Returns.{cut_memmap-some}
use trunix.Boot.{BootInfo, boot_magic, physical_base, cut_used, init_trunix, pg_identity}
use trunix.Boot.Memory.{count}
use trunix.Boot.Table.{IsTable, AllLow, usable, read_memmap-Reads}

-- The map `k'` is `k` without the pages of the kernel, the first page and those of the initial ram disk.
pub record CutUsed (unpaged_end start end : ℕ) (k k' : KInfo) : Type 0 where
  pub map : IsMap k'
  pub covered :
      (x : ℕ)
      → covers x k'.memmap ≡ (
          covers x k.memmap
          && not (between x physical_base (pg_roundup unpaged_end))
          && not (ltb x 0x1000)
          && not (between x (pg_rounddown start) (pg_roundup end)))
  pub initrd_start : k'.initrd_start ≡ start
  pub initrd_end : k'.initrd_end ≡ end

-- A cut of a map with `n` entries at most leaves at most twice as many.
IsCut-few :
    (n start end : ℕ) (k : KInfo)
    → end + 0xfff < 2 ^ 32
    → n ≤ 16
    → length k.memmap ≡ max_memmap
    → max_memmap ≤ spare k.memmap + n
    → IsMap k
    → (k' : KInfo) × (cut_memmap start end k ≡ some k')
      × IsCut (pg_rounddown start) (pg_roundup end) k k'
      × (max_memmap ≤ spare k'.memmap + n * 2)
IsCut-few n start end k fits few l room v =
    let met = meeting-spare (pg_rounddown start) (pg_roundup end) k.memmap in
    let (k', e, c, u) = cut_memmap-some start end k fits l v (omega (arith, met)) in
    (k', e, c, omega (arith, met, u))

and_chain :
    (a p q r : Bool) {b c d : Bool}
    → b ≡ (a && p)
    → c ≡ (b && q)
    → d ≡ (c && r)
    → d ≡ (a && p && q && r)
and_chain a p q r u v w = ground arith

first_page : (x : ℕ) → between x (pg_rounddown 0) (pg_roundup 0x1000) ≡ ltb x 0x1000
first_page x = rw (pg_rounddown_self 0 refl, pg_roundup_self 0x1000 refl) (ground arith)

cuts_cover :
    (x unpaged_end start end : ℕ) (k k1 k2 told k3 : KInfo)
    → IsCut (pg_rounddown physical_base) (pg_roundup unpaged_end) k k1
    → IsCut (pg_rounddown 0) (pg_roundup 0x1000) k1 k2
    → told.memmap ≡ k2.memmap
    → IsCut (pg_rounddown start) (pg_roundup end) told k3
    → covers x k3.memmap ≡ (
        covers x k.memmap
        && not (between x physical_base (pg_roundup unpaged_end))
        && not (ltb x 0x1000)
        && not (between x (pg_rounddown start) (pg_roundup end)))
cuts_cover x unpaged_end start end k k1 k2 told k3 c1 c2 e c3 =
    and_chain (covers x k.memmap) (not (between x physical_base (pg_roundup unpaged_end)))
      (not (ltb x 0x1000)) (not (between x (pg_rounddown start) (pg_roundup end)))
      (covers-IsCut (pg_rounddown physical_base) (pg_roundup unpaged_end) x k k1 c1
        ∙ ap (λ s. covers x k.memmap && not (between x s (pg_roundup unpaged_end)))
            (pg_rounddown_self physical_base refl))
      (covers-IsCut (pg_rounddown 0) (pg_roundup 0x1000) x k1 k2 c2
        ∙ ap (λ b. covers x k1.memmap && not b) (first_page x))
      (covers-IsCut (pg_rounddown start) (pg_roundup end) x told k3 c3
        ∙ ap (λ es. covers x es && not (between x (pg_rounddown start) (pg_roundup end))) e)

-- Of a map with at most four entries.
cut_used-CutUsed :
    (byte : ℕ → ℕ) (unpaged_end mods : ℕ) (k : KInfo)
    → unpaged_end + 0xfff < 2 ^ 32
    → u32_at byte (mods + 4) + 0xfff < 2 ^ 32
    → length k.memmap ≡ max_memmap
    → max_memmap ≤ spare k.memmap + 4
    → IsMap k
    → (k' : KInfo) × (cut_used byte unpaged_end mods k ≡ some k')
      × CutUsed unpaged_end (u32_at byte mods) (u32_at byte (mods + 4)) k k'
unfolding cut_used
cut_used-CutUsed byte unpaged_end mods k fits fits' l room v =
    let start = u32_at byte mods in
    let end = u32_at byte (mods + 4) in
    let (k1, e1, c1, r1) = IsCut-few 4 physical_base unpaged_end k fits (omega arith) l room v in
    let l1 = c1.same_length ∙ l in
    let (k2, e2, c2, r2) = IsCut-few 8 0 0x1000 k1 (omega arith) (omega arith) l1 r1 c1.map in
    let m = c2.map in
    let told : KInfo = record k2 { initrd_start = start; initrd_end = end } in
    let (k3, e3, c3, r3) =
      IsCut-few 16 start end told fits' (omega arith) (c2.same_length ∙ l1) r2
        (record { entries = m.entries; used = m.used; within_array = m.within_array }) in
    (
      k3,
      rw (cut_used, e1) (rw e2 e3),
      record {
        map = c3.map;
        covered = λ x. cuts_cover x unpaged_end start end k k1 k2 told k3 c1 c2 refl c3;
        initrd_start = c3.initrd.0;
        initrd_end = c3.initrd.1;
      },
    )

-- The map that `init_trunix` makes, and the first page directory.
pub record BootMap (es : List Entry) (byte : ℕ → ℕ) (unpaged_end : ℕ) (mb : BootInfo)
    (r : KInfo × (ℕ → ℕ)) : Type 0 where
  pub map : IsMap r.0
  pub covered :
      (x : ℕ)
      → covers x r.0.memmap ≡ (
          usable x es
          && not (between x physical_base (pg_roundup unpaged_end))
          && not (ltb x 0x1000)
          && not (between x (pg_rounddown r.0.initrd_start) (pg_roundup r.0.initrd_end)))
  pub initrd_start : r.0.initrd_start ≡ u32_at byte mb.mods_addr
  pub initrd_end : r.0.initrd_end ≡ u32_at byte (mb.mods_addr + 4)
  pub directory : r.1 ≡ pg_identity mb.fb_addr mb.fb_pitch mb.fb_height (λ _. 0)

-- The `struct kinfo` before the call: a static object, whose bytes are zero.
abbrev pub no_info : KInfo
no_info = record {
  memmap = replicate max_memmap no_entry;
  mmap_n = 0;
  mem_high_phys = 0;
  initrd_start = 0;
  initrd_end = 0;
}

pub no_info-IsMap : IsMap no_info
no_info-IsMap = record {
  entries = replicate-AllEntries max_memmap;
  used = λ x. covers-replicate x max_memmap;
  within_array = omega arith;
}

-- NULL just for another magic number; else the map.
pub data Booted (es : List Entry) (byte : ℕ → ℕ) (unpaged_end magic : ℕ) (mb : BootInfo)
    : Option (Option (KInfo × (ℕ → ℕ))) → Type 0 where
  refused : magic ≢ boot_magic → Booted es byte unpaged_end magic mb (some none)
  booted :
      {r : KInfo × (ℕ → ℕ)}
      → magic ≡ boot_magic
      → BootMap es byte unpaged_end mb r
      → Booted es byte unpaged_end magic mb (some (some r))

-- The test of the flags is always passed, whatever the boot loader's flags are.
flags_pass : (f : ℕ) → (bit_or f 0x1000 == 0) ≡ false
flags_pass f = ground (arith, bit_or_above f 0x1000)

-- `init_trunix`, with a boot loader's table of at most four available entries and any others, whose
-- sizes do not wrap around, the available ones of which end more than a page below 4 GiB, as the
-- ram disk and the unpaged kernel do: it returns NULL just for another magic number, and else the
-- map that covers exactly what lies in the available entries, their starts rounded up and their
-- lengths rounded down, and neither in the pages from 4 MiB up to the end of that part of the
-- kernel that runs before paging, nor in the first page, nor in those of the initial ram disk,
-- whose addresses it keeps; with the directory that `pg_identity` makes. The rest of the kernel,
-- which lies behind that part, stays in the map.
pub init_trunix-Booted :
    (byte : ℕ → ℕ) (unpaged_end magic : ℕ) (mb : BootInfo) (es : List Entry)
    → IsTable byte mb.mmap_addr mb.mmap_length 0 es
    → AllLow es
    → count es ≤ 4
    → unpaged_end + 0xfff < 2 ^ 32
    → u32_at byte (mb.mods_addr + 4) + 0xfff < 2 ^ 32
    → Booted es byte unpaged_end magic mb (init_trunix byte unpaged_end magic mb no_info)
unfolding init_trunix
init_trunix-Booted byte unpaged_end magic mb es t low few fits fits' =
    elim (Bool-cases (magic == boot_magic)) [
      | inr n ↦ rw (init_trunix, n) (refused (λ z. ground arith))
      | inl y ↦
          let (k1, e1, r) =
            read_memmap-Reads byte mb.mmap_addr mb.mmap_length (mb.mmap_length / 4 + 1) 0 es no_info
              (omega arith) t low no_info-IsMap (omega arith) in
          let (k2, e2, c) =
            cut_used-CutUsed byte unpaged_end mb.mods_addr k1 fits fits' r.same_length
              (omega (arith, r.room)) r.map in
          let clear : (x : ℕ) → covers x no_info.memmap ≡ false =
            λ x. covers-replicate x max_memmap in
          rw (init_trunix, y, flags_pass (bit_and mb.flags 0x40))
            (rw (e1, e2)
              (booted (ground arith) (record {
                map = c.map;
                covered = λ x.
                    rw (c.initrd_start, c.initrd_end)
                      (ground (arith, c.covered x, r.covered x, clear x));
                initrd_start = c.initrd_start;
                initrd_end = c.initrd_end;
                directory = refl;
              })))
    ]
