-- ===== src/Elf.antt =====
-- kernel/proc.c: the headers of a program file, `struct elfhdr`, and the first loop of `loadelf`
-- on them. The file is read where it stands in memory.
use trunix.Prelude.{
  ℕ, zero, suc, ◌+◌, ◌-◌, ◌*◌, ◌%◌, ◌^◌, Option, none, some, List, [], ◌∷◌, ltb, ◌==◌, ◌||◌,
  if◌then◌else◌,
}
use trunix.Prelude.Bytes.{u16_at, u32_at}
use trunix.Round.{pg_roundup, pg_rounddown}

abbrev pub elf_magic : ℕ
elf_magic = 0x464C457F

-- The fields of `struct elfhdr` that the code reads.
abbrev pub entry_of : (ℕ → ℕ) → ℕ → ℕ
entry_of byte bin = u32_at byte (bin + 24)

abbrev pub ph_off_of : (ℕ → ℕ) → ℕ → ℕ
ph_off_of byte bin = u32_at byte (bin + 28)

abbrev pub ph_n_of : (ℕ → ℕ) → ℕ → ℕ
ph_n_of byte bin = u16_at byte (bin + 44)

pub record ProgHdr : Type 0 where
  pub type : ℕ
  pub off : ℕ
  pub va : ℕ
  pub filesz : ℕ
  pub memsz : ℕ

-- `ph[i]`, 32 bytes each.
abbrev pub prog_hdr : (ℕ → ℕ) → ℕ → ℕ → ProgHdr
prog_hdr byte bin i =
    let a = bin + ph_off_of byte bin + i * 32 in
    record {
      type = u32_at byte a;
      off = u32_at byte (a + 4);
      va = u32_at byte (a + 8);
      filesz = u32_at byte (a + 16);
      memsz = u32_at byte (a + 20);
    }

-- `min`, `max` and `n`.
pub record Extent : Type 0 where
  pub low : ℕ
  pub high : ℕ
  pub count : ℕ

abbrev pub no_extent : Extent
no_extent = record { low = 2 ^ 32 - 1; high = 0; count = 0 }

-- The pages of a segment are added.
abbrev pub widen : ProgHdr → Extent → Extent
widen ph x =
    let start = pg_rounddown ph.va in
    let end = pg_roundup ((ph.va + ph.memsz) % 2 ^ 32) in
    record {
      low = if ltb start x.low then start else x.low;
      high = if ltb x.high end then end else x.high;
      count = x.count + 1;
    }

-- The first loop, on the headers that are left. `none`: the file is linked dynamically.
unfoldable pub measure : List ProgHdr → Extent → Option Extent
measure [] x = some x
measure (ph ∷ phs) x =
    let rest = measure phs (widen ph x) in
    let skip = measure phs x in
    if ph.type == 1 then rest else (if (ph.type == 2) || (ph.type == 3) then none else skip)

-- The headers from `i` on.
unfoldable pub prog_hdrs : ℕ → (ℕ → ℕ) → ℕ → ℕ → List ProgHdr
prog_hdrs zero byte bin i = []
prog_hdrs (suc n) byte bin i = prog_hdr byte bin i ∷ prog_hdrs n byte bin (i + 1)
