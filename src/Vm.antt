-- ===== src/Vm.antt =====
-- kernel/mem.c: page directories and page tables. `word q i` is entry `i` of the page at the virtual
-- address `q`, for the pages that hold a directory or a table; what the pages held before they were
-- allocated does not matter, as the code clears them.
pub mod Walk
pub mod Reuse
pub mod Grow
pub mod Step
pub mod Range
pub mod Fresh
pub mod Take
pub mod Keeps
use trunix.Prelude.{
  ℕ, zero, suc, ◌+◌, ◌-◌, ◌/◌, ◌%◌, ◌^◌, Option, none, some, ◌&&◌, ltb, leb, ◌==◌, if◌then◌else◌,
  bit_or,
}
use trunix.Round.{kernel_offset, pg_roundup, pg_rounddown, v2p, p2v}
use trunix.Pages.{Mem, alloc_pages}

-- `mem` has the bytes that programs and the kernel use, and `word` the entries of tables by the address
-- of the table and the index: two views of one memory, which is faithful while no page is used as both.
pub record Vm : Type 0 where
  pub mem : Mem
  pub word : ℕ → ℕ → ℕ

-- PG_US | PG_RW | PG_P, with which every caller calls `alloc_pt`.
abbrev pub pg_user : ℕ
pg_user = 7

-- The bits of an entry that are an address: `x & 0xFFFFF000`.
abbrev pub frame : ℕ → ℕ
frame x = x - x % 0x1000

abbrev pub write : (ℕ → ℕ → ℕ) → ℕ → ℕ → ℕ → ℕ → ℕ → ℕ
write word q i v r j = if (r == q) && (j == i) then v else word r j

-- memsetl of the page at `q`.
abbrev pub clear : (ℕ → ℕ → ℕ) → ℕ → ℕ → ℕ → ℕ
clear word q r j = if (r == q) && ltb j 1024 then 0 else word r j

-- One round of the loop of `alloc_pt`. `none`: `alloc_pages` gives NULL, through which the code then
-- writes, or it fails an assertion.
unfoldable pub map_page : ℕ → ℕ → ℕ → ℕ → Vm → Option Vm
unfolding v2p p2v
map_page pd va pa flags s =
    let pde = va / 2 ^ 22 in
    let pte = va / 2 ^ 12 % 1024 in
    let entry = bit_or (frame pa) flags in
    if s.word pd pde % 2 == 0
    then elim (alloc_pages 0x1000 s.mem) [
      | none ↦ none
      | some (none, m) ↦ none
      | some (some pt, m) ↦ some (record {
        mem = m;
        word = write (write (clear s.word pt) pd pde (bit_or (frame (v2p pt)) flags)) pt pte entry;
      })
    ]
    else some (record s {
      word =
          write (write s.word pd pde (bit_or (s.word pd pde) flags)) (p2v (frame (s.word pd pde)))
            pte entry;
    })

-- The loop, with the pages left. The addresses are u32.
unfoldable pub map_pages : ℕ → ℕ → ℕ → ℕ → ℕ → Vm → Option Vm
map_pages zero pd va pa flags s = some s
map_pages (suc n) pd va pa flags s = elim (map_page pd va pa flags s) [
  | none ↦ none
  | some s' ↦ map_pages n pd ((va + 0x1000) % 2 ^ 32) ((pa + 0x1000) % 2 ^ 32) flags s'
]

unfoldable pub alloc_pt : ℕ → ℕ → ℕ → ℕ → ℕ → Vm → Option Vm
alloc_pt pd va pa len flags s =
    map_pages (pg_roundup len / 0x1000) pd (pg_rounddown va) (pg_rounddown pa) flags s

-- The directory of the kernel, of which the upper half is copied. `none`: there is no page for it, and
-- the code writes through NULL.
unfoldable pub copykvm : ℕ → Vm → Option (ℕ × Vm)
copykvm kpagedir s = elim (alloc_pages 0x1000 s.mem) [
  | none ↦ none
  | some (none, m) ↦ none
  | some (some pd, m) ↦ some (
    pd,
    record {
      mem = m;
      word = λ r j.
          (if (r == pd) && (leb (kernel_offset / 2 ^ 22) j && ltb j 1024)
            then s.word kpagedir j
            else clear s.word pd r j);
    },
  )
]
