-- ===== src/Vm/Step.antt =====
-- One page that `alloc_pt` maps.
use trunix.Prelude.{
  ℕ, ◌/◌, ◌%◌, ◌^◌, ◌<◌, ◌≡◌, refl, inl, inr, Option, none, some, ◌==◌, bit_or, arith, Bool-cases,
}
use trunix.Round.{page, kernel_offset, pg_roundup_self, v2p}
use trunix.Pages.{Mem, alloc_pages}
use trunix.Pages.Cover.{AllBelow}
use trunix.Pages.Free.{Grants, refused, granted, alloc_pages-Grants}
use trunix.Vm.{Vm, pg_user, frame, write, clear, map_page}
use trunix.Vm.Walk.{dir_index, IsSpace}
use trunix.Vm.Reuse.{Mapped, reused-Mapped}
use trunix.Vm.Grow.{grown-Mapped}

-- The page is mapped; or it needs a table, and no page is free for it.
pub data Maps (pd va pa : ℕ) (s : Vm) : Option Vm → Type 0 where
  mapped : {s' : Vm} → Mapped pd va pa s s' → Maps pd va pa s (some s')
  starved : s.word pd (dir_index va) % 2 ≡ 0 → AllBelow 0x1000 s.mem.freelist → Maps pd va pa s none

abbrev with_table : ℕ → ℕ → ℕ → Vm → Option (Option ℕ × Mem) → Option Vm
with_table pd va pa s none = none
with_table pd va pa s (some (none, m)) = none
with_table pd va pa s (some (some pt, m)) = some (record {
  mem = m;
  word =
      write (write (clear s.word pt) pd (va / 2 ^ 22) (bit_or (frame (v2p pt)) pg_user)) pt
        (va / 2 ^ 12 % 1024) (bit_or (frame pa) pg_user);
})

Grants-Maps :
    (pd va pa : ℕ) (s : Vm) (o : Option (Option ℕ × Mem))
    → IsSpace pd s
    → va < kernel_offset
    → pa % page ≡ 0
    → s.word pd (dir_index va) % 2 ≡ 0
    → Grants 0x1000 s.mem o
    → Maps pd va pa s (with_table pd va pa s o)
Grants-Maps pd va pa s _ v low al missing (refused b) = starved missing b
Grants-Maps pd va pa s _ v low al missing (granted {a} {m'} f wh hi fit less kept) =
    let one = pg_roundup_self 0x1000 refl in
    mapped (
      grown-Mapped pd va pa s v low al missing a m' f wh hi (rw one at fit)
        (λ x. rw one at (less x)) kept)

pub map_page-Maps :
    (pd va pa : ℕ) (s : Vm)
    → IsSpace pd s
    → va < kernel_offset
    → pa % page ≡ 0
    → Maps pd va pa s (map_page pd va pa pg_user s)
unfolding map_page
map_page-Maps pd va pa s v low al = elim (Bool-cases (s.word pd (dir_index va) % 2 == 0)) [
  | inl e ↦
      let g = alloc_pages-Grants 0x1000 s.mem (omega arith) (omega arith) v.free in
      rw (map_page, e) (Grants-Maps pd va pa s (alloc_pages 0x1000 s.mem) v low al (ground arith) g)
  | inr n ↦ rw (map_page, n) (mapped (reused-Mapped pd va pa s v low al (ground arith)))
]
