-- ===== src/Boot/Identity.antt =====
-- What the first page directory maps.
use trunix.Prelude.{
  ℕ, zero, suc, ◌+◌, ◌-◌, ◌*◌, ◌/◌, ◌%◌, ◌^◌, ◌<◌, ◌≡◌, refl, inl, inr, Option, none, some, true,
  false, ◌&&◌, ltb, leb, ◌==◌, if◌then◌else◌, arith, Bool-cases, ◌∙◌, subst,
}
use trunix.Round.{kernel_offset, roundup, v2p}
use trunix.Boot.{pg_large, pg_global, identity_from, map_from, pg_identity}

-- The processor's walk of a directory of 4 MiB pages: bit 0 of an entry says that it is present, bit 7
-- that it is a page, and the bits from 22 on are the page's address.
abbrev pub walk : (ℕ → ℕ) → ℕ → Option ℕ
walk dir va =
    let e = dir (va / 2 ^ 22) in
    if (e % 2 == 1) && (e / 2 ^ 7 % 2 == 1) then some (e / 2 ^ 22 * 2 ^ 22 + va % 2 ^ 22) else none

abbrev pub entry_of : ℕ → ℕ
entry_of i =
    if leb 512 i then (i * 2 ^ 22 + kernel_offset) % 2 ^ 32 + pg_global else i * 2 ^ 22 + pg_large

identity_from_lem :
    (rounds i : ℕ) (dir : ℕ → ℕ) (j : ℕ)
    → identity_from rounds i dir j ≡ (if leb i j && ltb j (i + rounds) then entry_of j else dir j)
unfolding identity_from
identity_from_lem zero i dir j = ground arith
identity_from_lem (suc rounds) i dir j =
    let ih = identity_from_lem rounds (i + 1) (λ j. (if j == i then entry_of i else dir j)) j in
    ih ∙ step
  where
    step :
        (if leb (i + 1) j && ltb j (i + 1 + rounds)
          then entry_of j
          else (if j == i then entry_of i else dir j))
        ≡ (if leb i j && ltb j (i + suc rounds) then entry_of j else dir j)
    step = elim (Bool-cases (j == i)) [
      | inl e ↦ let s : j ≡ i = ground arith in ground arith
      | inr e ↦ ground arith
    ]

map_from_lem :
    (rounds i : ℕ) (dir : ℕ → ℕ) (j : ℕ)
    → map_from rounds i dir j
      ≡ (if leb i j && ltb j (i + rounds) then j * 2 ^ 22 + pg_large else dir j)
unfolding map_from
map_from_lem zero i dir j = ground arith
map_from_lem (suc rounds) i dir j =
    ground (
      arith,
      map_from_lem rounds (i + 1) (λ j. (if j == i then i * 2 ^ 22 + pg_large else dir j)) j,
    )

-- The address that an entry of `entry_of` maps to is physical.
walk_same :
    (dir : ℕ → ℕ) (va : ℕ)
    → dir (va / 2 ^ 22) ≡ va / 2 ^ 22 * 2 ^ 22 + pg_large
    → walk dir va ≡ some va
walk_same dir va e =
    let a : (va / 2 ^ 22 * 2 ^ 22 + pg_large) / 2 ^ 22 * 2 ^ 22 + va % 2 ^ 22 ≡ va = omega arith in
    let b : (va / 2 ^ 22 * 2 ^ 22 + pg_large) % 2 ≡ 1 = omega arith in
    let c : (va / 2 ^ 22 * 2 ^ 22 + pg_large) / 2 ^ 7 % 2 ≡ 1 = omega arith in
    rw e (rw (a, b, c) refl)

walk_entry :
    (dir : ℕ → ℕ) (va : ℕ)
    → va < 2 ^ 32
    → dir (va / 2 ^ 22) ≡ entry_of (va / 2 ^ 22)
    → walk dir va ≡ some (v2p va)
unfolding v2p
walk_entry dir va h e = elim (Bool-cases (leb 512 (va / 2 ^ 22))) [
  | inl t ↦
      let a : ((va / 2 ^ 22 * 2 ^ 22 + kernel_offset) % 2 ^ 32 + pg_global) / 2 ^ 22 * 2 ^ 22
            + va % 2 ^ 22
          ≡ va % kernel_offset =
        ground arith in
      let b : ((va / 2 ^ 22 * 2 ^ 22 + kernel_offset) % 2 ^ 32 + pg_global) % 2 ≡ 1 = omega arith in
      let c : ((va / 2 ^ 22 * 2 ^ 22 + kernel_offset) % 2 ^ 32 + pg_global) / 2 ^ 7 % 2 ≡ 1 =
        omega arith in
      rw (e, t) (rw (a, b, c) refl)
  | inr f ↦
      let low : va % kernel_offset ≡ va = ground arith in rw low (walk_same dir va (e ∙ rw f refl))
]

-- The index of the first entry of the frame buffer, and of the first one behind it.
abbrev pub last_entry : ℕ → ℕ → ℕ → ℕ
last_entry fb pitch height = (fb + roundup ((pitch * height) % 2 ^ 32) 0x400000) % 2 ^ 32 / 2 ^ 22

-- In terms of the code's two indices.
pub identity-entries :
    (fb pitch height : ℕ) (dir : ℕ → ℕ) (va : ℕ)
    → va < 2 ^ 32
    → walk (pg_identity fb pitch height dir) va
      ≡ some (
          if leb (fb / 2 ^ 22) (va / 2 ^ 22) && ltb (va / 2 ^ 22) (last_entry fb pitch height)
          then va
          else v2p va)
unfolding pg_identity
identity-entries fb pitch height dir va h =
    let i = va / 2 ^ 22 in
    let first = fb / 2 ^ 22 in
    let n = last_entry fb pitch height - first in
    let m = map_from_lem n first (identity_from 1024 0 dir) i in
    let d = identity_from_lem 1024 0 dir i in
    elim (Bool-cases (leb first i && ltb i (last_entry fb pitch height))) [
      | inl t ↦
          let t' : (leb first i && ltb i (first + n)) ≡ true = ground arith in
          rw t (walk_same (pg_identity fb pitch height dir) va (rw t' at m))
      | inr f ↦
          let f' : (leb first i && ltb i (first + n)) ≡ false = ground arith in
          let d' : (leb 0 i && ltb i (0 + 1024)) ≡ true = ground arith in
          rw f (walk_entry (pg_identity fb pitch height dir) va h ((rw f' at m) ∙ (rw d' at d)))
    ]

-- The pages of 4 MiB that `size` bytes fill, the last one perhaps in part.
abbrev pub large_pages : ℕ → ℕ
large_pages size = (size + 0x3fffff) / 0x400000

-- For a frame buffer whose size, rounded up to pages of 4 MiB, does not reach 2 ^ 32 behind its start:
-- in the directory of `pg_identity` every virtual address is mapped. As many of these pages as the size
-- fills are mapped to themselves, from the one on in which the frame buffer begins, so that its end is
-- not among them if it begins inside a page and reaches into one more. All other addresses are mapped to
-- the physical address that `v2p` says: the kernel's to where it lies, those below it to themselves.
pub pg_identity-walk :
    (fb pitch height : ℕ) (dir : ℕ → ℕ) (va : ℕ)
    → va < 2 ^ 32
    → fb + large_pages (pitch * height) * 0x400000 < 2 ^ 32
    → walk (pg_identity fb pitch height dir) va
      ≡ some (
          if leb (fb / 2 ^ 22) (va / 2 ^ 22)
            && ltb (va / 2 ^ 22) (fb / 2 ^ 22 + large_pages (pitch * height))
          then va
          else v2p va)
unfolding roundup
pg_identity-walk fb pitch height dir va h fits =
    let end : last_entry fb pitch height ≡ fb / 2 ^ 22 + large_pages (pitch * height) =
      last_lem fb (pitch * height) fits in
    subst
      (λ e.
        walk (pg_identity fb pitch height dir) va
        ≡ some (if leb (fb / 2 ^ 22) (va / 2 ^ 22) && ltb (va / 2 ^ 22) e then va else v2p va))
      end (identity-entries fb pitch height dir va h)
  where
    last_lem :
        (fb size : ℕ)
        → fb + large_pages size * 0x400000 < 2 ^ 32
        → (fb + roundup (size % 2 ^ 32) 0x400000) % 2 ^ 32 / 2 ^ 22 ≡ fb / 2 ^ 22 + large_pages size
    last_lem fb size h = let small : size % 2 ^ 32 ≡ size = omega arith in rw small (ground arith)
