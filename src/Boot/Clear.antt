-- ===== src/Boot/Clear.antt =====
-- kernel/paging.c: the page directory behind `pg_clear_identity`.
use trunix.Prelude.{
  ℕ, zero, suc, ◌+◌, ◌/◌, ◌^◌, ◌<◌, ◌≡◌, refl, inl, inr, Option, none, some, true, ◌&&◌, ◌||◌, ltb,
  leb, ◌==◌, if◌then◌else◌, arith, Bool-cases, ap, ◌∙◌,
}
use trunix.Round.{v2p}
use trunix.Boot.{clear_from, pg_clear_identity, pg_identity}
use trunix.Boot.Identity.{walk, last_entry, identity-entries}

-- Behind entry 1 nothing is cleared.
clear_from-past : (rounds i : ℕ) (dir : ℕ → ℕ) → 1 < i → clear_from rounds 1 1 i dir ≡ dir
unfolding clear_from
clear_from-past zero i dir h = refl
clear_from-past (suc rounds) i dir h =
    let past : (ltb 1 i || ltb i 1) ≡ true = ground arith in
    elim (Bool-cases (ltb i 1024)) [
      | inl t ↦ rw (clear_from, t) (rw past (clear_from-past rounds (i + 1) dir (omega arith)))
      | inr f ↦ rw (clear_from, f) refl
    ]

clear_from-one :
    (rounds : ℕ) (dir : ℕ → ℕ)
    → clear_from (suc (suc rounds)) 1 1 0 dir ≡ (λ j. if j == 1 then 0 else dir j)
unfolding clear_from
clear_from-one rounds dir =
    clear_from-past rounds 3 (λ j. if j == 1 then 0 else dir j) (omega arith)

pg_clear_identity_lem :
    (unpaged_end : ℕ) (dir : ℕ → ℕ)
    → unpaged_end / 2 ^ 22 ≡ 1
    → pg_clear_identity unpaged_end dir ≡ (λ j. if j == 1 then 0 else dir j)
unfolding pg_clear_identity
pg_clear_identity_lem unpaged_end dir e =
    ap (λ low. clear_from 1024 low 1 0 dir) e ∙ clear_from-one 1022 dir

-- Without entry 1.
walk_cleared :
    (dir : ℕ → ℕ) (va : ℕ) (a : Option ℕ)
    → walk dir va ≡ a
    → walk (λ j. if j == 1 then 0 else dir j) va ≡ (if va / 2 ^ 22 == 1 then none else a)
walk_cleared dir va a w = elim (Bool-cases (va / 2 ^ 22 == 1)) [
  | inl t ↦ rw t refl
  | inr f ↦ rw f w
]

-- If the part of the kernel that runs before paging ends in its first 4 MiB page, the directory
-- that the boot code leaves maps every address as `pg_identity` does but for those of that page: it
-- does not clear the rest of the low addresses, the first 4 MiB among them.
pub pg_clear_identity-walk :
    (unpaged_end fb pitch height : ℕ) (dir : ℕ → ℕ) (va : ℕ)
    → va < 2 ^ 32
    → unpaged_end / 2 ^ 22 ≡ 1
    → walk (pg_clear_identity unpaged_end (pg_identity fb pitch height dir)) va ≡ (
        if va / 2 ^ 22 == 1
        then none
        else some (
            if leb (fb / 2 ^ 22) (va / 2 ^ 22) && ltb (va / 2 ^ 22) (last_entry fb pitch height)
            then va
            else v2p va))
pg_clear_identity-walk unpaged_end fb pitch height dir va h e =
    ap (λ x. walk x va) (pg_clear_identity_lem unpaged_end (pg_identity fb pitch height dir) e)
    ∙ walk_cleared (pg_identity fb pitch height dir) va _
        (identity-entries fb pitch height dir va h)
