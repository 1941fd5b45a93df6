-- ===== src/Vm/Walk.antt =====
-- What the processor finds in a page directory, and what keeps a user's directory in order.
use trunix.Prelude.{
  ℕ, ◌+◌, ◌*◌, ◌/◌, ◌%◌, ◌^◌, ◌<◌, ◌≡◌, ◌≢◌, refl, ap, ◌∙◌, Option, none, some, false, arith, ◌==◌,
  if◌then◌else◌,
}
use trunix.Round.{page, p2v}
use trunix.Block.{cover}
use trunix.Pages.Free.{IsFree}
use trunix.Vm.{Vm, frame}

abbrev pub dir_index : ℕ → ℕ
dir_index va = va / 2 ^ 22

abbrev pub table_index : ℕ → ℕ
table_index va = va / 2 ^ 12 % 1024

-- The kernel's address of the table that entry `i` names.
abbrev pub table : ℕ → ℕ → Vm → ℕ
table pd i s = p2v (frame (s.word pd i))

-- The processor's walk for the virtual address `va`, with `e` the entry of the directory and `p` that of
-- the table: the physical address, or a fault. Bit 7 of `e` says that it is a page of 4 MiB.
abbrev pub translate : ℕ → ℕ → ℕ → Option ℕ
translate e p va =
    if e % 2 == 0
    then none
    else (if e / 2 ^ 7 % 2 == 1
        then some (e / 2 ^ 22 * 2 ^ 22 + va % 2 ^ 22)
        else (if p % 2 == 0 then none else some (frame p + va % 0x1000)))

-- A table is at the address that `p2v` gives.
unfoldable pub walk : Vm → ℕ → ℕ → Option ℕ
walk s pd va =
    translate (s.word pd (dir_index va)) (s.word (table pd (dir_index va) s) (table_index va)) va

pub walk-translate :
    (s : Vm) (pd va e t p : ℕ)
    → s.word pd (dir_index va) ≡ e
    → table pd (dir_index va) s ≡ t
    → s.word t (table_index va) ≡ p
    → walk s pd va ≡ translate e p va
unfolding walk
walk-translate s pd va e t p ee et ep =
    ap (λ u. translate (s.word pd (dir_index va)) (s.word u (table_index va)) va) et
    ∙ ap (λ u. translate u (s.word t (table_index va)) va) ee
    ∙ ap (λ u. translate e u va) ep

pub translate_entry :
    (e p va pa : ℕ)
    → e % 2 ≢ 0
    → e / 2 ^ 7 % 2 ≡ 0
    → p ≡ pa + 7
    → pa % page ≡ 0
    → translate e p va ≡ some (pa + va % 0x1000)
translate_entry e p va pa h l q al =
    let f : frame p ≡ pa = omega arith in
    let o : p % 2 ≡ 1 = omega arith in
    let h' : (e % 2 == 0) ≡ false = ground arith in rw (h', l) (rw (o, f) refl)

pub translate_absent : (e p va : ℕ) → e % 2 ≡ 0 → translate e p va ≡ none
translate_absent e p va h = rw h refl

pub translate_unset : (e va : ℕ) → e / 2 ^ 7 % 2 ≡ 0 → translate e 0 va ≡ none
translate_unset e va h = ground arith

pub translate_same :
    (e e' p va : ℕ)
    → e % 2 ≢ 0
    → e' % 2 ≢ 0
    → e / 2 ^ 7 % 2 ≡ 0
    → e' / 2 ^ 7 % 2 ≡ 0
    → translate e' p va ≡ translate e p va
translate_same e e' p va h h' l l' =
    let a : (e % 2 == 0) ≡ false = ground arith in
    let b : (e' % 2 == 0) ≡ false = ground arith in rw (a, b, l, l') refl

-- The user's half of the directory `pd`: its entries name pages that are neither free nor `pd`, each
-- another one.
pub record IsSpace (pd : ℕ) (s : Vm) : Type 0 where
  pub free : IsFree s.mem
  pub taken : cover pd s.mem.freelist ≡ 0
  pub small : (i : ℕ) → i < 512 → s.word pd i % 2 ≢ 0 → s.word pd i / 2 ^ 7 % 2 ≡ 0
  pub table_taken :
      (i : ℕ) → i < 512 → s.word pd i % 2 ≢ 0 → cover (table pd i s) s.mem.freelist ≡ 0
  pub table_ne : (i : ℕ) → i < 512 → s.word pd i % 2 ≢ 0 → table pd i s ≢ pd
  pub apart :
      (i j : ℕ)
      → i < 512
      → j < 512
      → i ≢ j
      → s.word pd i % 2 ≢ 0
      → s.word pd j % 2 ≢ 0
      → table pd i s ≢ table pd j s
