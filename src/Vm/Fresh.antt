-- ===== src/Vm/Fresh.antt =====
-- The directory that `copykvm` makes.
use trunix.Prelude.{
  ℕ, ◌+◌, ◌/◌, ◌%◌, ◌^◌, ◌<◌, ◌≤◌, ◌≡◌, refl, Option, none, some, ◌&&◌, ltb, leb, ◌==◌,
  if◌then◌else◌, arith, ◌∙◌, ap,
}
use trunix.Round.{page, kernel_offset, pg_roundup_self}
use trunix.Block.{cover, inside}
use trunix.Pages.{Mem, alloc_pages}
use trunix.Pages.Cover.{AllBelow}
use trunix.Pages.Free.{IsFree, Grants, refused, granted, alloc_pages-Grants}
use trunix.Vm.{Vm, clear, copykvm}
use trunix.Vm.Walk.{dir_index, table_index, table, walk, IsSpace, walk-translate, translate_absent}

-- The page `pd` of `s'` is a directory with the kernel's upper half, as the directory `kpd` has it, and
-- nothing mapped below it; the page was free in `s`, and no page that was not free is changed.
pub record Copied (kpd : ℕ) (s : Vm) (pd : ℕ) (s' : Vm) : Type 0 where
  pub space : IsSpace pd s'
  pub nothing : (x : ℕ) → x < kernel_offset → walk s' pd x ≡ none
  pub no_tables : (i : ℕ) → i < 512 → s'.word pd i ≡ 0
  pub kernel : (i : ℕ) → 512 ≤ i → i < 1024 → s'.word pd i ≡ s.word kpd i
  pub was_free : 0 < cover pd s.mem.freelist
  pub less : (x : ℕ) → cover x s'.mem.freelist ≤ cover x s.mem.freelist
  pub bytes : (x : ℕ) → cover x s.mem.freelist ≡ 0 → s'.mem.byte x ≡ s.mem.byte x
  pub others : (q j : ℕ) → cover q s.mem.freelist ≡ 0 → s'.word q j ≡ s.word q j
  pub high : kernel_offset ≤ pd
  pub fits : pd < 2 ^ 32
  pub aligned : pd % page ≡ 0

pub data Copies (kpd : ℕ) (s : Vm) : Option (ℕ × Vm) → Type 0 where
  copied : {pd : ℕ} {s' : Vm} → Copied kpd s pd s' → Copies kpd s (some (pd, s'))
  starved : AllBelow 0x1000 s.mem.freelist → Copies kpd s none

abbrev copy_of : ℕ → ℕ → Mem → Vm → Vm
copy_of kpd pd m s = record {
  mem = m;
  word = λ r j.
      (if (r == pd) && (leb (kernel_offset / 2 ^ 22) j && ltb j 1024)
        then s.word kpd j
        else clear s.word pd r j);
}

copy_of-Copied :
    (kpd pd : ℕ) (m : Mem) (s : Vm)
    → IsFree s.mem
    → IsFree m
    → pd % page ≡ 0
    → kernel_offset ≤ pd
    → pd + 0x1000 < 2 ^ 32
    → ((x : ℕ) → inside x pd 0x1000 + cover x m.freelist ≤ cover x s.mem.freelist)
    → ((x : ℕ) → cover x s.mem.freelist ≡ 0 → m.byte x ≡ s.mem.byte x)
    → Copied kpd s pd (copy_of kpd pd m s)
copy_of-Copied kpd pd m s f f' al high fits less kept =
    let s' = copy_of kpd pd m s in
    let lower : (i : ℕ) → i < 512 → s'.word pd i ≡ 0 = λ i h. ground arith in
    record {
      space = record {
        free = f';
        taken = ground (arith, less pd, f.once pd);
        small = λ i h p. absurd (p (ap (λ x. x % 2) (lower i h)));
        table_taken = λ i h p. absurd (p (ap (λ x. x % 2) (lower i h)));
        table_ne = λ i h p. absurd (p (ap (λ x. x % 2) (lower i h)));
        apart = λ i j hi hj n p. absurd (p (ap (λ x. x % 2) (lower i hi)));
      };
      nothing = λ x h.
          walk-translate s' pd x 0 (table pd (dir_index x) s')
            (s'.word (table pd (dir_index x) s') (table_index x))
            (lower (dir_index x) (omega arith)) refl refl
          ∙ translate_absent 0 (s'.word (table pd (dir_index x) s') (table_index x)) x refl;
      no_tables = lower;
      kernel = λ i h h'. ground arith;
      was_free = ground (arith, less pd);
      less = λ x. omega (arith, less x);
      bytes = kept;
      others = λ q j c. ground (arith, less q);
      high = high;
      fits = omega arith;
      aligned = al;
    }

Grants-Copies :
    (kpd : ℕ) (s : Vm) (o : Option (Option ℕ × Mem))
    → IsFree s.mem
    → Grants 0x1000 s.mem o
    → Copies kpd s (elim o [
      | none ↦ none
      | some (none, m) ↦ none
      | some (some pd, m) ↦ some (pd, copy_of kpd pd m s)
    ])
Grants-Copies kpd s _ f (refused b) = starved b
Grants-Copies kpd s _ f (granted {a} {m'} f' al high fits less kept) =
    let one = pg_roundup_self 0x1000 refl in
    copied (copy_of-Copied kpd a m' s f f' al high (rw one at fits) (λ x. rw one at (less x)) kept)

-- `copykvm` makes a directory of a page that was free, with the kernel's half of `kpagedir` and nothing
-- mapped for the user, and changes no page that was in use; it fails only when no page is free.
pub copykvm-Copies : (kpd : ℕ) (s : Vm) → IsFree s.mem → Copies kpd s (copykvm kpd s)
unfolding copykvm
copykvm-Copies kpd s f =
    Grants-Copies kpd s (alloc_pages 0x1000 s.mem) f
      (alloc_pages-Grants 0x1000 s.mem (omega arith) (omega arith) f)
