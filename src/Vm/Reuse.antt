-- ===== src/Vm/Reuse.antt =====
-- One page that `alloc_pt` maps with a table that is there already.
use trunix.Prelude.{
  ℕ, ◌+◌, ◌/◌, ◌%◌, ◌^◌, ◌<◌, ◌≤◌, ◌≡◌, ◌≢◌, refl, some, true, false, ◌&&◌, ◌==◌, if◌then◌else◌,
  bit_or, arith, sym, ◌∙◌, ap, ℕ_discrete,
}
use trunix.Prelude.Bits.{bit_or_seven}
use trunix.Round.{page, kernel_offset, v2p, p2v}
use trunix.Block.{cover}
use trunix.Vm.{Vm, pg_user, frame, write}
use trunix.Vm.Walk.{
  dir_index, table_index, table, walk, IsSpace, walk-translate, translate_entry, translate_absent,
  translate_same,
}

pub entry_user : (pa : ℕ) → pa % page ≡ 0 → bit_or (frame pa) pg_user ≡ pa + 7
entry_user pa h = omega (arith, bit_or_seven (frame pa))

pub table_new :
    (pt : ℕ) → pt % page ≡ 0 → kernel_offset ≤ pt → pt < 2 ^ 32 → p2v (frame (v2p pt + 7)) ≡ pt
unfolding v2p p2v
table_new pt al h lt = omega arith

pub aligned_new : (pt : ℕ) → pt % page ≡ 0 → v2p pt % page ≡ 0
unfolding v2p
aligned_new pt al = omega arith

frame_or : (e : ℕ) → frame (bit_or e pg_user) ≡ frame e
frame_or e = omega (arith, bit_or_seven e)

pub same_page :
    (va va' : ℕ)
    → dir_index va' ≡ dir_index va
    → table_index va' ≡ table_index va
    → va' / 2 ^ 12 ≡ va / 2 ^ 12
same_page va va' e e' = omega arith

-- What is free and what the pages hold after the page at `va` is mapped to `pa`.
pub record Mapped (pd va pa : ℕ) (s s' : Vm) : Type 0 where
  pub space : IsSpace pd s'
  pub walks :
      (x : ℕ)
      → x < kernel_offset
      → walk s' pd x ≡ (if x / 2 ^ 12 == va / 2 ^ 12 then some (pa + x % 0x1000) else walk s pd x)
  pub kernel : (i : ℕ) → 512 ≤ i → s'.word pd i ≡ s.word pd i
  pub less : (x : ℕ) → cover x s'.mem.freelist ≤ cover x s.mem.freelist
  pub bytes : (x : ℕ) → cover x s.mem.freelist ≡ 0 → s'.mem.byte x ≡ s.mem.byte x
  pub others :
      (q j : ℕ)
      → q ≢ pd
      → cover q s.mem.freelist ≡ 0
      → ((i : ℕ) → i < 512 → s.word pd i % 2 ≢ 0 → q ≢ table pd i s)
      → s'.word q j ≡ s.word q j
  pub tables :
      (q : ℕ)
      → cover q s.mem.freelist ≡ 0
      → ((i : ℕ) → i < 512 → s.word pd i % 2 ≢ 0 → q ≢ table pd i s)
      → (i : ℕ) → i < 512
      → s'.word pd i % 2 ≢ 0
      → q ≢ table pd i s'

-- A table is there already.
module _ (pd va pa : ℕ) (s : Vm) (v : IsSpace pd s) (low : va < kernel_offset) (al : pa % page ≡ 0)
    (present : s.word pd (dir_index va) % 2 ≢ 0) where
  abbrev pub old_table : ℕ
  old_table = table pd (dir_index va) s

  abbrev pub entry_set : ℕ
  entry_set = bit_or (s.word pd (dir_index va)) pg_user

  abbrev pub reused : Vm
  reused = record s {
    word =
        write (write s.word pd (dir_index va) entry_set) old_table (table_index va)
          (bit_or (frame pa) pg_user);
  }

  old_ne : old_table ≢ pd
  old_ne = v.table_ne (dir_index va) (omega arith) present

  reused-entry : (i : ℕ) → reused.word pd i ≡ (if i == dir_index va then entry_set else s.word pd i)
  reused-entry i = ground (arith, old_ne)

  set_present : entry_set % 2 ≡ 1
  set_present = omega (arith, bit_or_seven (s.word pd (dir_index va)))

  reused-table : (i : ℕ) → table pd i reused ≡ table pd i s
  reused-table i = elim (ℕ_discrete i (dir_index va)) [
    | yes e ↦
        ap (λ x. p2v (frame x)) (reused-entry i ∙ ground arith)
        ∙ ap p2v (frame_or (s.word pd (dir_index va)))
        ∙ ap (λ k. table pd k s) (sym e)
    | no ne ↦ ap (λ x. p2v (frame x)) (reused-entry i ∙ ground arith)
  ]

  reused-present : (i : ℕ) → reused.word pd i % 2 ≢ 0 → s.word pd i % 2 ≢ 0
  reused-present i h = ground (arith, reused-entry i, present)

  reused-slot :
      (i j : ℕ)
      → i < 512
      → s.word pd i % 2 ≢ 0
      → reused.word (table pd i s) j ≡ (
          if (i == dir_index va) && (j == table_index va)
          then bit_or (frame pa) pg_user
          else s.word (table pd i s) j)
  reused-slot i j h p =
      let ne = v.table_ne i h p in
      let ne' = v.apart i (dir_index va) h (omega arith) in
      elim (ℕ_discrete i (dir_index va)) [
        | yes e ↦ let e' : table pd i s ≡ old_table = ap (λ k. table pd k s) e in ground arith
        | no n ↦ let n' = ne' n p present in ground arith
      ]

  reused-IsSpace : IsSpace pd reused
  reused-IsSpace = record {
    free = v.free;
    taken = v.taken;
    small = λ i h p. elim (ℕ_discrete i (dir_index va)) [
      | yes e ↦
          let o = v.small (dir_index va) (omega arith) present in
          let r : reused.word pd i ≡ entry_set = reused-entry i ∙ ground arith in
          omega (arith, bit_or_seven (s.word pd (dir_index va)))
      | no n ↦
          let o = v.small i h (reused-present i p) in
          let r : reused.word pd i ≡ s.word pd i = reused-entry i ∙ ground arith in omega arith
    ];
    table_taken = λ i h p.
        ap (λ t. cover t s.mem.freelist) (reused-table i) ∙ v.table_taken i h (reused-present i p);
    table_ne = λ i h p e. v.table_ne i h (reused-present i p) (sym (reused-table i) ∙ e);
    apart = λ i j hi hj n p p' e.
        v.apart i j hi hj n (reused-present i p) (reused-present j p')
          (sym (reused-table i) ∙ e ∙ reused-table j);
  }

  reused-walk :
      (x : ℕ)
      → x < kernel_offset
      → walk reused pd x
        ≡ (if x / 2 ^ 12 == va / 2 ^ 12 then some (pa + x % 0x1000) else walk s pd x)
  reused-walk x h = elim (ℕ_discrete (dir_index x) (dir_index va)) [
    | yes e ↦
        let p : reused.word pd (dir_index x) ≡ entry_set =
          reused-entry (dir_index x) ∙ ground arith in
        let t : table pd (dir_index x) reused ≡ old_table =
          reused-table (dir_index x) ∙ ap (λ k. table pd k s) e in
        let r = reused-slot (dir_index va) (table_index x) (omega arith) present in
        let sm = v.small (dir_index va) (omega arith) present in
        let sm' : entry_set / 2 ^ 7 % 2 ≡ 0 =
          omega (arith, bit_or_seven (s.word pd (dir_index va))) in
        let set : entry_set % 2 ≢ 0 = λ z. omega (arith, set_present) in
        elim (ℕ_discrete (table_index x) (table_index va)) [
          | yes e' ↦
              let pg : (x / 2 ^ 12 == va / 2 ^ 12) ≡ true = ground (arith, same_page va x e e') in
              let r' : reused.word old_table (table_index x) ≡ bit_or (frame pa) pg_user =
                r ∙ ground arith in
              rw pg (
                walk-translate reused pd x entry_set old_table _ p t r'
                ∙ translate_entry entry_set _ x pa set sm' (entry_user pa al) al)
          | no n ↦
              let pg : (x / 2 ^ 12 == va / 2 ^ 12) ≡ false = ground arith in
              let r' : reused.word old_table (table_index x) ≡ s.word old_table (table_index x) =
                r ∙ ground arith in
              rw pg (
                walk-translate reused pd x entry_set old_table _ p t r'
                ∙ translate_same (s.word pd (dir_index va)) entry_set _ x present set sm sm'
                ∙ sym (
                    walk-translate s pd x _ old_table _ (ap (s.word pd) e)
                      (ap (λ k. table pd k s) e) refl))
        ]
    | no n ↦
        let pg : (x / 2 ^ 12 == va / 2 ^ 12) ≡ false = ground arith in
        let p : reused.word pd (dir_index x) ≡ s.word pd (dir_index x) =
          reused-entry (dir_index x) ∙ ground arith in
        rw pg (elim (ℕ_discrete (s.word pd (dir_index x) % 2) 0) [
          | yes z ↦
              walk-translate reused pd x _ _ _ p refl refl
              ∙ translate_absent (s.word pd (dir_index x)) _ x z
              ∙ sym (
                  walk-translate s pd x _ _ _ refl refl refl
                  ∙ translate_absent (s.word pd (dir_index x)) _ x z)
          | no z ↦
              walk-translate reused pd x _ _ _ p (reused-table (dir_index x))
                (reused-slot (dir_index x) (table_index x) (omega arith) z ∙ ground arith)
              ∙ sym (walk-translate s pd x _ _ _ refl refl refl)
        ])
  ]

  pub reused-Mapped : Mapped pd va pa s reused
  reused-Mapped = record {
    space = reused-IsSpace;
    walks = reused-walk;
    kernel = λ i h. reused-entry i ∙ ground arith;
    less = λ x. omega arith;
    bytes = λ x c. refl;
    others = λ q j ne c apart. let n = apart (dir_index va) (omega arith) present in ground arith;
    tables = λ q c apart i h p z. apart i h (reused-present i p) (z ∙ reused-table i);
  }
