-- ===== src/Vm/Grow.antt =====
-- One page that `alloc_pt` maps with a table of its own.
use trunix.Prelude.{
  ℕ, ◌+◌, ◌/◌, ◌%◌, ◌^◌, ◌<◌, ◌≤◌, ◌≡◌, ◌≢◌, refl, inl, inr, some, true, false, ◌==◌, if◌then◌else◌,
  bit_or, arith, Bool-cases, sym, ◌∙◌, ap, ℕ_discrete,
}
use trunix.Round.{page, kernel_offset, v2p, p2v}
use trunix.Block.{cover, inside}
use trunix.Pages.{Mem}
use trunix.Pages.Free.{IsFree}
use trunix.Vm.{Vm, pg_user, frame, write, clear}
use trunix.Vm.Walk.{
  dir_index, table_index, table, walk, IsSpace, walk-translate, translate_entry, translate_absent,
  translate_unset,
}
use trunix.Vm.Reuse.{Mapped, entry_user, table_new, aligned_new, same_page}

-- The page `pt` is what `alloc_pages` has granted.
module _ (pd va pa : ℕ) (s : Vm) (v : IsSpace pd s) (low : va < kernel_offset) (al : pa % page ≡ 0)
    (missing : s.word pd (dir_index va) % 2 ≡ 0) (pt : ℕ) (m : Mem) (free : IsFree m)
    (whole : pt % page ≡ 0) (high : kernel_offset ≤ pt) (fits : pt + 0x1000 < 2 ^ 32)
    (less : (x : ℕ) → inside x pt 0x1000 + cover x m.freelist ≤ cover x s.mem.freelist)
    (kept : (x : ℕ) → cover x s.mem.freelist ≡ 0 → m.byte x ≡ s.mem.byte x) where
  abbrev pub grown : Vm
  grown = record {
    mem = m;
    word =
        write (write (clear s.word pt) pd (dir_index va) (bit_or (frame (v2p pt)) pg_user)) pt
          (table_index va) (bit_or (frame pa) pg_user);
  }

  -- What is not free is another page.
  not_new : (q : ℕ) → cover q s.mem.freelist ≡ 0 → q ≢ pt
  not_new q c e = ground (arith, less q)

  now_taken : cover pt m.freelist ≡ 0
  now_taken = ground (arith, less pt, v.free.once pt)

  still_taken : (q : ℕ) → cover q s.mem.freelist ≡ 0 → cover q m.freelist ≡ 0
  still_taken q c = omega (arith, less q)

  new_entry : bit_or (frame (v2p pt)) pg_user ≡ v2p pt + 7
  new_entry = entry_user (v2p pt) (aligned_new pt whole)

  grown-entry : (i : ℕ) → grown.word pd i ≡ (if i == dir_index va then v2p pt + 7 else s.word pd i)
  grown-entry i = ground (arith, not_new pd v.taken, new_entry)

  grown-table : (i : ℕ) → table pd i grown ≡ (if i == dir_index va then pt else table pd i s)
  grown-table i = elim (Bool-cases (i == dir_index va)) [
    | inl e ↦
        let g : grown.word pd i ≡ v2p pt + 7 = grown-entry i ∙ rw e refl in
        let pick : (if i == dir_index va then pt else table pd i s) ≡ pt = rw e refl in
        ap (λ x. p2v (frame x)) g ∙ table_new pt whole high (omega arith) ∙ sym pick
    | inr n ↦
        let g : grown.word pd i ≡ s.word pd i = grown-entry i ∙ rw n refl in
        let pick : (if i == dir_index va then pt else table pd i s) ≡ table pd i s = rw n refl in
        ap (λ x. p2v (frame x)) g ∙ sym pick
  ]

  grown-new :
      (j : ℕ)
      → j < 1024
      → grown.word pt j ≡ (if j == table_index va then bit_or (frame pa) pg_user else 0)
  grown-new j h = ground (arith, not_new pd v.taken)

  grown-old : (q j : ℕ) → q ≢ pd → cover q s.mem.freelist ≡ 0 → grown.word q j ≡ s.word q j
  grown-old q j ne c = ground (arith, not_new q c)

  -- An entry that is present is the new one, or was there before.
  grown-present :
      (i : ℕ) → grown.word pd i % 2 ≢ 0 → (i == dir_index va) ≡ false → s.word pd i % 2 ≢ 0
  grown-present i h n = ground (arith, grown-entry i)

  entry_small : (v2p pt + 7) / 2 ^ 7 % 2 ≡ 0
  entry_small = omega (arith, aligned_new pt whole)

  entry_present : (v2p pt + 7) % 2 ≢ 0
  entry_present = λ z. omega (arith, aligned_new pt whole)

  new_table-ne : (i : ℕ) → i < 512 → s.word pd i % 2 ≢ 0 → table pd i s ≢ pt
  new_table-ne i h p = not_new (table pd i s) (v.table_taken i h p)

  grown-apart :
      (i j : ℕ)
      → i < 512
      → j < 512
      → i ≢ j
      → grown.word pd i % 2 ≢ 0
      → grown.word pd j % 2 ≢ 0
      → table pd i grown ≢ table pd j grown
  grown-apart i j hi hj n p p' = elim (Bool-cases (i == dir_index va)) [
    | inl e ↦
        let f : (j == dir_index va) ≡ false = ground arith in
        let o = new_table-ne j hj (grown-present j p' f) in
        λ z. o (sym ((sym (grown-table i ∙ rw e refl)) ∙ z ∙ grown-table j ∙ rw f refl))
    | inr e ↦ elim (Bool-cases (j == dir_index va)) [
      | inl f ↦
          let o = new_table-ne i hi (grown-present i p e) in
          λ z. o ((sym (grown-table i ∙ rw e refl)) ∙ z ∙ grown-table j ∙ rw f refl)
      | inr f ↦
          let o = v.apart i j hi hj n (grown-present i p e) (grown-present j p' f) in
          λ z. o ((sym (grown-table i ∙ rw e refl)) ∙ z ∙ grown-table j ∙ rw f refl)
    ]
  ]

  grown-IsSpace : IsSpace pd grown
  grown-IsSpace = record {
    free = free;
    taken = still_taken pd v.taken;
    small = λ i h p. elim (Bool-cases (i == dir_index va)) [
      | inl e ↦ ap (λ x. x / 2 ^ 7 % 2) (grown-entry i ∙ rw e refl) ∙ entry_small
      | inr e ↦
          ap (λ x. x / 2 ^ 7 % 2) (grown-entry i ∙ rw e refl) ∙ v.small i h (grown-present i p e)
    ];
    table_taken = λ i h p. elim (Bool-cases (i == dir_index va)) [
      | inl e ↦ ap (λ t. cover t m.freelist) (grown-table i ∙ rw e refl) ∙ now_taken
      | inr e ↦
          ap (λ t. cover t m.freelist) (grown-table i ∙ rw e refl)
          ∙ still_taken (table pd i s) (v.table_taken i h (grown-present i p e))
    ];
    table_ne = λ i h p. elim (Bool-cases (i == dir_index va)) [
      | inl e ↦ λ z. not_new pd v.taken (sym z ∙ grown-table i ∙ rw e refl)
      | inr e ↦ λ z. v.table_ne i h (grown-present i p e) (sym (grown-table i ∙ rw e refl) ∙ z)
    ];
    apart = grown-apart;
  }

  grown-walk :
      (x : ℕ)
      → x < kernel_offset
      → walk grown pd x
        ≡ (if x / 2 ^ 12 == va / 2 ^ 12 then some (pa + x % 0x1000) else walk s pd x)
  grown-walk x h = elim (Bool-cases (dir_index x == dir_index va)) [
    | inl e ↦
        let p : grown.word pd (dir_index x) ≡ v2p pt + 7 = grown-entry (dir_index x) ∙ rw e refl in
        let t : table pd (dir_index x) grown ≡ pt = grown-table (dir_index x) ∙ rw e refl in
        let r = grown-new (table_index x) (omega arith) in
        elim (Bool-cases (table_index x == table_index va)) [
          | inl e' ↦
              let pg : (x / 2 ^ 12 == va / 2 ^ 12) ≡ true = ground (arith, same_page va x) in
              rw pg (
                walk-translate grown pd x _ _ _ p t (r ∙ rw e' refl)
                ∙ translate_entry (v2p pt + 7) _ x pa entry_present entry_small (entry_user pa al)
                    al)
          | inr n ↦
              let pg : (x / 2 ^ 12 == va / 2 ^ 12) ≡ false = ground arith in
              let was : s.word pd (dir_index x) % 2 ≡ 0 = ground arith in
              rw pg (
                walk-translate grown pd x _ _ 0 p t (r ∙ rw n refl)
                ∙ translate_unset (v2p pt + 7) x entry_small
                ∙ sym (
                    walk-translate s pd x _ _ _ refl refl refl
                    ∙ translate_absent (s.word pd (dir_index x)) _ x was))
        ]
    | inr n ↦
        let pg : (x / 2 ^ 12 == va / 2 ^ 12) ≡ false = ground arith in
        let p : grown.word pd (dir_index x) ≡ s.word pd (dir_index x) =
          grown-entry (dir_index x) ∙ rw n refl in
        rw pg (elim (ℕ_discrete (s.word pd (dir_index x) % 2) 0) [
          | yes z ↦
              walk-translate grown pd x _ _ _ p refl refl
              ∙ translate_absent (s.word pd (dir_index x)) _ x z
              ∙ sym (
                  walk-translate s pd x _ _ _ refl refl refl
                  ∙ translate_absent (s.word pd (dir_index x)) _ x z)
          | no z ↦
              let i = dir_index x in
              walk-translate grown pd x _ _ _ p (grown-table i ∙ rw n refl) (
                grown-old (table pd i s) (table_index x) (v.table_ne i (omega arith) z)
                  (v.table_taken i (omega arith) z))
              ∙ sym (walk-translate s pd x _ _ _ refl refl refl)
        ])
  ]

  pub grown-Mapped : Mapped pd va pa s grown
  grown-Mapped = record {
    space = grown-IsSpace;
    walks = grown-walk;
    kernel = λ i h. let n : (i == dir_index va) ≡ false = ground arith in grown-entry i ∙ rw n refl;
    less = λ x. omega (arith, less x);
    bytes = kept;
    others = λ q j ne c apart. grown-old q j ne c;
    tables = λ q c apart i h p. elim (Bool-cases (i == dir_index va)) [
      | inl e ↦ λ z. not_new q c (z ∙ grown-table i ∙ rw e refl)
      | inr e ↦ λ z. apart i h (grown-present i p e) (z ∙ grown-table i ∙ rw e refl)
    ];
  }
