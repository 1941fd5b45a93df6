-- ===== src/Vm/Range.antt =====
-- What `alloc_pt` maps.
use trunix.Prelude.{
  ℕ, zero, suc, ◌+◌, ◌-◌, ◌*◌, ◌/◌, ◌%◌, ◌^◌, ◌<◌, ◌≤◌, ◌≡◌, ◌≢◌, refl, inl, inr, Option, none,
  some, true, false, ◌&&◌, ltb, leb, ◌==◌, if◌then◌else◌, arith, Bool-cases, ◌∙◌, ap,
}
use trunix.Round.{page, kernel_offset, pg_roundup, pg_roundup_self, pg_rounddown_self}
use trunix.Block.{cover}
use trunix.Pages.Cover.{AllBelow}
use trunix.Vm.{Vm, pg_user, map_page, map_pages, alloc_pt}
use trunix.Vm.Walk.{dir_index, table, walk, IsSpace}
use trunix.Vm.Reuse.{Mapped}
use trunix.Vm.Step
use trunix.Vm.Step.{Maps, map_page-Maps}

-- The page is neither free, nor the directory `pd`, nor one of its tables.
pub record Outside (pd : ℕ) (s : Vm) (q : ℕ) : Type 0 where
  pub taken : cover q s.mem.freelist ≡ 0
  pub ne_dir : q ≢ pd
  pub ne_table : (i : ℕ) → i < 512 → s.word pd i % 2 ≢ 0 → q ≢ table pd i s

-- The space `pd` of `s'` is that of `s` with the `n` bytes from `va` on at `pa`; nothing else is
-- changed but the entries that this takes, in the user's half of `pd`, in its tables, and in pages
-- that were free.
pub record Ranged (pd va pa n : ℕ) (s s' : Vm) : Type 0 where
  pub space : IsSpace pd s'
  pub walks :
      (x : ℕ)
      → x < kernel_offset
      → walk s' pd x ≡ (if leb va x && ltb x (va + n) then some (pa + (x - va)) else walk s pd x)
  pub kernel : (i : ℕ) → 512 ≤ i → s'.word pd i ≡ s.word pd i
  pub less : (x : ℕ) → cover x s'.mem.freelist ≤ cover x s.mem.freelist
  pub bytes : (x : ℕ) → cover x s.mem.freelist ≡ 0 → s'.mem.byte x ≡ s.mem.byte x
  pub others : (q j : ℕ) → Outside pd s q → s'.word q j ≡ s.word q j
  pub outside : (q : ℕ) → Outside pd s q → Outside pd s' q

-- The pages are mapped; or one of them needs a table, and no page is free for it then.
pub data Ranges (pd va pa n : ℕ) (s : Vm) : Option Vm → Type 0 where
  ranged : {s' : Vm} → Ranged pd va pa (n * 0x1000) s s' → Ranges pd va pa n s (some s')
  starved :
      (k : ℕ) (s' : Vm)
      → k < n
      → map_pages k pd va pa pg_user s ≡ some s'
      → s'.word pd (dir_index (va + k * 0x1000)) % 2 ≡ 0
      → AllBelow 0x1000 s'.mem.freelist
      → Ranges pd va pa n s none

Ranged-none : (pd va pa : ℕ) (s : Vm) → IsSpace pd s → Ranged pd va pa 0 s s
Ranged-none pd va pa s v = record {
  space = v;
  walks = λ x h. let e : (leb va x && ltb x (va + 0)) ≡ false = ground arith in rw e refl;
  kernel = λ i h. refl;
  less = λ x. omega arith;
  bytes = λ x c. refl;
  others = λ q j o. refl;
  outside = λ q o. o;
}

Mapped-Outside :
    {pd va pa : ℕ} {s s' : Vm} (q : ℕ) → Mapped pd va pa s s' → Outside pd s q → Outside pd s' q
Mapped-Outside q w o = record {
  taken = omega (arith, w.less q, o.taken);
  ne_dir = o.ne_dir;
  ne_table = w.tables q o.taken o.ne_table;
}

Ranged-suc :
    (n pd va pa : ℕ) (s s1 s2 : Vm)
    → va % page ≡ 0
    → Mapped pd va pa s s1
    → Ranged pd (va + 0x1000) (pa + 0x1000) (n * 0x1000) s1 s2
    → Ranged pd va pa (suc n * 0x1000) s s2
Ranged-suc n pd va pa s s1 s2 al w r = record {
  space = r.space;
  walks = walks;
  kernel = λ i h. r.kernel i h ∙ w.kernel i h;
  less = λ x. omega (arith, r.less x, w.less x);
  bytes = λ x c. r.bytes x (omega (arith, w.less x)) ∙ w.bytes x c;
  others = λ q j o. r.others q j (Mapped-Outside q w o) ∙ w.others q j o.ne_dir o.taken o.ne_table;
  outside = λ q o. r.outside q (Mapped-Outside q w o);
}
  where
    walks :
        (x : ℕ)
        → x < kernel_offset
        → walk s2 pd x
          ≡ (if leb va x && ltb x (va + suc n * 0x1000) then some (pa + (x - va)) else walk s pd x)
    walks x h = elim (Bool-cases (x / 2 ^ 12 == va / 2 ^ 12)) [
      | inl e ↦
          let a : (leb (va + 0x1000) x && ltb x (va + 0x1000 + n * 0x1000)) ≡ false =
            ground arith in
          let b : (leb va x && ltb x (va + suc n * 0x1000)) ≡ true = ground arith in
          let c : pa + x % 0x1000 ≡ pa + (x - va) = ground arith in
          r.walks x h ∙ rw (a, b) (w.walks x h ∙ rw (e, c) refl)
      | inr ne ↦ elim (Bool-cases (leb (va + 0x1000) x && ltb x (va + 0x1000 + n * 0x1000))) [
        | inl a ↦
            let b : (leb va x && ltb x (va + suc n * 0x1000)) ≡ true = ground arith in
            let c : pa + 0x1000 + (x - (va + 0x1000)) ≡ pa + (x - va) = ground arith in
            r.walks x h ∙ rw (a, b, c) refl
        | inr a ↦
            let b : (leb va x && ltb x (va + suc n * 0x1000)) ≡ false = ground arith in
            r.walks x h ∙ rw (a, b) (w.walks x h ∙ rw ne refl)
      ]
    ]

no_wrap : (a n : ℕ) → a + suc n * 0x1000 < 2 ^ 32 → (a + 0x1000) % 2 ^ 32 ≡ a + 0x1000
no_wrap a n h = omega arith

map_pages-suc :
    (k pd va pa : ℕ) (s s1 : Vm)
    → (va + 0x1000) % 2 ^ 32 ≡ va + 0x1000
    → (pa + 0x1000) % 2 ^ 32 ≡ pa + 0x1000
    → map_page pd va pa pg_user s ≡ some s1
    → map_pages (suc k) pd va pa pg_user s ≡ map_pages k pd (va + 0x1000) (pa + 0x1000) pg_user s1
unfolding map_pages
map_pages-suc k pd va pa s s1 a b e = rw (map_pages, e, a, b) refl

-- The rest of the range, behind a page that is mapped.
rest-Ranges :
    (n pd va pa : ℕ) (s s1 : Vm) (o : Option Vm)
    → va % page ≡ 0
    → (va + 0x1000) % 2 ^ 32 ≡ va + 0x1000
    → (pa + 0x1000) % 2 ^ 32 ≡ pa + 0x1000
    → map_page pd va pa pg_user s ≡ some s1
    → Mapped pd va pa s s1
    → Ranges pd (va + 0x1000) (pa + 0x1000) n s1 o
    → Ranges pd va pa (suc n) s o
rest-Ranges n pd va pa s s1 _ al a b e w (ranged r) = ranged (Ranged-suc n pd va pa s s1 _ al w r)
rest-Ranges n pd va pa s s1 _ al a b e w (starved k s' lt r missing below) =
    let at_k : va + 0x1000 + k * 0x1000 ≡ va + suc k * 0x1000 = omega arith in
    starved (suc k) s' (omega arith) (map_pages-suc k pd va pa s s1 a b e ∙ r) (rw at_k at missing)
      below

first-Ranges :
    (n pd va pa : ℕ) (s : Vm) (o : Option Vm)
    → va % page ≡ 0
    → (va + 0x1000) % 2 ^ 32 ≡ va + 0x1000
    → (pa + 0x1000) % 2 ^ 32 ≡ pa + 0x1000
    → map_page pd va pa pg_user s ≡ o
    → Maps pd va pa s o
    → ((s1 : Vm)
        → IsSpace pd s1
        → Ranges pd
            (va + 0x1000)
            (pa + 0x1000)
            n
            s1
            (map_pages n pd (va + 0x1000) (pa + 0x1000) pg_user s1))
    → Ranges pd va pa (suc n) s (map_pages (suc n) pd va pa pg_user s)
unfolding map_pages
first-Ranges n pd va pa s _ al a b e (Step.Maps.mapped {s'} w) next =
    rw (map_pages-suc n pd va pa s s' a b e)
      (rest-Ranges n pd va pa s s' _ al a b e w (next s' w.space))
first-Ranges n pd va pa s _ al a b e (Step.Maps.starved missing below) next =
    let at_0 : va ≡ va + 0 * 0x1000 = omega arith in
    rw (map_pages, e) (starved 0 s (omega arith) refl (rw at_0 at missing) below)

map_pages-Ranges :
    (n pd va pa : ℕ) (s : Vm)
    → IsSpace pd s
    → va % page ≡ 0
    → pa % page ≡ 0
    → va + n * 0x1000 ≤ kernel_offset
    → pa + n * 0x1000 < 2 ^ 32
    → Ranges pd va pa n s (map_pages n pd va pa pg_user s)
unfolding map_pages
map_pages-Ranges zero pd va pa s v al al' fit fit' = ranged (Ranged-none pd va pa s v)
map_pages-Ranges (suc n) pd va pa s v al al' fit fit' =
    first-Ranges n pd va pa s _ al (no_wrap va n (omega arith)) (no_wrap pa n fit') refl
      (map_page-Maps pd va pa s v (omega arith) al')
      (λ s1 v1.
        map_pages-Ranges n pd (va + 0x1000) (pa + 0x1000) s1 v1 (omega arith) (omega arith)
          (omega arith) (omega arith))

-- Refinement: of whole pages of the user's half `alloc_pt` changes the map from virtual to physical
-- addresses, which the processor's walk reads from the directory and the tables, in the range and
-- nowhere else, and keeps the directory in order. It fails only when a page of the range needs a table
-- and no page of memory is free for it.
pub alloc_pt-Ranges :
    (pd va pa n : ℕ) (s : Vm)
    → IsSpace pd s
    → va % page ≡ 0
    → pa % page ≡ 0
    → va + n * 0x1000 ≤ kernel_offset
    → pa + n * 0x1000 < 2 ^ 32
    → Ranges pd va pa n s (alloc_pt pd va pa (n * 0x1000) pg_user s)
unfolding alloc_pt
alloc_pt-Ranges pd va pa n s v al al' fit fit' =
    let e : pg_roundup (n * 0x1000) / 0x1000 ≡ n =
      ap (λ x. x / 0x1000) (pg_roundup_self (n * 0x1000) (omega arith)) ∙ omega arith in
    rw (alloc_pt, e, pg_rounddown_self va al, pg_rounddown_self pa al')
      (map_pages-Ranges n pd va pa s v al al' fit fit')
