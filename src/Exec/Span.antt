-- ===== src/Exec/Span.antt =====
-- kernel/proc.c: the first loop of `loadelf`.
use trunix.Prelude.{
  ℕ, ◌+◌, ◌%◌, ◌^◌, ◌<◌, ◌≤◌, ◌≡◌, ◌≢◌, ◌⊎◌, inl, inr, Option, none, some, List, [], ◌∷◌, ◌==◌,
  ◌||◌, if◌then◌else◌, arith, Bool-cases, refl, subst, sym, ◌∙◌, ltb,
}
use trunix.Round.{page, pg_roundup, pg_rounddown, pg_roundup_lem, pg_rounddown_lem}
use trunix.Elf.{ProgHdr, Extent, widen, measure}

abbrev pub AllHdrs : (ProgHdr → Type 0) → List ProgHdr → Type 0
AllHdrs P [] = Unit {0}
AllHdrs P (ph ∷ phs) = P ph × AllHdrs P phs

abbrev pub AnyHdr : (ProgHdr → Type 0) → List ProgHdr → Type 0
AnyHdr P [] = ⊥
AnyHdr P (ph ∷ phs) = P ph ⊎ AnyHdr P phs

-- The page at `a` is the one in which the segment begins.
abbrev pub StartsIn : ℕ → ProgHdr → Type 0
StartsIn a ph = (ph.type ≡ 1) × (a % page ≡ 0) × (a ≤ ph.va) × (ph.va < a + page)

-- The page boundary `a` is the first at or behind the end of the segment.
abbrev pub EndsAt : ℕ → ProgHdr → Type 0
EndsAt a ph =
    (ph.type ≡ 1) × (a % page ≡ 0) × (ph.va + ph.memsz ≤ a) × (a < ph.va + ph.memsz + page)

abbrev pub IsDynamic : ProgHdr → Type 0
IsDynamic ph = ph.type ≡ 2 ⊎ ph.type ≡ 3

abbrev pub HasDynamic : List ProgHdr → Type 0
HasDynamic [] = ⊥
HasDynamic (ph ∷ phs) = IsDynamic ph ⊎ HasDynamic phs

abbrev pub loaded : List ProgHdr → ℕ
loaded [] = 0
loaded (ph ∷ phs) = (if ph.type == 1 then 1 else 0) + loaded phs

-- The addresses from `low` up to `high` hold every segment that is loaded, and what `x0` holds; they
-- begin with the page in which one of them begins, and end with the page in which one of them ends.
pub record Spans (phs : List ProgHdr) (x0 x : Extent) : Type 0 where
  pub within : AllHdrs (λ ph. ph.type ≡ 1 → (x.low ≤ ph.va) × (ph.va + ph.memsz ≤ x.high)) phs
  pub grows : (x.low ≤ x0.low) × (x0.high ≤ x.high)
  pub first : (x.low ≡ x0.low) ⊎ AnyHdr (StartsIn x.low) phs
  pub last : (x.high ≡ x0.high) ⊎ AnyHdr (EndsAt x.high) phs
  pub counted : x.count ≡ x0.count + loaded phs
  pub static : AllHdrs (λ ph. (ph.type ≢ 2) × (ph.type ≢ 3)) phs

pub data Measures (phs : List ProgHdr) (x0 : Extent) : Option Extent → Type 0 where
  dynamic : HasDynamic phs → Measures phs x0 none
  spans : {x : Extent} → Spans phs x0 x → Measures phs x0 (some x)

widen_lem :
    (ph : ProgHdr) (x : Extent)
    → ph.va + ph.memsz + 0xfff < 2 ^ 32
    → ((widen ph x).low ≤ ph.va)
      × ((widen ph x).low ≤ x.low)
      × (ph.va + ph.memsz ≤ (widen ph x).high)
      × (x.high ≤ (widen ph x).high)
widen_lem ph x h =
    let same : (ph.va + ph.memsz) % 2 ^ 32 ≡ ph.va + ph.memsz = omega arith in
    let up = pg_roundup_lem (ph.va + ph.memsz) h in
    let down = pg_rounddown_lem ph.va in rw same (ground arith)

widen_ends :
    (ph : ProgHdr) (x : Extent)
    → ph.type ≡ 1
    → ph.va + ph.memsz + 0xfff < 2 ^ 32
    → (((widen ph x).low ≡ x.low) ⊎ StartsIn (widen ph x).low ph)
      × (((widen ph x).high ≡ x.high) ⊎ EndsAt (widen ph x).high ph)
widen_ends ph x e h =
    let same : (ph.va + ph.memsz) % 2 ^ 32 ≡ ph.va + ph.memsz = omega arith in
    let (up, above, near) = pg_roundup_lem (ph.va + ph.memsz) h in
    let (down, below, close) = pg_rounddown_lem ph.va in
    rw same (
      elim (Bool-cases (ltb (pg_rounddown ph.va) x.low)) [
        | inl y ↦ rw y (inr (e, down, below, close))
        | inr n ↦ rw n (inl refl)
      ],
      elim (Bool-cases (ltb x.high (pg_roundup (ph.va + ph.memsz)))) [
        | inl y ↦ rw y (inr (e, up, above, near))
        | inr n ↦ rw n (inl refl)
      ],
    )

-- The bound of the headers that are left, or that of the first one.
extend :
    (P : ℕ → ProgHdr → Type 0) (ph : ProgHdr) (phs : List ProgHdr) {a b c : ℕ}
    → (b ≡ c) ⊎ P b ph
    → (a ≡ b) ⊎ AnyHdr (P a) phs
    → (a ≡ c) ⊎ AnyHdr (P a) (ph ∷ phs)
extend P ph phs w (inr any) = inr (inr any)
extend P ph phs (inl same) (inl e) = inl (e ∙ same)
extend P ph phs (inr here) (inl e) = inr (inl (subst (λ z. P z ph) (sym e) here))

Measures-load :
    (ph : ProgHdr) (phs : List ProgHdr) (x0 : Extent) (o : Option Extent)
    → ph.type ≡ 1
    → ph.va + ph.memsz + 0xfff < 2 ^ 32
    → Measures phs (widen ph x0) o
    → Measures (ph ∷ phs) x0 o
Measures-load ph phs x0 _ e h (dynamic d) = dynamic (inr d)
Measures-load ph phs x0 _ e h (spans {x} m) =
    let w = widen_lem ph x0 h in
    spans (record {
      within = ((λ _. (omega (arith, w.0, m.grows.0), omega (arith, w.2, m.grows.1))), m.within);
      grows = (omega (arith, w.1, m.grows.0), omega (arith, w.3, m.grows.1));
      first = extend StartsIn ph phs (widen_ends ph x0 e h).0 m.first;
      last = extend EndsAt ph phs (widen_ends ph x0 e h).1 m.last;
      counted = let n = m.counted in ground arith;
      static = ((λ z. omega arith, λ z. omega arith), m.static);
    })

Measures-skip :
    (ph : ProgHdr) (phs : List ProgHdr) (x0 : Extent) (o : Option Extent)
    → ph.type ≢ 1
    → ph.type ≢ 2
    → ph.type ≢ 3
    → Measures phs x0 o
    → Measures (ph ∷ phs) x0 o
Measures-skip ph phs x0 _ n n2 n3 (dynamic d) = dynamic (inr d)
Measures-skip ph phs x0 _ n n2 n3 (spans {x} m) = spans (record {
  within = ((λ e. absurd (n e)), m.within);
  grows = m.grows;
  first = elim m.first [ inl q ↦ inl q | inr q ↦ inr (inr q) ];
  last = elim m.last [ inl q ↦ inl q | inr q ↦ inr (inr q) ];
  counted = let k = m.counted in ground arith;
  static = ((n2, n3), m.static);
})

-- Of headers whose segments end more than a page below 2 ^ 32 the first loop of `loadelf` refuses just
-- those of which one has type 2 or 3; else it counts the segments to load, and finds addresses that hold
-- all of them: unless the bounds before the loop are wider, from the start of the page in which the one
-- begins to the end of the page in which the other ends.
pub measure-Measures :
    (phs : List ProgHdr) (x0 : Extent)
    → AllHdrs (λ ph. ph.va + ph.memsz + 0xfff < 2 ^ 32) phs
    → Measures phs x0 (measure phs x0)
unfolding measure
measure-Measures [] x0 h = spans (record {
  within = tt;
  grows = (omega arith, omega arith);
  first = inl refl;
  last = inl refl;
  counted = omega arith;
  static = tt;
})
measure-Measures (ph ∷ phs) x0 h = elim (Bool-cases (ph.type == 1)) [
  | inl t ↦
      rw (measure, t)
        (Measures-load ph phs x0 _ (ground arith) h.0 (measure-Measures phs (widen ph x0) h.1))
  | inr f ↦ elim (Bool-cases ((ph.type == 2) || (ph.type == 3))) [
    | inl d ↦ rw (measure, f) (rw d (dynamic (inl (ground arith))))
    | inr s ↦
        rw (measure, f)
          (rw s (
            Measures-skip ph phs x0 _ (ground arith) (ground arith) (ground arith)
              (measure-Measures phs x0 h.1)))
  ]
]
