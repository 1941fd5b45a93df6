-- ===== src/Memmap/Slots.antt =====
-- The addresses that the entries of a memory map cover.
use trunix.Prelude.{
  ℕ, zero, suc, ◌+◌, ◌%◌, ◌^◌, ◌<◌, ◌≤◌, ◌≡◌, refl, some, Bool, false, ◌&&◌, ◌||◌, List, [], ◌∷◌,
  ltb, leb, ◌==◌, get_or, set, take, drop, replicate, length, arith, Bool-cases, Option-cases, inl,
  inr, ap, subst,
}
use trunix.Round.{page}
use trunix.Memmap.{Entry, entry, no_entry, fill_slot}

-- The address `x` lies in the entry; in an entry of the list.
abbrev pub within : ℕ → Entry → Bool
within x e = leb e.addr x && ltb x (e.addr + e.len)

abbrev pub covers : ℕ → List Entry → Bool
covers x [] = false
covers x (e ∷ es) = within x e || covers x es

-- An entry of whole pages below the top of the address space.
pub record IsEntry (e : Entry) : Type 0 where
  pub aligned : e.addr % page ≡ 0
  pub whole : e.len % page ≡ 0
  pub fits : e.addr + e.len < 2 ^ 32

abbrev pub AllEntries : List Entry → Type 0
AllEntries [] = Unit {0}
AllEntries (e ∷ es) = IsEntry e × AllEntries es

pub get_or-IsEntry : (es : List Entry) (m : ℕ) → AllEntries es → IsEntry (get_or es m no_entry)
get_or-IsEntry [] m a = omega arith
get_or-IsEntry (e ∷ es) zero a = a.0
get_or-IsEntry (e ∷ es) (suc m) a = get_or-IsEntry es m a.1

pub set-AllEntries :
    (es : List Entry) (m : ℕ) (e : Entry) → IsEntry e → AllEntries es → AllEntries (set es m e)
set-AllEntries [] m e h a = tt
set-AllEntries (x ∷ xs) zero e h a = (h, a.1)
set-AllEntries (x ∷ xs) (suc m) e h a = (a.0, set-AllEntries xs m e h a.1)

-- An entry that is emptied.
pub covers-set :
    (x t : ℕ) (es : List Entry) (m : ℕ)
    → covers x es ≡ (within x (get_or es m no_entry) || covers x (set es m (entry 0 0 t)))
covers-set x t [] m = ground arith
covers-set x t (e ∷ es) zero = ground arith
covers-set x t (e ∷ es) (suc m) = ground (arith, covers-set x t es m)

pub covers-take-set :
    (x t : ℕ) (es : List Entry) (n m : ℕ)
    → covers x (take n es) ≡ false
    → covers x (take n (set es m (entry 0 0 t))) ≡ false
covers-take-set x t es zero m h = refl
covers-take-set x t [] (suc n) m h = refl
covers-take-set x t (e ∷ es) (suc n) zero h = ground arith
covers-take-set x t (e ∷ es) (suc n) (suc m) h = ground (arith, covers-take-set x t es n m)

pub covers-take-suc :
    (x : ℕ) (es : List Entry) (m : ℕ)
    → covers x (take (suc m) es) ≡ (covers x (take m es) || within x (get_or es m no_entry))
covers-take-suc x [] zero = ground arith
covers-take-suc x [] (suc m) = ground arith
covers-take-suc x (e ∷ es) zero = ground arith
covers-take-suc x (e ∷ es) (suc m) = ground (arith, covers-take-suc x es m)

pub covers-drop-set :
    (x t : ℕ) (es : List Entry) (n m : ℕ)
    → covers x (drop n es) ≡ false
    → covers x (drop n (set es m (entry 0 0 t))) ≡ false
covers-drop-set x t [] zero m h = refl
covers-drop-set x t [] (suc n) m h = refl
covers-drop-set x t (e ∷ es) zero zero h = ground arith
covers-drop-set x t (e ∷ es) zero (suc m) h = ground (arith, covers-drop-set x t es zero m)
covers-drop-set x t (e ∷ es) (suc n) zero h = h
covers-drop-set x t (e ∷ es) (suc n) (suc m) h = covers-drop-set x t es n m h

pub covers-drop_mono :
    (x : ℕ) (es : List Entry) (m n : ℕ)
    → m ≤ n
    → covers x (drop m es) ≡ false
    → covers x (drop n es) ≡ false
covers-drop_mono x es zero zero h c = c
covers-drop_mono x [] zero (suc n) h c = refl
covers-drop_mono x (e ∷ es) zero (suc n) h c =
    covers-drop_mono x es zero n (omega arith) (ground arith)
covers-drop_mono x [] (suc m) n h c = drop_nil n
  where
    drop_nil : (n : ℕ) → covers x (drop n []) ≡ false
    drop_nil zero = refl
    drop_nil (suc n) = refl
covers-drop_mono x (e ∷ es) (suc m) zero h c = absurd (omega arith)
covers-drop_mono x (e ∷ es) (suc m) (suc n) h c = covers-drop_mono x es m n (omega arith) c

pub covers_split :
    (x : ℕ) (es : List Entry) (n : ℕ) → covers x es ≡ (covers x (take n es) || covers x (drop n es))
covers_split x es zero = refl
covers_split x [] (suc n) = refl
covers_split x (e ∷ es) (suc n) = ground (arith, covers_split x es n)

-- What `fill_slot` does to the list.
pub record Filled (e : Entry) (m : ℕ) (es : List Entry) (i : ℕ) (es' : List Entry) : Type 0 where
  pub lower : m ≤ i
  pub upper : i < m + length es
  pub same_length : length es' ≡ length es
  pub entries : IsEntry e → AllEntries es → AllEntries es'
  pub covered : (x : ℕ) → covers x es' ≡ (within x e || covers x es)
  pub clear : (x n : ℕ) → within x e ≡ false → covers x (take n es') ≡ covers x (take n es)
  pub suffix : (x n : ℕ) → i < m + n → covers x (drop n es') ≡ covers x (drop n es)

module _ (e x : Entry) (m : ℕ) (xs : List Entry) where
  clear_now :
      x.len ≡ 0
      → (a n : ℕ) → within a e ≡ false
      → covers a (take n (e ∷ xs)) ≡ covers a (take n (x ∷ xs))
  clear_now z a zero h = refl
  clear_now z a (suc n) h = ground arith

  suffix_now : (a n : ℕ) → m < m + n → covers a (drop n (e ∷ xs)) ≡ covers a (drop n (x ∷ xs))
  suffix_now a zero h = absurd (omega arith)
  suffix_now a (suc n) h = refl

  Filled-now : x.len ≡ 0 → Filled e m (x ∷ xs) m (e ∷ xs)
  Filled-now z = record {
    lower = omega arith;
    upper = omega arith;
    same_length = refl;
    entries = λ h a. (h, a.1);
    covered = λ a. ground arith;
    clear = clear_now z;
    suffix = suffix_now;
  }

  module _ {j : ℕ} {ys : List Entry} (f : Filled e (m + 1) xs j ys) where
    clear_later :
        (a n : ℕ) → within a e ≡ false → covers a (take n (x ∷ ys)) ≡ covers a (take n (x ∷ xs))
    clear_later a zero h = refl
    clear_later a (suc n) h = ap (λ b. within a x || b) (f.clear a n h)

    suffix_later : (a n : ℕ) → j < m + n → covers a (drop n (x ∷ ys)) ≡ covers a (drop n (x ∷ xs))
    suffix_later a zero h = absurd (omega (arith, f.lower))
    suffix_later a (suc n) h = f.suffix a n (omega arith)

    Filled-later : Filled e m (x ∷ xs) j (x ∷ ys)
    Filled-later = record {
      lower = omega (arith, f.lower);
      upper = omega (arith, f.upper);
      same_length = ap suc f.same_length;
      entries = λ h a. (a.0, f.entries h a.1);
      covered = λ a. ground (arith, f.covered a);
      clear = clear_later;
      suffix = suffix_later;
    }

pub fill_slot-Filled :
    (e : Entry) (m : ℕ) (es : List Entry) {i : ℕ} {es' : List Entry}
    → fill_slot m e es ≡ some (i, es')
    → Filled e m es i es'
unfolding fill_slot
fill_slot-Filled e m [] f = cc
fill_slot-Filled e m (x ∷ xs) {i} {es'} f = elim (Bool-cases (x.len == 0)) [
  | inl t ↦
      let ei : m ≡ i = ground arith in
      let ee : e ∷ xs ≡ es' = ground arith in
      subst (λ (r : ℕ × List Entry). Filled e m (x ∷ xs) r.0 r.1) {x = (m, e ∷ xs)} {y = (i, es')}
        (ground arith) (Filled-now e x m xs (ground arith))
  | inr n ↦ elim (Option-cases (fill_slot (m + 1) e xs)) [
    | inl f' ↦ ground arith
    | inr ((j, ys), f') ↦
        let ih = fill_slot-Filled e (m + 1) xs {i = j} {es' = ys} f' in
        subst (λ (r : ℕ × List Entry). Filled e m (x ∷ xs) r.0 r.1) {x = (j, x ∷ ys)} {y = (i, es')}
          (ground arith) (Filled-later e x m xs ih)
  ]
]

pub covers-replicate : (x n : ℕ) → covers x (replicate n no_entry) ≡ false
covers-replicate x zero = refl
covers-replicate x (suc n) = ground (arith, covers-replicate x n)

pub replicate-AllEntries : (n : ℕ) → AllEntries (replicate n no_entry)
replicate-AllEntries zero = tt
replicate-AllEntries (suc n) = (omega arith, replicate-AllEntries n)
