-- ===== src/Memmap/Room.antt =====
-- The free slots of a memory map, and the entries that meet a run.
use trunix.Prelude.{
  ℕ, zero, suc, ◌+◌, ◌<◌, ◌≤◌, ◌≡◌, ◌≢◌, refl, inl, inr, some, Bool, true, false, List, [], ◌∷◌,
  ltb, ◌==◌, if◌then◌else◌, get_or, set, drop, arith, Bool-cases,
}
use trunix.Memmap.{Entry, entry, no_entry, fill_slot}

-- The slots that are free.
abbrev pub spare : List Entry → ℕ
spare [] = 0
spare (e ∷ es) = (if e.len == 0 then 1 else 0) + spare es

-- The entry has an address from `s` on and below `t`.
abbrev pub meets : ℕ → ℕ → Entry → Bool
meets s t e =
    ltb (if ltb s e.addr then e.addr else s) (if ltb (e.addr + e.len) t then e.addr + e.len else t)

abbrev pub meeting : ℕ → ℕ → List Entry → ℕ
meeting s t [] = 0
meeting s t (e ∷ es) = (if meets s t e then 1 else 0) + meeting s t es

-- A list that has at most `n` free slots fewer, and from no slot on more entries that meet the run.
pub record Uses (s t n : ℕ) (es es' : List Entry) : Type 0 where
  pub room : spare es ≤ n + spare es'
  pub fewer : (j : ℕ) → meeting s t (drop j es') ≤ meeting s t (drop j es)

Uses-cons :
    {s t n : ℕ} {es es' : List Entry} (x : Entry)
    → Uses s t n es es'
    → Uses s t n (x ∷ es) (x ∷ es')
Uses-cons {s} {t} {n} {es} {es'} x u = record { room = omega (arith, u.room); fewer = fewer }
  where
    fewer : (j : ℕ) → meeting s t (drop j (x ∷ es')) ≤ meeting s t (drop j (x ∷ es))
    fewer zero = omega (arith, u.fewer 0)
    fewer (suc j) = u.fewer j

Uses-head :
    (s t : ℕ) (e x : Entry) (xs : List Entry)
    → (x.len == 0) ≡ true
    → meets s t e ≡ false
    → Uses s t 1 (x ∷ xs) (e ∷ xs)
Uses-head s t e x xs z m = record { room = ground arith; fewer = fewer }
  where
    fewer : (j : ℕ) → meeting s t (drop j (e ∷ xs)) ≤ meeting s t (drop j (x ∷ xs))
    fewer zero = rw m (omega arith)
    fewer (suc j) = omega arith

pub Uses-trans :
    {s t n n' : ℕ} {es es' es'' : List Entry}
    → Uses s t n es es'
    → Uses s t n' es' es''
    → Uses s t (n + n') es es''
Uses-trans u v = record {
  room = omega (arith, u.room, v.room);
  fewer = λ j. omega (arith, u.fewer j, v.fewer j);
}

pub fill_slot-Uses :
    (s t m : ℕ) (e : Entry) (es : List Entry)
    → meets s t e ≡ false
    → 0 < spare es
    → (i : ℕ) × (es' : List Entry) × (fill_slot m e es ≡ some (i, es')) × Uses s t 1 es es'
unfolding fill_slot
fill_slot-Uses s t m e [] h r = absurd (omega arith)
fill_slot-Uses s t m e (x ∷ xs) h r = elim (Bool-cases (x.len == 0)) [
  | inl z ↦ (m, e ∷ xs, rw (fill_slot, z) refl, Uses-head s t e x xs z h)
  | inr nz ↦
      let (i, ys, e', u) = fill_slot-Uses s t (m + 1) e xs h (ground arith) in
      (i, x ∷ ys, rw (fill_slot, nz) (rw e' refl), Uses-cons x u)
]

-- A slot that is emptied.
pub spare-set :
    (t m : ℕ) (es : List Entry)
    → (get_or es m no_entry).len ≢ 0
    → spare (set es m (entry 0 0 t)) ≡ suc (spare es)
spare-set t m [] h = absurd (h refl)
spare-set t zero (e ∷ es) h = ground arith
spare-set t (suc m) (e ∷ es) h = ground (arith, spare-set t m es h)

empty_misses : (s t y : ℕ) → meets s t (entry 0 0 y) ≡ false
empty_misses s t y = ground arith

pub meeting-drop-set :
    (s t y m : ℕ) (es : List Entry) (j : ℕ)
    → meeting s t (drop j (set es m (entry 0 0 y))) ≤ meeting s t (drop j es)
meeting-drop-set s t y m [] zero = omega arith
meeting-drop-set s t y m [] (suc j) = omega arith
meeting-drop-set s t y zero (e ∷ es) zero = rw (empty_misses s t y) (omega arith)
meeting-drop-set s t y zero (e ∷ es) (suc j) = omega arith
meeting-drop-set s t y (suc m) (e ∷ es) zero = omega (arith, meeting-drop-set s t y m es 0)
meeting-drop-set s t y (suc m) (e ∷ es) (suc j) = meeting-drop-set s t y m es j

-- The slot `m` and those behind it.
pub meeting-drop :
    (s t : ℕ) (es : List Entry) (m : ℕ)
    → meeting s t (drop m es)
      ≡ (if meets s t (get_or es m no_entry) then 1 else 0) + meeting s t (drop (suc m) es)
meeting-drop s t [] zero = rw (empty_misses s t 0) refl
meeting-drop s t [] (suc m) = rw (empty_misses s t 0) refl
meeting-drop s t (e ∷ es) zero = refl
meeting-drop s t (e ∷ es) (suc m) = meeting-drop s t es m
