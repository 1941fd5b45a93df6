-- ===== src/Itoa/Emit.antt =====
-- The digits that the loop of `itoa` writes.
use trunix.Prelude.{
  ℕ, zero, suc, ◌+◌, ◌*◌, ◌/◌, ◌%◌, ◌^◌, ◌<◌, ◌≤◌, ◌≡◌, ◌≢◌, refl, inl, inr, List, [], ◌∷◌, ◌==◌,
  if◌then◌else◌, get_or, length, arith, Bool-cases, ap, ◌∙◌, sym,
}
use native.Mathlib.Nat.{div-lt_iff_lt-mul, pow-suc, pow-zero, div-add-mod, mod-lt}
use trunix.Text.{store}
use trunix.Itoa.{emit}

-- The digits of `un`, the last one first.
pub digits_of : ℕ → ℕ → ℕ → List ℕ
digits_of zero base un = []
digits_of (suc rounds) base un =
    let rest = digits_of rounds base (un / base) in if un == 0 then [] else un % base ∷ rest

abbrev pub value : ℕ → List ℕ → ℕ
value base [] = 0
value base (d ∷ ds) = d + base * value base ds

abbrev pub AllDigits : ℕ → List ℕ → Type 0
AllDigits base [] = Unit {0}
AllDigits base (d ∷ ds) = (d < base) × AllDigits base ds

-- The most significant digit is not 0.
abbrev pub NoLeadingZero : List ℕ → Type 0
NoLeadingZero [] = Unit {0}
NoLeadingZero (d ∷ []) = d ≢ 0
NoLeadingZero (d ∷ e ∷ ds) = NoLeadingZero (e ∷ ds)

quotient_lt : (r b base un : ℕ) → 0 < b → b ≤ base → un < b ^ suc r → un / base < b ^ r
quotient_lt r b base un pos h lt =
    let e = pow-suc b r in
    let le : b ^ r * b ≤ b ^ r * base = grind arith in
    (div-lt_iff_lt-mul {k = base} {x = un} {y = b ^ r} (omega arith)).1 (omega arith)

-- The digits stand for the number, if the rounds are enough.
pub value-digits_of :
    (r base un : ℕ) → 2 ≤ base → un < 2 ^ r → value base (digits_of r base un) ≡ un
unfolding digits_of
value-digits_of zero base un h lt = ground arith
value-digits_of (suc r) base un h lt = elim (Bool-cases (un == 0)) [
  | inl z ↦ rw z (ground arith)
  | inr nz ↦ rw nz (
      omega (
        arith,
        ap (λ (v : ℕ). base * v)
            (value-digits_of r base (un / base) h (quotient_lt r 2 base un (omega arith) h lt)),
        div-add-mod un base,
      ))
]

pub digits_of-AllDigits : (r base un : ℕ) → 0 < base → AllDigits base (digits_of r base un)
unfolding digits_of
digits_of-AllDigits zero base un h = tt
digits_of-AllDigits (suc r) base un h =
    ground (arith, digits_of-AllDigits r base (un / base) h, mod-lt un {m = base} h)

-- A number below `b ^ k` has at most `k` digits in a base from `b` on.
pub length-digits_of :
    (r b k base un : ℕ) → 0 < b → b ≤ base → un < b ^ k → length (digits_of r base un) ≤ k
unfolding digits_of
length-digits_of zero b k base un pos h lt = omega arith
length-digits_of (suc r) b zero base un pos h lt =
    let z : un ≡ 0 = omega (arith, pow-zero b) in ground arith
length-digits_of (suc r) b (suc k) base un pos h lt =
    ground (arith, length-digits_of r b k base (un / base) pos h (quotient_lt k b base un pos h lt))

quotient_pos : (un base : ℕ) → 0 < base → un / base ≡ 0 → un % base ≡ un
quotient_pos un base h z = omega (arith, div-add-mod un base, ap (λ (v : ℕ). base * v) z)

NoLeadingZero-cons :
    (d : ℕ) (ds : List ℕ) → NoLeadingZero ds → (ds ≡ [] → d ≢ 0) → NoLeadingZero (d ∷ ds)
NoLeadingZero-cons d [] h ne = ne refl
NoLeadingZero-cons d (e ∷ ds) h ne = h

pub digits_of-NoLeadingZero :
    (r base un : ℕ) → 2 ≤ base → un < 2 ^ r → NoLeadingZero (digits_of r base un)
unfolding digits_of
digits_of-NoLeadingZero zero base un h lt = tt
digits_of-NoLeadingZero (suc r) base un h lt = elim (Bool-cases (un == 0)) [
  | inl z ↦ rw z tt
  | inr nz ↦
      let small = quotient_lt r 2 base un (omega arith) h lt in
      let q = un / base in
      rw nz (
        NoLeadingZero-cons (un % base) (digits_of r base q)
          (digits_of-NoLeadingZero r base q h small)
          λ e.
            let z : q ≡ 0 = sym (value-digits_of r base q h small) ∙ ap (value base) e in
            ground (arith, quotient_pos un base (omega arith) z))
]

-- What the loop leaves behind.
pub record Emitted (digits : List ℕ) (ds : List ℕ) (i : ℕ) (s : ℕ → ℕ) (out : (ℕ → ℕ) × ℕ)
    : Type 0 where
  pub end : out.1 ≡ i + length ds
  pub below : (j : ℕ) → j < i → out.0 j ≡ s j
  pub written : (k : ℕ) → k < length ds → out.0 (i + k) ≡ get_or digits (get_or ds k 0) 0

-- One more digit in front.
Emitted-cons :
    (digits : List ℕ) (d : ℕ) (ds : List ℕ) (i : ℕ) (s : ℕ → ℕ) (out : (ℕ → ℕ) × ℕ)
    → Emitted digits ds (i + 1) (store s i (get_or digits d 0)) out
    → Emitted digits (d ∷ ds) i s out
Emitted-cons digits d ds i s out ih = record {
  end = omega (arith, ih.end);
  below = λ j h. ground (arith, ih.below j);
  written = written;
}
  where
    written : (k : ℕ) → k < suc (length ds) → out.0 (i + k) ≡ get_or digits (get_or (d ∷ ds) k 0) 0
    written zero h = ground (arith, ih.below (i + 0))
    written (suc k) h =
        let e : i + suc k ≡ i + 1 + k = omega arith in rw e (ih.written k (omega arith))

pub emit-Emitted :
    (r base i un : ℕ) (digits : List ℕ) (s : ℕ → ℕ)
    → Emitted digits (digits_of r base un) i s (emit r digits base i un s)
unfolding emit digits_of
emit-Emitted zero base i un digits s = record {
  end = omega arith;
  below = λ j h. refl;
  written = λ k h. absurd (omega arith);
}
emit-Emitted (suc r) base i un digits s = elim (Bool-cases (un == 0)) [
  | inl z ↦
      rw (z, emit)
        (record { end = omega arith; below = λ j h. refl; written = λ k h. absurd (omega arith) })
  | inr nz ↦
      let ih =
        emit-Emitted r base (i + 1) (un / base) digits (store s i (get_or digits (un % base) 0)) in
      rw (nz, emit) (Emitted-cons digits (un % base) (digits_of r base (un / base)) i s _ ih)
]
