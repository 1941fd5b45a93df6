-- ===== src/Fs/Octal.antt =====
-- The octal numbers in the headers of the initial ram disk.
use trunix.Prelude.{
  ℕ, zero, suc, ◌+◌, ◌-◌, ◌*◌, ◌/◌, ◌%◌, ◌^◌, ◌<◌, ◌≤◌, ◌≡◌, refl, inl, inr, List, [], ◌∷◌, get_or,
  arith, ◌==◌, Bool-cases, ap, sym, ◌∙◌, subst,
}
use native.Mathlib.Nat.{div-lt_iff_lt-mul, pow-suc, div-add-mod, mod-lt}
use trunix.Fs.{oct2int_from, oct2int}

-- The `w` octal digits of `n`, as an archiver writes them.
unfoldable pub octal : ℕ → ℕ → List ℕ
octal zero n = []
octal (suc w) n = (b'0' + n / 8 ^ w) ∷ octal w (n % 8 ^ w)

eight_pow_pos : (w : ℕ) → 0 < 8 ^ w
eight_pow_pos zero = omega arith
eight_pow_pos (suc w) = omega (arith, pow-suc 8 w, eight_pow_pos w)

-- One digit, the quotient of `n`, of weight `m`.
digit_step : (acc m n : ℕ) → (acc * 8 + n / m) * m + n % m ≡ acc * (m * 8) + n
digit_step acc m n = grind (arith, div-add-mod n m)

grows : (a m r bound : ℕ) → 0 < m → a * m + r < bound → a < bound
grows a m r bound pos lt = let le : a * 1 ≤ a * m = grind arith in omega arith

quotient-lt : (m n : ℕ) → 0 < m → n < m * 8 → n / m < 8
quotient-lt m n pos lt = (div-lt_iff_lt-mul {k = m} {x = n} {y = 8} pos).1 (omega arith)

-- The code's step, of a digit that is none of 0, and in bounds.
wraps :
    (acc d : ℕ)
    → acc * 8 + d < 2 ^ 31
    → (acc * 8 + (b'0' + d) + (2 ^ 32 - b'0')) % 2 ^ 32 ≡ acc * 8 + d
wraps acc d h = omega arith

read_digit :
    (len acc p d : ℕ) (byte : ℕ → ℕ)
    → byte p ≡ b'0' + d
    → acc * 8 + d < 2 ^ 31
    → oct2int_from (suc len) byte p acc ≡ oct2int_from len byte (p + 1) (acc * 8 + d)
unfolding oct2int_from
read_digit len acc p d byte f h = elim (Bool-cases (b'0' + d == 0)) [
  | inl z ↦ absurd (ground arith)
  | inr nz ↦ rw (oct2int_from, f) (rw (nz, wraps acc d h) refl)
]

oct2int_from-octal :
    (w n acc p : ℕ) (byte : ℕ → ℕ)
    → n < 8 ^ w
    → acc * 8 ^ w + n < 2 ^ 31
    → ((k : ℕ) → k < w → byte (p + k) ≡ get_or (octal w n) k 0)
    → oct2int_from w byte p acc ≡ acc * 8 ^ w + n
unfolding octal oct2int_from
oct2int_from-octal zero n acc p byte lt fits at_p = omega arith
oct2int_from-octal (suc w) n acc p byte lt fits at_p =
    let m = 8 ^ w in
    let d = n / m in
    let e = pow-suc 8 w in
    let pos = eight_pow_pos w in
    let step = digit_step acc m n in
    let total : (acc * 8 + d) * m + n % m < 2 ^ 31 =
      subst (λ v. v < 2 ^ 31) (sym (step ∙ ap (λ v. acc * v + n) (sym e))) fits in
    let small = grows (acc * 8 + d) m (n % m) (2 ^ 31) pos total in
    let first : byte p ≡ b'0' + d =
      subst (λ x. byte x ≡ b'0' + d) {x = p + 0} {y = p} (omega arith) (at_p 0 (omega arith)) in
    let ih =
      oct2int_from-octal w (n % m) (acc * 8 + d) (p + 1) byte (mod-lt n {m = m} pos) total (λ k h.
        subst (λ x. byte x ≡ get_or (octal w (n % m)) k 0) {x = p + suc k} {y = p + 1 + k}
          (omega arith) (at_p (suc k) (omega arith))) in
    read_digit w acc p d byte first small ∙ ih ∙ step ∙ ap (λ v. acc * v + n) (sym e)

-- `oct2int` reads the number that the field's octal digits write, if it is below 2 ^ 31.
pub oct2int-octal :
    (w n p : ℕ) (byte : ℕ → ℕ)
    → n < 8 ^ w
    → n < 2 ^ 31
    → ((k : ℕ) → k < w → byte (p + k) ≡ get_or (octal w n) k 0)
    → oct2int w byte p ≡ n
unfolding oct2int
oct2int-octal w n p byte lt fits at_p =
    omega (arith, oct2int_from-octal w n 0 p byte lt (omega arith) at_p)
