-- ===== src/Itoa/Value.antt =====
-- What `itoa` prints is the number.
use trunix.Prelude.{
  ℕ, suc, ◌+◌, ◌-◌, ◌^◌, ◌<◌, ◌≤◌, ◌≡◌, ◌≢◌, refl, inl, inr, Bool, true, false, ◌&&◌, List, [], ◌∷◌,
  leb, ◌==◌, if◌then◌else◌, get_or, length, arith, Bool-cases, &&_true, sym,
}
use trunix.Text.{store}
use trunix.Itoa.{hex, turn, max_digits, print_digits, print_signed, itoa, itoa_libc, upper}
use trunix.Itoa.Emit.{
  digits_of, value, AllDigits, NoLeadingZero, value-digits_of, digits_of-AllDigits,
  length-digits_of, digits_of-NoLeadingZero, Emitted, emit-Emitted,
}
use trunix.Itoa.Reverse.{turn_lem}

-- The digits of `un`, the most significant one first, and the terminator stand in the buffer `out`
-- from index `j` on; `ds` holds the digits the other way round. Below `j` it is the buffer `s`.
pub record Printed (digits : List ℕ) (base j un : ℕ) (s out : ℕ → ℕ) : Type 0 where
  pub ds : List ℕ
  pub number : value base ds ≡ un
  pub small : AllDigits base ds
  pub leading : NoLeadingZero ds
  pub not_empty : 0 < length ds
  pub chars :
      (k : ℕ) → k < length ds → out (j + (length ds - suc k)) ≡ get_or digits (get_or ds k 0) 0
  pub terminated : out (j + length ds) ≡ 0
  pub before : (x : ℕ) → x < j → out x ≡ s x
  pub fits : j + length ds ≤ 32

-- The digits that `emit` has left, turned round.
record Turned (digits ds : List ℕ) (j : ℕ) (s out : ℕ → ℕ) : Type 0 where
  chars : (k : ℕ) → k < length ds → out (j + (length ds - suc k)) ≡ get_or digits (get_or ds k 0) 0
  terminated : out (j + length ds) ≡ 0
  before : (x : ℕ) → x < j → out x ≡ s x

turn-Turned :
    (digits ds : List ℕ) (j : ℕ) (s b : ℕ → ℕ) (i : ℕ)
    → 0 < length ds
    → Emitted digits ds j s (b, i)
    → Turned digits ds j s (turn i j (i - 1) (store b i 0))
turn-Turned digits ds j s b i ne w =
    let n = length ds in
    let e : i ≡ j + n = w.end in
    let out = λ (x : ℕ). turn_lem i j (i - 1) (store b i 0) x (omega arith) in
    record {
      chars = λ k h.
          let x = j + (n - suc k) in
          let back : j + (i - 1) - x ≡ j + k = omega arith in
          ground (arith, rw back at (out x), w.written k h);
      terminated = ground (arith, out (j + n));
      before = λ x h. ground (arith, out x, w.below x h);
    }

positive : (base un : ℕ) (ds : List ℕ) → value base ds ≡ un → un ≢ 0 → 0 < length ds
positive base un [] e nz = absurd (nz (sym e))
positive base un (d ∷ ds) e nz = omega arith

print_digits-Printed :
    (digits : List ℕ) (base j un b m : ℕ) (s : ℕ → ℕ)
    → 2 ≤ base
    → un < 2 ^ 32
    → un ≢ 0
    → 0 < b
    → b ≤ base
    → un < b ^ m
    → j + m ≤ 32
    → Printed digits base j un s (print_digits digits base j un s)
unfolding print_digits
print_digits-Printed digits base j un b m s h lt nz pos le fit room =
    let ds = digits_of max_digits base un in
    let num = value-digits_of max_digits base un h lt in
    let ne = positive base un ds num nz in
    let t = turn-Turned digits ds j s _ _ ne (emit-Emitted max_digits base j un digits s) in
    record {
      ds = ds;
      number = num;
      small = digits_of-AllDigits max_digits base un (omega arith);
      leading = digits_of-NoLeadingZero max_digits base un h lt;
      not_empty = ne;
      chars = t.chars;
      terminated = t.terminated;
      before = t.before;
      fits = omega (arith, length-digits_of max_digits b m base un pos le fit);
    }

-- What `itoa` leaves in the buffer, which held `s`: the sign, and the magnitude behind it.
pub data Prints (digits : List ℕ) (base : ℕ) (sign : Bool) (n : ℕ) (s out : ℕ → ℕ) : Type 0 where
  zero_digit : n ≡ 0 → out 0 ≡ b'0' → out 1 ≡ 0 → Prints digits base sign n s out
  minus :
      sign ≡ true
      → 2 ^ 31 ≤ n
      → out 0 ≡ b'-'
      → Printed digits base 1 (2 ^ 32 - n) (store s 0 b'-') out
      → Prints digits base sign n s out
  plus :
      0 < n
      → (sign ≡ true → n < 2 ^ 31)
      → Printed digits base 0 n s out
      → Prints digits base sign n s out

leb→le : (a b : ℕ) → leb a b ≡ true → a ≤ b
leb→le a b e = ground arith

not_zero : (n : ℕ) → (n == 0) ≡ false → n ≢ 0
not_zero n e z = ground arith

unsigned : (sign : Bool) (n : ℕ) → (sign && leb (2 ^ 31) n) ≡ false → sign ≡ true → n < 2 ^ 31
unsigned sign n f e = ground arith

-- With a sign there are digits enough from base 8 on.
print_signed-Prints :
    (digits : List ℕ) (base n : ℕ) (sign : Bool) (s : ℕ → ℕ)
    → 2 ≤ base
    → (sign ≡ true → 8 ≤ base)
    → n < 2 ^ 32
    → Prints digits base sign n s (print_signed digits base sign n s)
unfolding print_signed
print_signed-Prints digits base n sign s h big lt = elim (Bool-cases (n == 0)) [
  | inl z ↦ rw (z, print_signed) (zero_digit (ground arith) refl refl)
  | inr z' ↦
      let nz = not_zero n z' in
      elim (Bool-cases (sign && leb (2 ^ 31) n)) [
        | inl t ↦
            let (ts, tn) = &&_true sign (leb (2 ^ 31) n) t in
            let ge = leb→le (2 ^ 31) n tn in
            let p =
              print_digits-Printed digits base 1 (2 ^ 32 - n) 8 11 (store s 0 b'-') h (omega arith)
                (λ e. omega arith) (omega arith) (big ts) (omega arith) (omega arith) in
            rw (z', t, print_signed) (minus ts ge (p.before 0 (omega arith)) p)
        | inr f ↦
            let p =
              print_digits-Printed digits base 0 n 2 32 s h lt nz (omega arith) h lt
                (omega arith) in
            rw (z', f, print_signed) (plus (omega arith) (unsigned sign n f) p)
      ]
]

-- The kernel's `itoa` prints the int `n` in a base from 2 to 16: "0", or the digits of the number
-- with no leading zero, most significant first and terminated, within the 33 bytes of the buffer; in
-- base 10 a negative one as a minus sign and its magnitude, in any other base as an unsigned number.
pub itoa-Prints :
    (n base : ℕ) (s : ℕ → ℕ)
    → n < 2 ^ 32
    → 2 ≤ base
    → base ≤ 16
    → Prints hex base (base == 10) n s (itoa n base s)
unfolding itoa
itoa-Prints n base s lt h h' =
    print_signed-Prints hex base n (base == 10) s h (λ e. ground arith) lt

-- The C library's `itoa` does so for the base's magnitude and for either case of letters, and takes
-- the number for a signed one if the base is negative, which it is for base 10 only.
pub itoa_libc-Prints :
    (n base : ℕ) (negative ucase : Bool) (s : ℕ → ℕ)
    → n < 2 ^ 32
    → 2 ≤ base
    → base ≤ 16
    → (negative ≡ true → base ≡ 10)
    → Prints (if ucase then upper else hex) base negative n s (itoa_libc n base negative ucase s)
unfolding itoa_libc
itoa_libc-Prints n base negative ucase s lt h h' ten =
    print_signed-Prints (if ucase then upper else hex) base n negative s h
      (λ e. omega (arith, ten e)) lt
