-- ===== src/Itoa.antt =====
-- kernel/serial.c and lib/libc/stdio/vfprintf.c: `itoa`, which prints a number to a buffer of 33
-- bytes. The buffer is a function of the index; an `int` is its bit pattern, a number below 2 ^ 32.
pub mod Emit
pub mod Reverse
pub mod Value
use trunix.Prelude.{
  ℕ, zero, suc, ◌+◌, ◌-◌, ◌/◌, ◌%◌, ◌^◌, Bool, ◌&&◌, List, [], ◌∷◌, ltb, leb, ◌==◌, if◌then◌else◌,
  get_or,
}
use trunix.Text.{store}

abbrev pub hex : List ℕ
hex =
    b'0' ∷ b'1' ∷ b'2' ∷ b'3' ∷ b'4' ∷ b'5' ∷ b'6' ∷ b'7' ∷ b'8' ∷ b'9' ∷ b'a' ∷ b'b' ∷ b'c' ∷ b'd'
    ∷ b'e' ∷ b'f' ∷ []

abbrev pub upper : List ℕ
upper =
    b'0' ∷ b'1' ∷ b'2' ∷ b'3' ∷ b'4' ∷ b'5' ∷ b'6' ∷ b'7' ∷ b'8' ∷ b'9' ∷ b'A' ∷ b'B' ∷ b'C' ∷ b'D'
    ∷ b'E' ∷ b'F' ∷ []

-- The loop on `un`, with the rounds left: the buffer and the index `i` at its end.
unfoldable pub emit : ℕ → List ℕ → ℕ → ℕ → ℕ → (ℕ → ℕ) → (ℕ → ℕ) × ℕ
emit zero digits base i un s = (s, i)
emit (suc rounds) digits base i un s =
    let rest =
      emit rounds digits base (i + 1) (un / base) (store s i (get_or digits (un % base) 0)) in
    if un == 0 then (s, i) else rest

-- The loop that turns the digits round, with the rounds left.
unfoldable pub turn : ℕ → ℕ → ℕ → (ℕ → ℕ) → ℕ → ℕ
turn zero j i s = s
turn (suc rounds) j i s =
    let rest = turn rounds (j + 1) (i - 1) (store (store s i (s j)) j (s i)) in
    if ltb j i then rest else s

-- An u32 has at most 32 digits.
abbrev pub max_digits : ℕ
max_digits = 32

-- The part behind the sign: `j` is 1 if there is one, else 0.
unfoldable pub print_digits : List ℕ → ℕ → ℕ → ℕ → (ℕ → ℕ) → ℕ → ℕ
unfolding emit turn
print_digits digits base j un s =
    let (s', i) = emit max_digits digits base j un s in turn i j (i - 1) (store s' i 0)

-- What the code leaves in `s`, which is static; `s` is what was in it before. The code negates an
-- int: of the least one, -2 ^ 31, this overflows, which the model takes to wrap around, as the
-- processor does.
unfoldable pub print_signed : List ℕ → ℕ → Bool → ℕ → (ℕ → ℕ) → ℕ → ℕ
print_signed digits base sign n s =
    if n == 0
    then store (store s 0 b'0') 1 0
    else (if sign && leb (2 ^ 31) n
        then print_digits digits base 1 (2 ^ 32 - n) (store s 0 b'-')
        else print_digits digits base 0 n s)

-- kernel/serial.c.
unfoldable pub itoa : ℕ → ℕ → (ℕ → ℕ) → ℕ → ℕ
unfolding print_signed
itoa n base = print_signed hex base (base == 10) n

-- lib/libc/stdio/vfprintf.c: the sign is asked for by a negative base.
unfoldable pub itoa_libc : ℕ → ℕ → Bool → Bool → (ℕ → ℕ) → ℕ → ℕ
unfolding print_signed
itoa_libc n base negative ucase = print_signed (if ucase then upper else hex) base negative n
