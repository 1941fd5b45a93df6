-- ===== src/Printk/Format.antt =====
-- What `printk` writes.
use trunix.Prelude.{
  ℕ, ◌^◌, ◌<◌, ◌≤◌, ◌≡◌, ◌≢◌, refl, Option, none, some, false, List, [], ◌∷◌, ◌++◌, ◌==◌, arith,
}
use trunix.Printk.{Arg, int, str, read_string, base_of, conversion, prepend, printk_from, printk}
use trunix.Itoa.{itoa, hex}
use trunix.Itoa.Value.{Prints, itoa-Prints}

-- A part of a format, with its argument: a character, `%%`, `%s`, or an int with its conversion.
pub data Piece : Type 0 where
  char : ℕ → Piece
  percent : Piece
  string : List ℕ → Piece
  number : ℕ → ℕ → Piece

abbrev pub format : List Piece → List ℕ
format [] = []
format (char c ∷ ps) = c ∷ format ps
format (percent ∷ ps) = b'%' ∷ b'%' ∷ format ps
format (string t ∷ ps) = b'%' ∷ b's' ∷ format ps
format (number d n ∷ ps) = b'%' ∷ d ∷ format ps

abbrev pub arguments : List Piece → List Arg
arguments [] = []
arguments (char c ∷ ps) = arguments ps
arguments (percent ∷ ps) = arguments ps
arguments (string t ∷ ps) = str t ∷ arguments ps
arguments (number d n ∷ ps) = int n ∷ arguments ps

-- The character of a conversion, with its base.
pub data IsBase : ℕ → ℕ → Type 0 where
  lower_hex : IsBase b'x' 16
  upper_hex : IsBase b'X' 16
  decimal : IsBase b'd' 10
  octal : IsBase b'o' 8
  binary : IsBase b'b' 2

abbrev pub AllPieces : List Piece → Type 0
AllPieces [] = Unit {0}
AllPieces (char c ∷ ps) = (c ≢ b'%') × AllPieces ps
AllPieces (percent ∷ ps) = AllPieces ps
AllPieces (string t ∷ ps) = AllPieces ps
AllPieces (number d n ∷ ps) = ((b : ℕ) × IsBase d b) × (n < 2 ^ 32) × AllPieces ps

-- What each piece writes: an int is what `itoa` prints in the base of its conversion.
pub data Writes : List Piece → List ℕ → Type 0 where
  done : Writes [] []
  char_itself :
      {c : ℕ} {ps : List Piece} {out : List ℕ} → Writes ps out → Writes (char c ∷ ps) (c ∷ out)
  percent_sign :
      {ps : List Piece} {out : List ℕ} → Writes ps out → Writes (percent ∷ ps) (b'%' ∷ out)
  whole_string :
      {t : List ℕ} {ps : List Piece} {out : List ℕ}
      → Writes ps out
      → Writes (string t ∷ ps) (t ++ out)
  printed :
      {d b n : ℕ} {ps : List Piece} {out : List ℕ} {s buf : ℕ → ℕ}
      → IsBase d b
      → Prints hex b (b == 10) n s buf
      → Writes ps out
      → Writes (number d n ∷ ps) (read_string 33 0 buf ++ out)

-- The call writes what the pieces do.
record Writing (ps : List Piece) (o : Option (List ℕ)) : Type 0 where
  out : List ℕ
  returned : o ≡ some out
  written : Writes ps out

printk_from-char :
    (base : Option ℕ) (s : ℕ → ℕ) (args : List Arg) (c : ℕ) (fmt : List ℕ)
    → c ≢ b'%'
    → printk_from base s args (c ∷ fmt) ≡ prepend (c ∷ []) (printk_from base s args fmt)
unfolding printk_from
printk_from-char base s args c [] ne = ground arith
printk_from-char base s args c (d ∷ fmt) ne = ground arith

IsBase-base_of : {d b : ℕ} (base : Option ℕ) → IsBase d b → base_of d base ≡ some b
unfolding base_of
IsBase-base_of base lower_hex = refl
IsBase-base_of base upper_hex = refl
IsBase-base_of base decimal = refl
IsBase-base_of base octal = refl
IsBase-base_of base binary = refl

IsBase-range : {d b : ℕ} → IsBase d b → (2 ≤ b) × (b ≤ 16) × (d ≢ b'%') × (d ≢ b's') × (d ≢ b'c')
IsBase-range lower_hex = omega arith
IsBase-range upper_hex = omega arith
IsBase-range decimal = omega arith
IsBase-range octal = omega arith
IsBase-range binary = omega arith

conversion-number :
    {d b : ℕ} (base : Option ℕ) (n : ℕ) (args : List Arg) (s : ℕ → ℕ)
    → IsBase d b
    → conversion d base (int n ∷ args) s
      ≡ some (read_string 33 0 (itoa n b s), some b, itoa n b s, args)
unfolding conversion
conversion-number {d} {b} base n args s h =
    let (lo, hi, x, y, z) = IsBase-range h in
    let e = IsBase-base_of base h in
    let x' : (d == b'%') ≡ false = ground arith in
    let y' : (d == b's') ≡ false = ground arith in
    let z' : (d == b'c') ≡ false = ground arith in rw (conversion, x') (rw (y', z') (rw e refl))

conversion-percent :
    (base : Option ℕ) (args : List Arg) (s : ℕ → ℕ)
    → conversion b'%' base args s ≡ some (b'%' ∷ [], base, s, args)
unfolding conversion
conversion-percent base args s = refl

conversion-string :
    (base : Option ℕ) (t : List ℕ) (args : List Arg) (s : ℕ → ℕ)
    → conversion b's' base (str t ∷ args) s ≡ some (t, base, s, args)
unfolding conversion
conversion-string base t args s = refl

pieces :
    (ps : List Piece) (base : Option ℕ) (s : ℕ → ℕ)
    → AllPieces ps
    → Writing ps (printk_from base s (arguments ps) (format ps))
unfolding printk_from
pieces [] base s a = record { out = []; returned = refl; written = done }
pieces (char c ∷ ps) base s a =
    let w = pieces ps base s a.1 in
    record {
      out = c ∷ w.out;
      returned = rw (printk_from-char base s (arguments ps) c (format ps) a.0) (rw w.returned refl);
      written = char_itself w.written;
    }
pieces (percent ∷ ps) base s a =
    let w = pieces ps base s a in
    record {
      out = b'%' ∷ w.out;
      returned = rw (printk_from, conversion-percent base (arguments ps) s) (rw w.returned refl);
      written = percent_sign w.written;
    }
pieces (string t ∷ ps) base s a =
    let w = pieces ps base s a in
    record {
      out = t ++ w.out;
      returned = rw (printk_from, conversion-string base t (arguments ps) s) (rw w.returned refl);
      written = whole_string w.written;
    }
pieces (number d n ∷ ps) base s a =
    let ((b, h), lt, rest) = a in
    let (lo, hi, x, y, z) = IsBase-range h in
    let w = pieces ps (some b) (itoa n b s) rest in
    record {
      out = read_string 33 0 (itoa n b s) ++ w.out;
      returned = rw (printk_from, conversion-number base n (arguments ps) s h) (rw w.returned refl);
      written = printed h (itoa-Prints n b s lt lo hi) w.written;
    }

-- Of a format that is made of plain characters, `%%`, `%s`, and ints with a conversion that the code
-- knows, with the arguments that these ask for, `printk` writes the characters, the strings, and what
-- `itoa` prints of the ints, in order.
pub printk-Writes :
    (s : ℕ → ℕ) (ps : List Piece)
    → AllPieces ps
    → (out : List ℕ) × (printk s (format ps) (arguments ps) ≡ some out) × Writes ps out
unfolding printk
printk-Writes s ps a = let w = pieces ps none s a in (w.out, w.returned, w.written)
