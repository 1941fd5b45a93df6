-- ===== src/Stdio/Pieces.antt =====
-- lib/libc/stdio/vfprintf.c: the parts of a format, and what each of them puts.
use trunix.Prelude.{
  ℕ, ◌+◌, ◌%◌, ◌^◌, ◌<◌, ◌≢◌, Bool, true, false, List, [], ◌∷◌, ◌++◌, length, if◌then◌else◌,
}
use trunix.Printk.{read_string}
use trunix.Itoa.{hex, upper}
use trunix.Itoa.Value.{Prints}
use trunix.Stdio.{VArg, int, str, place}

-- A part of a format, with its argument.
pub data Piece : Type 0 where
  plain : ℕ → Piece
  percent : Piece
  letter : ℕ → Piece
  text : List ℕ → Piece
  pointer : ℕ → Piece
  count : ℕ → Piece
  number : ℕ → ℕ → Piece

abbrev pub format : List Piece → List ℕ
format [] = []
format (plain c ∷ ps) = c ∷ format ps
format (percent ∷ ps) = b'%' ∷ b'%' ∷ format ps
format (letter n ∷ ps) = b'%' ∷ b'c' ∷ format ps
format (text t ∷ ps) = b'%' ∷ b's' ∷ format ps
format (pointer n ∷ ps) = b'%' ∷ b'p' ∷ format ps
format (count a ∷ ps) = b'%' ∷ b'n' ∷ format ps
format (number d n ∷ ps) = b'%' ∷ d ∷ format ps

abbrev pub arguments : List Piece → List VArg
arguments [] = []
arguments (plain c ∷ ps) = arguments ps
arguments (percent ∷ ps) = arguments ps
arguments (letter n ∷ ps) = int n ∷ arguments ps
arguments (text t ∷ ps) = str t ∷ arguments ps
arguments (pointer n ∷ ps) = int n ∷ arguments ps
arguments (count a ∷ ps) = place a ∷ arguments ps
arguments (number d n ∷ ps) = int n ∷ arguments ps

-- The character of a conversion of an int, with its base, whether it has a sign, and the case of the
-- letters: those below base 11 need none.
pub data IsNumber : ℕ → ℕ → Bool → Bool → Type 0 where
  lower_hex : IsNumber b'x' 16 false false
  upper_hex : IsNumber b'X' 16 false true
  decimal : {u : Bool} → IsNumber b'd' 10 true u
  integer : {u : Bool} → IsNumber b'i' 10 true u
  unsigned : {u : Bool} → IsNumber b'u' 10 false u
  octal : {u : Bool} → IsNumber b'o' 8 false u
  binary : {u : Bool} → IsNumber b'b' 2 false u

-- One of the conversions of ints.
pub data IsLetter : ℕ → Type 0 where
  is_x : IsLetter b'x'
  is_X : IsLetter b'X'
  is_d : IsLetter b'd'
  is_i : IsLetter b'i'
  is_u : IsLetter b'u'
  is_o : IsLetter b'o'
  is_b : IsLetter b'b'

abbrev pub AllPieces : List Piece → Type 0
AllPieces [] = Unit {0}
AllPieces (plain c ∷ ps) = (c ≢ b'%') × AllPieces ps
AllPieces (percent ∷ ps) = AllPieces ps
AllPieces (letter n ∷ ps) = AllPieces ps
AllPieces (text t ∷ ps) = AllPieces ps
AllPieces (pointer n ∷ ps) = (n < 2 ^ 32) × AllPieces ps
AllPieces (count a ∷ ps) = AllPieces ps
AllPieces (number d n ∷ ps) = IsLetter d × (n < 2 ^ 32) × AllPieces ps

-- The pieces put these bytes and store these counts, behind `k` bytes.
pub data Puts : ℕ → List Piece → List ℕ → List (ℕ × ℕ) → Type 0 where
  nothing : {k : ℕ} → Puts k [] [] []
  itself :
      {k : ℕ} {c : ℕ} {ps : List Piece} {out : List ℕ} {st : List (ℕ × ℕ)}
      → Puts (k + 1) ps out st
      → Puts k (plain c ∷ ps) (c ∷ out) st
  percent_sign :
      {k : ℕ} {ps : List Piece} {out : List ℕ} {st : List (ℕ × ℕ)}
      → Puts (k + 1) ps out st
      → Puts k (percent ∷ ps) (b'%' ∷ out) st
  one_byte :
      {k : ℕ} {n : ℕ} {ps : List Piece} {out : List ℕ} {st : List (ℕ × ℕ)}
      → Puts (k + 1) ps out st
      → Puts k (letter n ∷ ps) (n % 256 ∷ out) st
  whole :
      {k : ℕ} {t : List ℕ} {ps : List Piece} {out : List ℕ} {st : List (ℕ × ℕ)}
      → Puts (k + length t) ps out st
      → Puts k (text t ∷ ps) (t ++ out) st
  address :
      {k : ℕ} {n : ℕ} {ps : List Piece} {out : List ℕ} {st : List (ℕ × ℕ)} {s buf : ℕ → ℕ}
      → Prints hex 16 false n s buf
      → Puts (k + length (b'0' ∷ b'x' ∷ read_string 33 0 buf)) ps out st
      → Puts k (pointer n ∷ ps) (b'0' ∷ b'x' ∷ read_string 33 0 buf ++ out) st
  counted :
      {k : ℕ} {a : ℕ} {ps : List Piece} {out : List ℕ} {st : List (ℕ × ℕ)}
      → Puts (k + 0) ps out st
      → Puts k (count a ∷ ps) out ((a, k) ∷ st)
  printed :
      {k : ℕ} {d b n : ℕ} {negative u : Bool} {ps : List Piece} {out : List ℕ} {st : List (ℕ × ℕ)}
      {s buf : ℕ → ℕ}
      → IsNumber d b negative u
      → Prints (if u then upper else hex) b negative n s buf
      → Puts (k + length (read_string 33 0 buf)) ps out st
      → Puts k (number d n ∷ ps) (read_string 33 0 buf ++ out) st
