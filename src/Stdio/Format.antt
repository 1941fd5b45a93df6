-- ===== src/Stdio/Format.antt =====
-- lib/libc/stdio/vfprintf.c: what `vfprintf` writes.
use trunix.Prelude.{
  ℕ, ◌+◌, ◌≤◌, ◌≡◌, ◌≢◌, refl, Option, none, some, Bool, true, false, List, [], ◌∷◌, ◌++◌, ◌==◌,
  length, leb, if◌then◌else◌, arith, ◌∙◌,
}
use trunix.Printk.{read_string}
use trunix.Itoa.{itoa_libc}
use trunix.Itoa.Value.{itoa_libc-Prints}
use trunix.Stdio.{
  Stream, VArg, int, str, place, Mode, mode_of, Converted, convert, ahead, format_from, vfprintf,
  fflush,
}
use trunix.Stdio.Pieces.{
  Piece, plain, percent, letter, text, pointer, count, number, format, arguments, IsNumber,
  lower_hex, upper_hex, decimal, integer, unsigned, octal, binary, IsLetter, is_x, is_X, is_d, is_i,
  is_u, is_o, is_b, AllPieces, Puts, nothing, itself, percent_sign, one_byte, whole, address,
  counted, printed,
}

-- The loop puts what the pieces do.
record Putting (k : ℕ) (ps : List Piece) (o : Option (List ℕ × List (ℕ × ℕ))) : Type 0 where
  out : List ℕ
  stores : List (ℕ × ℕ)
  returned : o ≡ some (out, stores)
  written : Puts k ps out stores

format_from-plain :
    (k : ℕ) (m : Mode) (s : ℕ → ℕ) (args : List VArg) (c : ℕ) (fmt : List ℕ)
    → c ≢ b'%'
    → format_from k m s args (c ∷ fmt) ≡ ahead (c ∷ []) [] (format_from (k + 1) m s args fmt)
unfolding format_from
format_from-plain k m s args c [] ne = refl
format_from-plain k m s args c (d ∷ fmt) ne =
    let e : (c == b'%') ≡ false = ground arith in rw (format_from, e) refl

-- A conversion, by what it puts.
format_from-convert :
    (k : ℕ) (m : Mode) (s : ℕ → ℕ) (args : List VArg) (d : ℕ) (fmt : List ℕ) {v : Converted}
    → convert d k m s args ≡ some v
    → format_from k m s args (b'%' ∷ d ∷ fmt)
      ≡ ahead v.text v.stores (format_from (k + length v.text) v.mode v.buffer v.args fmt)
unfolding format_from
format_from-convert k m s args d fmt e = rw (format_from, e) refl

-- What a conversion of an int selects.
record Selects (d : ℕ) (m : Mode) : Type 0 where
  base : ℕ
  negative : Bool
  is : IsNumber d base negative (mode_of d m).ucase
  selected : (mode_of d m).base ≡ some (base, negative)
  low : 2 ≤ base
  high : base ≤ 16
  signed : negative ≡ true → base ≡ 10

IsLetter-Selects : (d : ℕ) (m : Mode) → IsLetter d → Selects d m
unfolding mode_of
IsLetter-Selects _ m is_x = record {
  base = 16;
  negative = false;
  is = lower_hex;
  selected = refl;
  low = omega arith;
  high = omega arith;
  signed = λ e. cc;
}
IsLetter-Selects _ m is_X = record {
  base = 16;
  negative = false;
  is = upper_hex;
  selected = refl;
  low = omega arith;
  high = omega arith;
  signed = λ e. cc;
}
IsLetter-Selects _ m is_d = record {
  base = 10;
  negative = true;
  is = decimal;
  selected = refl;
  low = omega arith;
  high = omega arith;
  signed = λ e. refl;
}
IsLetter-Selects _ m is_i = record {
  base = 10;
  negative = true;
  is = integer;
  selected = refl;
  low = omega arith;
  high = omega arith;
  signed = λ e. refl;
}
IsLetter-Selects _ m is_u = record {
  base = 10;
  negative = false;
  is = unsigned;
  selected = refl;
  low = omega arith;
  high = omega arith;
  signed = λ e. cc;
}
IsLetter-Selects _ m is_o = record {
  base = 8;
  negative = false;
  is = octal;
  selected = refl;
  low = omega arith;
  high = omega arith;
  signed = λ e. cc;
}
IsLetter-Selects _ m is_b = record {
  base = 2;
  negative = false;
  is = binary;
  selected = refl;
  low = omega arith;
  high = omega arith;
  signed = λ e. cc;
}

-- None of the conversions that are not of ints.
IsLetter-other :
    (d : ℕ)
    → IsLetter d
    → ((d == b'%') ≡ false)
      × ((d == b'c') ≡ false)
      × ((d == b'n') ≡ false)
      × ((d == b's') ≡ false)
      × ((d == b'p') ≡ false)
IsLetter-other _ is_x = (refl, refl, refl, refl, refl)
IsLetter-other _ is_X = (refl, refl, refl, refl, refl)
IsLetter-other _ is_d = (refl, refl, refl, refl, refl)
IsLetter-other _ is_i = (refl, refl, refl, refl, refl)
IsLetter-other _ is_u = (refl, refl, refl, refl, refl)
IsLetter-other _ is_o = (refl, refl, refl, refl, refl)
IsLetter-other _ is_b = (refl, refl, refl, refl, refl)

abbrev number_put : ℕ → ℕ → Bool → Mode → (ℕ → ℕ) → List VArg → Converted
number_put n b negative m s args = record {
  text = read_string 33 0 (itoa_libc n b negative m.ucase s);
  stores = [];
  mode = m;
  buffer = itoa_libc n b negative m.ucase s;
  args = args;
}

convert-number :
    (d k n : ℕ) (m : Mode) (s : ℕ → ℕ) (args : List VArg) {b : ℕ} {negative : Bool}
    → IsLetter d
    → (mode_of d m).base ≡ some (b, negative)
    → convert d k m s (int n ∷ args) ≡ some (number_put n b negative (mode_of d m) s args)
unfolding convert
convert-number d k n m s args l e =
    let (p, c, q, t, a) = IsLetter-other d l in rw (convert, p) (rw (c, q) (rw (t, a) (rw e refl)))

-- A conversion, and then the rest.
convert-Putting :
    (k : ℕ) (m : Mode) (s : ℕ → ℕ) (args : List VArg) (d : ℕ) (fmt : List ℕ) (p : Piece)
    (ps : List Piece) {v : Converted}
    → convert d k m s args ≡ some v
    → Putting (k + length v.text) ps (format_from (k + length v.text) v.mode v.buffer v.args fmt)
    → ((out : List ℕ) (st : List (ℕ × ℕ))
        → Puts (k + length v.text) ps out st
        → Puts k (p ∷ ps) (v.text ++ out) (v.stores ++ st))
    → Putting k (p ∷ ps) (format_from k m s args (b'%' ∷ d ∷ fmt))
convert-Putting k m s args d fmt p ps {v} e w f = record {
  out = v.text ++ w.out;
  stores = v.stores ++ w.stores;
  returned = format_from-convert k m s args d fmt e ∙ rw w.returned refl;
  written = f w.out w.stores w.written;
}

pieces :
    (ps : List Piece) (k : ℕ) (m : Mode) (s : ℕ → ℕ)
    → AllPieces ps
    → Putting k ps (format_from k m s (arguments ps) (format ps))
unfolding format_from convert
pieces [] k m s a = record { out = []; stores = []; returned = refl; written = nothing }
pieces (plain c ∷ ps) k m s a =
    let w = pieces ps (k + 1) m s a.1 in
    record {
      out = c ∷ w.out;
      stores = w.stores;
      returned = format_from-plain k m s (arguments ps) c (format ps) a.0 ∙ rw w.returned refl;
      written = itself w.written;
    }
pieces (percent ∷ ps) k m s a =
    convert-Putting k m s (arguments ps) b'%' (format ps) percent ps refl (pieces ps (k + 1) m s a)
      (λ out st w. percent_sign w)
pieces (letter n ∷ ps) k m s a =
    convert-Putting k m s (int n ∷ arguments ps) b'c' (format ps) (letter n) ps refl
      (pieces ps (k + 1) m s a) (λ out st w. one_byte w)
pieces (text t ∷ ps) k m s a =
    convert-Putting k m s (str t ∷ arguments ps) b's' (format ps) (text t) ps refl
      (pieces ps (k + length t) m s a) (λ out st w. whole w)
pieces (pointer n ∷ ps) k m s a =
    let s' = itoa_libc n 16 false false s in
    convert-Putting k m s (int n ∷ arguments ps) b'p' (format ps) (pointer n) ps refl
      (pieces ps (k + length (b'0' ∷ b'x' ∷ read_string 33 0 s')) m s' a.1)
      (λ out st w.
        address (itoa_libc-Prints n 16 false false s a.0 (omega arith) (omega arith) (λ e. cc)) w)
pieces (count c ∷ ps) k m s a =
    convert-Putting k m s (place c ∷ arguments ps) b'n' (format ps) (count c) ps refl
      (pieces ps (k + 0) m s a) (λ out st w. counted w)
pieces (number d n ∷ ps) k m s a =
    let (l, lt, rest) = a in
    let sel = IsLetter-Selects d m l in
    let m' = mode_of d m in
    let s' = itoa_libc n sel.base sel.negative m'.ucase s in
    convert-Putting k m s (int n ∷ arguments ps) d (format ps) (number d n) ps
      (convert-number d k n m s (arguments ps) l sel.selected)
      (pieces ps (k + length (read_string 33 0 s')) m' s' rest)
      (λ out st w.
        printed sel.is
          (itoa_libc-Prints n sel.base sel.negative m'.ucase s lt sel.low sel.high sel.signed) w)

-- Of a format of plain characters and of conversions that the code knows, with the arguments that
-- these ask for, `vfprintf` stores for each `%n` what the call has put before it, and gives what
-- the pieces put, behind what the stream still held, to one call of `write`; it returns the length
-- of both, and leaves the stream empty. If both do not fit in the stream's buffer, it writes past
-- the buffer.
pub vfprintf-Puts :
    (ucase : Bool) (s : ℕ → ℕ) (stream : Stream) (ps : List Piece)
    → AllPieces ps
    → (out : List ℕ) × (st : List (ℕ × ℕ)) × Puts 0 ps out st
      × (vfprintf ucase s stream (format ps) (arguments ps) ≡ (
          if leb (length (stream.pending ++ out)) stream.size
          then some (record {
            ret = length (stream.pending ++ out);
            stores = st;
            calls = (stream.pending ++ out) ∷ [];
            stream = record stream { pending = [] };
          })
          else none))
unfolding vfprintf fflush
vfprintf-Puts ucase s stream ps a =
    let w = pieces ps 0 (record { base = none; ucase = ucase }) s a in
    (w.out, w.stores, w.written, rw (vfprintf, w.returned) refl)
