-- ===== src/Stdio.antt =====
-- lib/libc/stdio: the streams, and `vfprintf`. What a stream writes is the list of its calls of
-- `write`, each with its bytes; what `write` returns is not looked at. An argument of `vfprintf` is
-- an int, as its bit pattern, a string, or the address of an int.
pub mod Pieces
pub mod Format
pub mod Order
use trunix.Prelude.{
  ℕ, ◌+◌, ◌%◌, Option, none, some, Bool, true, false, ◌&&◌, ◌||◌, not, List, [], ◌∷◌, ◌++◌, length,
  ltb, leb, ◌==◌, if◌then◌else◌,
}
use trunix.Itoa.{itoa_libc}
use trunix.Printk.{read_string}

-- `pending` is what stands from `_buf` up to `_ptr`, and `size` is `_end - _buf`: behind `_end` the
-- buffer has no more bytes.
pub record Stream : Type 0 where
  pub fd : ℕ
  pub pending : List ℕ
  pub size : ℕ

abbrev pub buf_size : ℕ
buf_size = 1024

abbrev pub stdout : Stream
stdout = record { fd = 1; pending = []; size = buf_size }

abbrev pub stderr : Stream
stderr = record { fd = 2; pending = []; size = 0 }

unfoldable pub fflush : Stream → List (List ℕ) × Stream
fflush s = (s.pending ∷ [], record s { pending = [] })

unfoldable pub overflow : Stream → ℕ → List (List ℕ) × Stream
unfolding fflush
overflow s ch = let (calls, s') = fflush s in (calls ++ (ch % 256 ∷ []) ∷ [], s')

unfoldable pub fputc : ℕ → Stream → List (List ℕ) × Stream
unfolding overflow
fputc c s =
    if not (c == 10) && ltb (length s.pending) s.size
    then ([], record s { pending = s.pending ++ c % 256 ∷ [] })
    else overflow s c

pub data VArg : Type 0 where
  int : ℕ → VArg
  str : List ℕ → VArg
  place : ℕ → VArg

-- The base that a conversion selects, with its sign; `none` while the variable has no value.
pub record Mode : Type 0 where
  pub base : Option (ℕ × Bool)
  pub ucase : Bool

unfoldable pub mode_of : ℕ → Mode → Mode
mode_of d m =
    if d == b'X'
    then record { base = some (16, false); ucase = true }
    else (if d == b'x'
        then record { base = some (16, false); ucase = false }
        else (if d == b'u'
            then record m { base = some (10, false) }
            else (if (d == b'i') || (d == b'd')
                then record m { base = some (10, true) }
                else (if d == b'o'
                    then record m { base = some (8, false) }
                    else (if d == b'b' then record m { base = some (2, false) } else m)))))

-- What a conversion puts in the buffer, what it stores at an address, and the state behind it; `s` is
-- the buffer of `itoa`.
pub record Converted : Type 0 where
  pub text : List ℕ
  pub stores : List (ℕ × ℕ)
  pub mode : Mode
  pub buffer : ℕ → ℕ
  pub args : List VArg

abbrev pub put : List ℕ → Mode → (ℕ → ℕ) → List VArg → Option Converted
put text m s args = some (record { text = text; stores = []; mode = m; buffer = s; args = args })

abbrev pub put_number : ℕ → Option (ℕ × Bool) → Mode → (ℕ → ℕ) → List VArg → Option Converted
put_number n none m s args = none
put_number n (some (b, negative)) m s args =
    let s' = itoa_libc n b negative m.ucase s in put (read_string 33 0 s') m s' args

-- `count` is how many bytes the call has put before. `none`: an argument is missing or of another
-- kind, or `base` has no value.
unfoldable pub convert : ℕ → ℕ → Mode → (ℕ → ℕ) → List VArg → Option Converted
convert d count m s args =
    if d == b'%'
    then put (d ∷ []) m s args
    else (if d == b'c'
        then elim args [ int n ∷ rest ↦ put (n % 256 ∷ []) m s rest | _ ↦ none ]
        else (if d == b'n'
            then elim args [
              | place a ∷ rest ↦ some (record {
                text = [];
                stores = (a, count) ∷ [];
                mode = m;
                buffer = s;
                args = rest;
              })
              | _ ↦ none
            ]
            else (if d == b's'
                then elim args [ str t ∷ rest ↦ put t m s rest | _ ↦ none ]
                else (if d == b'p'
                    then elim args [
                      | int n ∷ rest ↦
                          let s' = itoa_libc n 16 false false s in
                          put (b'0' ∷ b'x' ∷ read_string 33 0 s') m s' rest
                      | _ ↦ none
                    ]
                    else elim args [
                      | int n ∷ rest ↦ put_number n (mode_of d m).base (mode_of d m) s rest
                      | _ ↦ none
                    ]))))

abbrev pub ahead :
    List ℕ → List (ℕ × ℕ) → Option (List ℕ × List (ℕ × ℕ)) → Option (List ℕ × List (ℕ × ℕ))
ahead text stores none = none
ahead text stores (some (out, later)) = some (text ++ out, stores ++ later)

-- The loop on the format, with the bytes put so far: all that it puts, and all that it stores.
unfoldable pub format_from :
    ℕ → Mode → (ℕ → ℕ) → List VArg → List ℕ → Option (List ℕ × List (ℕ × ℕ))
unfolding convert
format_from count m s args [] = some ([], [])
format_from count m s args (c ∷ []) = some (c ∷ [], [])
format_from count m s args (c ∷ d ∷ fmt) =
    if c == b'%'
    then elim (convert d count m s args) [
      | none ↦ none
      | some v ↦
          ahead v.text v.stores (format_from (count + length v.text) v.mode v.buffer v.args fmt)
    ]
    else ahead (c ∷ []) [] (format_from (count + 1) m s args (d ∷ fmt))

-- What the call returns, the ints that it stores, its calls of `write`, and the stream behind it.
pub record Printed : Type 0 where
  pub ret : ℕ
  pub stores : List (ℕ × ℕ)
  pub calls : List (List ℕ)
  pub stream : Stream

-- `ucase` is what the variable holds, which has no value at first; `s` is the buffer of `itoa`. The code
-- does not look at `_end`: `none` stands also for a write past the buffer.
unfoldable pub vfprintf : Bool → (ℕ → ℕ) → Stream → List ℕ → List VArg → Option Printed
unfolding format_from fflush
vfprintf ucase s stream fmt args =
    elim (format_from 0 (record { base = none; ucase = ucase }) s args fmt) [
      | none ↦ none
      | some (out, stores) ↦
          let (calls, stream') = fflush (record stream { pending = stream.pending ++ out }) in
          if leb (length (stream.pending ++ out)) stream.size
          then some (record {
            ret = length (stream.pending ++ out);
            stores = stores;
            calls = calls;
            stream = stream';
          })
          else none
    ]

unfoldable pub printf : Bool → (ℕ → ℕ) → Stream → List ℕ → List VArg → Option Printed
unfolding vfprintf
printf ucase s stdout_now fmt args = vfprintf ucase s stdout_now fmt args

unfoldable pub fprintf : Bool → (ℕ → ℕ) → Stream → List ℕ → List VArg → Option Printed
unfolding vfprintf
fprintf ucase s stream fmt args = vfprintf ucase s stream fmt args
