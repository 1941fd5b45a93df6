-- ===== src/Examples/Streams.antt =====
-- The streams of the C library at concrete inputs.
use trunix.Prelude.{
  ℕ, ◌≡◌, none, some, true, List, [], ◌∷◌, ◌++◌, length, leb, if◌then◌else◌, arith,
}
use trunix.Stdio.{Stream, stdout, vfprintf}
use trunix.Stdio.Pieces.{Piece, plain, percent, text, number, count, format, arguments, is_x, Puts}
use trunix.Stdio.Format.{vfprintf-Puts}
use trunix.Stdio.Order.{Ordered, bytes_of, put_all, put_all-Ordered}

abbrev held : Stream
held = record stdout { pending = b'a' ∷ b'b' ∷ [] }

abbrev some_pieces : List Piece
some_pieces =
    plain b'n' ∷ percent ∷ count 0x1000 ∷ text (b'o' ∷ b'k' ∷ []) ∷ number b'x' 0xdead_beef ∷ []

vfprintf-Puts_example :
    (out : List ℕ) × (st : List (ℕ × ℕ)) × Puts 0 some_pieces out st
    × (vfprintf true (λ _. 7) held (format some_pieces) (arguments some_pieces) ≡ (
        if leb (length (held.pending ++ out)) held.size
        then some (record {
          ret = length (held.pending ++ out);
          stores = st;
          calls = (held.pending ++ out) ∷ [];
          stream = record held { pending = [] };
        })
        else none))
vfprintf-Puts_example =
    vfprintf-Puts true (λ _. 7) held some_pieces ((λ e. omega arith), (is_x, omega arith, tt))

put_all-Ordered_example :
    Ordered
      (bytes_of (b'h' ∷ b'i' ∷ 10 ∷ b'!' ∷ []))
      held
      (put_all (b'h' ∷ b'i' ∷ 10 ∷ b'!' ∷ []) held).0
      (put_all (b'h' ∷ b'i' ∷ 10 ∷ b'!' ∷ []) held).1
put_all-Ordered_example = put_all-Ordered (b'h' ∷ b'i' ∷ 10 ∷ b'!' ∷ []) held (omega arith)
