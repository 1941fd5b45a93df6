-- ===== src/Examples/Strings.antt =====
-- Strings, numbers and glyphs at concrete inputs.
use trunix.Prelude.{ℕ, ◌≡◌, ◌↔◌, some, true, false, refl, List, [], ◌∷◌, arith}
use trunix.Prelude.Int.{pos}
use trunix.Text.{strcmp, strlcpy_libc}
use trunix.Text.Compare.{IsText, strcmp_iff}
use trunix.Text.Copy.{copied, strlcpy_libc_lem}
use trunix.Errno.{Errno, number as errno_number}
use trunix.Errno.Message.{strerror}
use trunix.Errno.Described.{described, strerror-described}
use trunix.Itoa.{upper, itoa_libc}
use trunix.Itoa.Value.{Prints, itoa_libc-Prints}
use trunix.Printk.{printk}
use trunix.Printk.Format.{
  Piece, char, percent, string, number, format, arguments, lower_hex, Writes, printk-Writes,
}

abbrev tty : List ℕ
tty = b't' ∷ b't' ∷ b'y' ∷ []

abbrev tts : List ℕ
tts = b't' ∷ b't' ∷ b's' ∷ []

tty-IsText : IsText tty
tty-IsText = omega arith

tts-IsText : IsText tts
tts-IsText = omega arith

strcmp_iff_example : (strcmp tty tts ≡ pos 0) ↔ (tty ≡ tts)
strcmp_iff_example = strcmp_iff tty tts tty-IsText tts-IsText

strlcpy_libc_lem_example :
    ((strlcpy_libc 3 (λ _. 7) tty).0 3 ≡ copied 3 4 tty 3 7) × ((strlcpy_libc 3 (λ _. 7) tty).1 ≡ 3)
strlcpy_libc_lem_example = strlcpy_libc_lem 3 3 (λ _. 7) tty tty-IsText

itoa_libc-Prints_example :
    Prints upper 16 false 48879 (λ _. 7) (itoa_libc 48879 16 false true (λ _. 7))
itoa_libc-Prints_example =
    itoa_libc-Prints 48879 16 false true (λ _. 7) (omega arith) (omega arith) (omega arith)
      (λ e. cc)

-- "a%% %s=%x" and its arguments.
abbrev some_pieces : List Piece
some_pieces = char b'a' ∷ percent ∷ char b' ' ∷ string tty ∷ char b'=' ∷ number b'x' 255 ∷ []

printk-Writes_example :
    (out : List ℕ) × (printk (λ _. 7) (format some_pieces) (arguments some_pieces) ≡ some out)
    × Writes some_pieces out
printk-Writes_example =
    printk-Writes (λ _. 7) some_pieces
      (
        λ e. absurd (omega arith),
        (
          λ e. absurd (omega arith),
          (λ e. absurd (omega arith), ((16, lower_hex), omega arith, tt)),
        ),
      )

strerror-described_example : strerror (errno_number Errno.enoent) ≡ some (described Errno.enoent)
strerror-described_example = strerror-described Errno.enoent refl
