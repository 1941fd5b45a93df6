-- ===== src/Printk.antt =====
-- kernel/serial.c: `printk`. What it writes to the serial line is a list of bytes. An argument of the
-- call is an int, as its bit pattern, or a string; `none` stands for undefined behaviour: an argument
-- that is missing or of the other kind, or a conversion that leaves `base` without a value.
pub mod Format
use trunix.Prelude.{
  ℕ, zero, suc, ◌+◌, ◌%◌, Option, none, some, ◌||◌, List, [], ◌∷◌, ◌++◌, ◌==◌, if◌then◌else◌,
}
use trunix.Itoa.{itoa}

pub data Arg : Type 0 where
  int : ℕ → Arg
  str : List ℕ → Arg

-- The bytes at `s` from index `i` on, up to the terminator; the buffer has 33 of them.
unfoldable pub read_string : ℕ → ℕ → (ℕ → ℕ) → List ℕ
read_string zero i s = []
read_string (suc rounds) i s =
    let rest = s i ∷ read_string rounds (i + 1) s in if s i == 0 then [] else rest

-- The base that a conversion selects; `before` is the variable's value.
unfoldable pub base_of : ℕ → Option ℕ → Option ℕ
base_of c before =
    if (c == b'X') || (c == b'x')
    then some 16
    else (if c == b'd'
        then some 10
        else (if c == b'o' then some 8 else (if c == b'b' then some 2 else before)))

-- The conversion `%d`, with what it writes, and the state behind it. The type of the argument of `%c`,
-- `char`, is one that `va_arg` must not be called with.
unfoldable pub conversion :
    ℕ → Option ℕ → List Arg → (ℕ → ℕ) → Option (List ℕ × Option ℕ × (ℕ → ℕ) × List Arg)
conversion d base args s =
    if d == b'%'
    then some (d ∷ [], base, s, args)
    else (if d == b's'
        then elim args [ str t ∷ rest ↦ some (t, base, s, rest) | _ ↦ none ]
        else (if d == b'c' then none else elim (base_of d base) [
          | none ↦ none
          | some b ↦ elim args [
            | int n ∷ rest ↦ some (read_string 33 0 (itoa n b s), some b, itoa n b s, rest)
            | _ ↦ none
          ]
        ]))

abbrev pub prepend : List ℕ → Option (List ℕ) → Option (List ℕ)
prepend out none = none
prepend out (some rest) = some (out ++ rest)

-- From the format on, with the value of `base` and the buffer of `itoa`; `%` at the end stops it.
unfoldable pub printk_from : Option ℕ → (ℕ → ℕ) → List Arg → List ℕ → Option (List ℕ)
printk_from base s args [] = some []
printk_from base s args (c ∷ []) = if c == b'%' then some [] else some (c ∷ [])
printk_from base s args (c ∷ d ∷ fmt) =
    if c == b'%'
    then elim (conversion d base args s) [
      | none ↦ none
      | some (out, base', s', args') ↦ prepend out (printk_from base' s' args' fmt)
    ]
    else prepend (c ∷ []) (printk_from base s args (d ∷ fmt))

unfoldable pub printk : (ℕ → ℕ) → List ℕ → List Arg → Option (List ℕ)
printk s fmt args = printk_from none s args fmt
