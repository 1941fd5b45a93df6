-- ===== src/Text.antt =====
-- kernel/string.c, and the copy of it in lib/libc/string (one file a function there; only `strlcpy`
-- differs). A string in memory is the list of the bytes from its address on; where the list ends
-- stands the terminator. A destination is the memory from its address on, as a function.
pub mod Compare
pub mod Copy
use trunix.Prelude.{
  ℕ, zero, suc, ◌+◌, ◌-◌, ◌||◌, Option, none, some, List, [], ◌∷◌, ltb, ◌==◌, if◌then◌else◌, min,
}
use trunix.Prelude.Int.{ℤ, pos, negsuc, ◌-ℤ◌}

-- A byte read as a (signed) `char`.
abbrev pub schar : ℕ → ℤ
schar c = if ltb c 128 then pos c else negsuc (255 - c)

-- The difference of two bytes, read as `char` and as `unsigned char`.
unfoldable pub char_diff : ℕ → ℕ → ℤ
unfolding ◌-ℤ◌
char_diff x y = schar x -ℤ schar y

unfoldable pub byte_diff : ℕ → ℕ → ℤ
unfolding ◌-ℤ◌
byte_diff x y = pos x -ℤ pos y

-- `none`: a read past the end of a buffer, which is shorter than `n` and has no difference before.
unfoldable pub memcmp : ℕ → List ℕ → List ℕ → Option ℤ
unfolding byte_diff
memcmp zero xs ys = some (pos 0)
memcmp (suc n) [] ys = none
memcmp (suc n) (x ∷ xs) [] = none
memcmp (suc n) (x ∷ xs) (y ∷ ys) = if x == y then memcmp n xs ys else some (byte_diff x y)

unfoldable pub strcmp : List ℕ → List ℕ → ℤ
unfolding char_diff
strcmp [] [] = char_diff 0 0
strcmp [] (y ∷ ys) = char_diff 0 y
strcmp (x ∷ xs) [] = char_diff x 0
strcmp (x ∷ xs) (y ∷ ys) =
    if (x == 0) || (y == 0) then char_diff x y else (if x == y then strcmp xs ys else char_diff x y)

unfoldable pub strlen : List ℕ → ℕ
strlen [] = 0
strlen (c ∷ cs) = if c == 0 then 0 else suc (strlen cs)

unfoldable pub strncmp : ℕ → List ℕ → List ℕ → ℤ
unfolding byte_diff
strncmp zero xs ys = pos 0
strncmp (suc n) [] [] = pos 0
strncmp (suc n) [] (y ∷ ys) = if 0 == y then pos 0 else byte_diff 0 y
strncmp (suc n) (x ∷ xs) [] = if x == 0 then pos 0 else byte_diff x 0
strncmp (suc n) (x ∷ xs) (y ∷ ys) =
    if x == y then (if x == 0 then pos 0 else strncmp n xs ys) else byte_diff x y

abbrev pub store : (ℕ → ℕ) → ℕ → ℕ → ℕ → ℕ
store dst i c j = if j == i then c else dst j

-- The loops from index `i` on, with the rounds left.
unfoldable pub strncpy_from : ℕ → ℕ → (ℕ → ℕ) → List ℕ → ℕ → ℕ
strncpy_from zero i dst src = dst
strncpy_from (suc n) i dst [] = dst
strncpy_from (suc n) i dst (c ∷ cs) =
    if c == 0 then dst else strncpy_from n (i + 1) (store dst i c) cs

unfoldable pub strncpy : ℕ → (ℕ → ℕ) → List ℕ → ℕ → ℕ
unfolding strncpy_from
strncpy len dst src = strncpy_from len 0 dst src

unfoldable pub strlcpy_from : ℕ → ℕ → (ℕ → ℕ) → List ℕ → ℕ → ℕ
strlcpy_from zero i dst src = dst
strlcpy_from (suc n) i dst [] = store dst i 0
strlcpy_from (suc n) i dst (c ∷ cs) =
    if c == 0 then store dst i c else strlcpy_from n (i + 1) (store dst i c) cs

-- The kernel's `strlcpy`, which returns `len`.
unfoldable pub strlcpy : ℕ → (ℕ → ℕ) → List ℕ → (ℕ → ℕ) × ℕ
unfolding strlcpy_from
strlcpy len dst src = (strlcpy_from len 0 dst src, len)

-- The loop of the C library's `strlcpy`, from index `i` on.
unfoldable pub copy_from : ℕ → ℕ → (ℕ → ℕ) → List ℕ → ℕ → ℕ
copy_from zero i dst src = dst
copy_from (suc n) i dst [] = copy_from n (i + 1) (store dst i 0) []
copy_from (suc n) i dst (c ∷ cs) = copy_from n (i + 1) (store dst i c) cs

-- The C library's `strlcpy`, which returns the length of the source.
unfoldable pub strlcpy_libc : ℕ → (ℕ → ℕ) → List ℕ → (ℕ → ℕ) × ℕ
unfolding copy_from strlen
strlcpy_libc len dst src =
    let n = min (strlen src) len in (store (copy_from n 0 dst src) n 0, strlen src)
