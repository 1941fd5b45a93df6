-- ===== src/Text/Compare.antt =====
-- The comparisons of kernel/string.c find exactly the strings that are equal.
use trunix.Prelude.{
  ℕ, zero, suc, ◌<◌, ◌≤◌, ◌≡◌, ◌≢◌, ◌↔◌, refl, List, [], ◌∷◌, length, take, some, arith, sym, subst,
}
use trunix.Prelude.Int.{pos, ◌-ℤ◌}
use trunix.Text.{char_diff, byte_diff, memcmp, strcmp, strlen, strncmp}

-- The bytes of a C string: none is the terminator.
abbrev pub IsText : List ℕ → Type 0
IsText [] = Unit {0}
IsText (c ∷ cs) = (c ≢ 0) × (c < 256) × IsText cs

char_diff-zero : (x y : ℕ) → x < 256 → y < 256 → char_diff x y ≡ pos 0 → x ≡ y
unfolding char_diff ◌-ℤ◌
char_diff-zero x y hx hy e = ground arith

byte_diff-zero : (x y : ℕ) → byte_diff x y ≡ pos 0 → x ≡ y
unfolding byte_diff ◌-ℤ◌
byte_diff-zero x y e = ground arith

pub strlen-length : (s : List ℕ) → IsText s → strlen s ≡ length s
unfolding strlen
strlen-length [] t = refl
strlen-length (c ∷ cs) t = ground (arith, strlen-length cs t.2)

strcmp-eq : (s t : List ℕ) → IsText s → IsText t → strcmp s t ≡ pos 0 → s ≡ t
unfolding strcmp
strcmp-eq [] [] hs ht e = refl
strcmp-eq [] (y ∷ ys) hs ht e = absurd (ht.0 (sym (char_diff-zero 0 y (omega arith) ht.1 e)))
strcmp-eq (x ∷ xs) [] hs ht e = absurd (hs.0 (char_diff-zero x 0 hs.1 (omega arith) e))
strcmp-eq (x ∷ xs) (y ∷ ys) hs ht e =
    ground (arith, strcmp-eq xs ys hs.2 ht.2, char_diff-zero x y hs.1 ht.1)

strcmp_refl : (s : List ℕ) → strcmp s s ≡ pos 0
unfolding strcmp char_diff ◌-ℤ◌
strcmp_refl [] = refl
strcmp_refl (x ∷ xs) = ground (arith, strcmp_refl xs)

-- `strcmp` of two C strings is 0 exactly when they are equal.
pub strcmp_iff : (s t : List ℕ) → IsText s → IsText t → (strcmp s t ≡ pos 0) ↔ (s ≡ t)
strcmp_iff s t hs ht = (strcmp-eq s t hs ht, λ e. subst (λ u. strcmp s u ≡ pos 0) e (strcmp_refl s))

memcmp-eq : (n : ℕ) (s t : List ℕ) → memcmp n s t ≡ some (pos 0) → take n s ≡ take n t
unfolding memcmp
memcmp-eq zero s t e = refl
memcmp-eq (suc n) [] t e = cc
memcmp-eq (suc n) (x ∷ xs) [] e = cc
memcmp-eq (suc n) (x ∷ xs) (y ∷ ys) e = ground (arith, memcmp-eq n xs ys, byte_diff-zero x y)

memcmp-take :
    (n : ℕ) (s t : List ℕ)
    → n ≤ length s
    → n ≤ length t
    → take n s ≡ take n t
    → memcmp n s t ≡ some (pos 0)
unfolding memcmp byte_diff ◌-ℤ◌
memcmp-take zero s t hs ht e = refl
memcmp-take (suc n) [] t hs ht e = absurd (omega arith)
memcmp-take (suc n) (x ∷ xs) [] hs ht e = absurd (omega arith)
memcmp-take (suc n) (x ∷ xs) (y ∷ ys) hs ht e = ground (arith, memcmp-take n xs ys)

-- `memcmp` of `n` bytes in range is 0 exactly when these are the same on both sides.
memcmp_iff :
    (n : ℕ) (s t : List ℕ)
    → n ≤ length s
    → n ≤ length t
    → (memcmp n s t ≡ some (pos 0)) ↔ (take n s ≡ take n t)
memcmp_iff n s t hs ht = (memcmp-eq n s t, memcmp-take n s t hs ht)

strncmp-eq :
    (n : ℕ) (s t : List ℕ) → IsText s → IsText t → strncmp n s t ≡ pos 0 → take n s ≡ take n t
unfolding strncmp
strncmp-eq zero s t hs ht e = refl
strncmp-eq (suc n) [] [] hs ht e = refl
strncmp-eq (suc n) [] (y ∷ ys) hs ht e = ground (arith, byte_diff-zero 0 y)
strncmp-eq (suc n) (x ∷ xs) [] hs ht e = ground (arith, byte_diff-zero x 0)
strncmp-eq (suc n) (x ∷ xs) (y ∷ ys) hs ht e =
    ground (arith, strncmp-eq n xs ys hs.2 ht.2, byte_diff-zero x y)

strncmp-take : (n : ℕ) (s t : List ℕ) → take n s ≡ take n t → strncmp n s t ≡ pos 0
unfolding strncmp byte_diff ◌-ℤ◌
strncmp-take zero s t e = refl
strncmp-take (suc n) [] [] e = refl
strncmp-take (suc n) [] (y ∷ ys) e = cc
strncmp-take (suc n) (x ∷ xs) [] e = cc
strncmp-take (suc n) (x ∷ xs) (y ∷ ys) e = ground (arith, strncmp-take n xs ys)

-- `strncmp` of two C strings is 0 exactly when their first `n` characters are the same.
strncmp_iff :
    (n : ℕ) (s t : List ℕ) → IsText s → IsText t → (strncmp n s t ≡ pos 0) ↔ (take n s ≡ take n t)
strncmp_iff n s t hs ht = (strncmp-eq n s t hs ht, strncmp-take n s t)
