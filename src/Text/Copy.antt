-- ===== src/Text/Copy.antt =====
-- The copies of kernel/string.c and lib/libc/string: which bytes of the destination they write.
use trunix.Prelude.{
  ℕ, zero, suc, ◌+◌, ◌<◌, ◌≤◌, ◌≡◌, refl, List, [], ◌∷◌, length, get_or, arith, ◌==◌, ◌&&◌, ltb,
  if◌then◌else◌, min,
}
use trunix.Text.{store, strncpy_from, strncpy, strlcpy_from, strlcpy, copy_from, strlcpy_libc}
use trunix.Text.Compare.{IsText, strlen-length}

-- Byte `k` of a buffer, with `d` in it before, after the first `n` bytes of `src` are copied into
-- it, and a terminator behind them if it is among its first `m` bytes.
abbrev pub copied : ℕ → ℕ → List ℕ → ℕ → ℕ → ℕ
copied n m src k d =
    if ltb k (min n (length src))
    then get_or src k 0
    else (if (k == min n (length src)) && ltb k m then 0 else d)

strlcpy_from-below :
    (n i j : ℕ) (dst : ℕ → ℕ) (src : List ℕ) → j < i → strlcpy_from n i dst src j ≡ dst j
unfolding strlcpy_from
strlcpy_from-below zero i j dst src h = refl
strlcpy_from-below (suc n) i j dst [] h = ground arith
strlcpy_from-below (suc n) i j dst (c ∷ cs) h =
    ground (arith, strlcpy_from-below n (i + 1) j (store dst i c) cs)

strlcpy_from-copied :
    (n i k : ℕ) (dst : ℕ → ℕ) (src : List ℕ)
    → IsText src
    → strlcpy_from n i dst src (i + k) ≡ copied n n src k (dst (i + k))
unfolding strlcpy_from
strlcpy_from-copied zero i k dst src t = ground arith
strlcpy_from-copied (suc n) i k dst [] t = ground arith
strlcpy_from-copied (suc n) i zero dst (c ∷ cs) t =
    ground (arith, strlcpy_from-below n (i + 1) (i + 0) (store dst i c) cs)
strlcpy_from-copied (suc n) i (suc k) dst (c ∷ cs) t =
    let e : i + suc k ≡ i + 1 + k = omega arith in
    ground (arith, rw (← e) at (strlcpy_from-copied n (i + 1) k (store dst i c) cs t.2))

copy_from-below : (n i j : ℕ) (dst : ℕ → ℕ) (src : List ℕ) → j < i → copy_from n i dst src j ≡ dst j
unfolding copy_from
copy_from-below zero i j dst src h = refl
copy_from-below (suc n) i j dst [] h =
    ground (arith, copy_from-below n (i + 1) j (store dst i 0) [])
copy_from-below (suc n) i j dst (c ∷ cs) h =
    ground (arith, copy_from-below n (i + 1) j (store dst i c) cs)

copy_from-copied :
    (n i k : ℕ) (dst : ℕ → ℕ) (src : List ℕ)
    → n ≤ length src
    → copy_from n i dst src (i + k) ≡ (if ltb k n then get_or src k 0 else dst (i + k))
unfolding copy_from
copy_from-copied zero i k dst src t = ground arith
copy_from-copied (suc n) i k dst [] t = absurd (omega arith)
copy_from-copied (suc n) i zero dst (c ∷ cs) t =
    ground (arith, copy_from-below n (i + 1) (i + 0) (store dst i c) cs)
copy_from-copied (suc n) i (suc k) dst (c ∷ cs) t =
    let e : i + suc k ≡ i + 1 + k = omega arith in
    ground (arith, rw (← e) at (copy_from-copied n (i + 1) k (store dst i c) cs (omega arith)))

-- The kernel's `strlcpy` copies at most `len` characters of a C string, writes the terminator only
-- if it comes among the first `len` bytes, and nothing else; it returns `len`.
strlcpy_lem :
    (len k : ℕ) (dst : ℕ → ℕ) (src : List ℕ)
    → IsText src
    → ((strlcpy len dst src).0 k ≡ copied len len src k (dst k)) × ((strlcpy len dst src).1 ≡ len)
unfolding strlcpy
strlcpy_lem len k dst src t =
    let e : 0 + k ≡ k = omega arith in (rw e at (strlcpy_from-copied len 0 k dst src t), refl)

-- The C library's `strlcpy` copies at most `len` characters of a C string and always writes the
-- terminator behind them, also when this is byte `len` of the destination, one past its end; it
-- returns the length of the source.
pub strlcpy_libc_lem :
    (len k : ℕ) (dst : ℕ → ℕ) (src : List ℕ)
    → IsText src
    → ((strlcpy_libc len dst src).0 k ≡ copied len (suc len) src k (dst k))
      × ((strlcpy_libc len dst src).1 ≡ length src)
unfolding strlcpy_libc
strlcpy_libc_lem len k dst src t =
    let e : 0 + k ≡ k = omega arith in
    let n = strlen-length src t in
    (
      rw (strlcpy_libc, n)
          (ground
            (arith, rw e at (copy_from-copied (min (length src) len) 0 k dst src (omega arith)))),
      n,
    )

strncpy_from-below :
    (n i j : ℕ) (dst : ℕ → ℕ) (src : List ℕ) → j < i → strncpy_from n i dst src j ≡ dst j
unfolding strncpy_from
strncpy_from-below zero i j dst src h = refl
strncpy_from-below (suc n) i j dst [] h = refl
strncpy_from-below (suc n) i j dst (c ∷ cs) h =
    ground (arith, strncpy_from-below n (i + 1) j (store dst i c) cs)

strncpy_from-copied :
    (n i k : ℕ) (dst : ℕ → ℕ) (src : List ℕ)
    → IsText src
    → strncpy_from n i dst src (i + k) ≡ copied n 0 src k (dst (i + k))
unfolding strncpy_from
strncpy_from-copied zero i k dst src t = ground arith
strncpy_from-copied (suc n) i k dst [] t = ground arith
strncpy_from-copied (suc n) i zero dst (c ∷ cs) t =
    ground (arith, strncpy_from-below n (i + 1) (i + 0) (store dst i c) cs)
strncpy_from-copied (suc n) i (suc k) dst (c ∷ cs) t =
    let e : i + suc k ≡ i + 1 + k = omega arith in
    ground (arith, rw (← e) at (strncpy_from-copied n (i + 1) k (store dst i c) cs t.2))

-- `strncpy` copies at most `len` characters of a C string and writes nothing else: no terminator, and
-- none of the zero bytes with which the standard function fills the rest.
strncpy_lem :
    (len k : ℕ) (dst : ℕ → ℕ) (src : List ℕ)
    → IsText src
    → strncpy len dst src k ≡ copied len 0 src k (dst k)
unfolding strncpy
strncpy_lem len k dst src t =
    let e : 0 + k ≡ k = omega arith in rw e at (strncpy_from-copied len 0 k dst src t)
