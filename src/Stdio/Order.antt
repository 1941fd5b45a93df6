-- ===== src/Stdio/Order.antt =====
-- lib/libc/stdio/fputc.c and fflush.c: what a stream writes, and in which order.
use trunix.Prelude.{
  ℕ, ◌%◌, ◌≤◌, ◌≡◌, refl, inl, inr, not, ◌&&◌, List, [], ◌∷◌, ◌++◌, length, ltb, ◌==◌, arith,
  Bool-cases, append_assoc, append-nil, ap, ◌∙◌, sym, length-append,
}
use trunix.Stdio.{Stream, fflush, overflow, fputc}

abbrev pub concat : List (List ℕ) → List ℕ
concat [] = []
concat (l ∷ ls) = l ++ concat ls

-- The characters, one after the other.
abbrev pub put_all : List ℕ → Stream → List (List ℕ) × Stream
put_all [] s = ([], s)
put_all (c ∷ cs) s =
    let (calls, s') = fputc c s in let (later, s'') = put_all cs s' in (calls ++ later, s'')

abbrev pub bytes_of : List ℕ → List ℕ
bytes_of [] = []
bytes_of (c ∷ cs) = c % 256 ∷ bytes_of cs

-- The stream `s'` has given the bytes of `calls` to `write`, and still holds the rest of `bytes`.
pub record Ordered (bytes : List ℕ) (s : Stream) (calls : List (List ℕ)) (s' : Stream)
    : Type 0 where
  pub order : concat calls ++ s'.pending ≡ s.pending ++ bytes
  pub room : length s'.pending ≤ s'.size
  pub same_size : s'.size ≡ s.size
  pub same_fd : s'.fd ≡ s.fd

fputc-Ordered :
    (c : ℕ) (s : Stream)
    → length s.pending ≤ s.size
    → Ordered (c % 256 ∷ []) s (fputc c s).0 (fputc c s).1
unfolding fputc overflow fflush
fputc-Ordered c s h = elim (Bool-cases (not (c == 10) && ltb (length s.pending) s.size)) [
  | inl t ↦ rw t (record {
    order = refl;
    room = let l = length-append s.pending (c % 256 ∷ []) in ground arith;
    same_size = refl;
    same_fd = refl;
  })
  | inr f ↦
      rw f (record { order = append-nil _; room = omega arith; same_size = refl; same_fd = refl })
]

concat-append : (ls ks : List (List ℕ)) → concat (ls ++ ks) ≡ concat ls ++ concat ks
concat-append [] ks = refl
concat-append (l ∷ ls) ks =
    ap (λ r. l ++ r) (concat-append ls ks) ∙ sym (append_assoc l (concat ls) (concat ks))

-- The characters that are put to a stream, one after the other, are those that it gives to `write`
-- and then those that it holds, in order, each as a byte; it never holds more than its buffer has
-- room for.
pub put_all-Ordered :
    (cs : List ℕ) (s : Stream)
    → length s.pending ≤ s.size
    → Ordered (bytes_of cs) s (put_all cs s).0 (put_all cs s).1
put_all-Ordered [] s h = record {
  order = sym (append-nil s.pending);
  room = h;
  same_size = refl;
  same_fd = refl;
}
put_all-Ordered (c ∷ cs) s h =
    let (calls, s1) = fputc c s in
    let o = fputc-Ordered c s h in
    let w = put_all-Ordered cs s1 o.room in
    let (later, s2) = put_all cs s1 in
    record {
      order =
          ap (λ l. l ++ s2.pending) (concat-append calls later)
          ∙ append_assoc (concat calls) (concat later) s2.pending
          ∙ ap (λ l. concat calls ++ l) w.order
          ∙ sym (append_assoc (concat calls) s1.pending (bytes_of cs))
          ∙ ap (λ l. l ++ bytes_of cs) o.order
          ∙ append_assoc s.pending (c % 256 ∷ []) (bytes_of cs);
      room = w.room;
      same_size = w.same_size ∙ o.same_size;
      same_fd = w.same_fd ∙ o.same_fd;
    }
