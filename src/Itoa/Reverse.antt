-- ===== src/Itoa/Reverse.antt =====
-- The loop that turns the digits of `itoa` round.
use trunix.Prelude.{
  ℕ, zero, suc, ◌+◌, ◌-◌, ◌≤◌, ◌≡◌, inl, inr, ltb, leb, if◌then◌else◌, arith, Bool-cases, ◌&&◌,
}
use trunix.Text.{store}
use trunix.Itoa.{turn}

-- From index `j` to index `i` the bytes are in the opposite order, the others where they were.
pub turn_lem :
    (r j i : ℕ) (s : ℕ → ℕ) (x : ℕ)
    → i ≤ j + r
    → turn r j i s x ≡ (if leb j x && leb x i then s (j + i - x) else s x)
unfolding turn
turn_lem zero j i s x h = ground arith
turn_lem (suc r) j i s x h = elim (Bool-cases (ltb j i)) [
  | inl t ↦
      rw (t, turn)
        let e : j + 1 + (i - 1) - x ≡ j + i - x = ground arith in
          (ground (
            arith,
            rw e at (turn_lem r (j + 1) (i - 1) (store (store s i (s j)) j (s i)) x (ground arith)),
          ))
  | inr f ↦ rw (f, turn) (ground arith)
]
