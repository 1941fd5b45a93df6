-- ===== src/Console/Pixels/Loops.antt =====
-- drivers/video/console/console.c: loops of which one round at most changes a byte.
use trunix.Prelude.{ℕ, zero, suc, ◌+◌, ◌<◌, ◌≤◌, ◌≡◌, ◌≢◌, refl, arith, ◌∙◌, ap, ℕ_discrete}
use trunix.Console.Pixels.{for_up}

-- A loop of which no round changes the byte at `a`.
pub for_up-keeps :
    (rounds i : ℕ) (body : ℕ → (ℕ → ℕ) → ℕ → ℕ) (a : ℕ)
    → ((j : ℕ) → i ≤ j → j < i + rounds → (b : ℕ → ℕ) → body j b a ≡ b a)
    → (byte : ℕ → ℕ) → for_up rounds i body byte a ≡ byte a
unfolding for_up
for_up-keeps zero i body a k byte = refl
for_up-keeps (suc rounds) i body a k byte =
    for_up-keeps rounds (i + 1) body a (λ j h h' b. k j (omega arith) (omega arith) b) (body i byte)
    ∙ k i (omega arith) (omega arith) byte

-- A loop of which only round `n` does, to `v`.
pub for_up-sets :
    (rounds i n v : ℕ) (body : ℕ → (ℕ → ℕ) → ℕ → ℕ) (a : ℕ)
    → i ≤ n
    → n < i + rounds
    → ((j : ℕ) → i ≤ j → j < i + rounds → j ≢ n → (b : ℕ → ℕ) → body j b a ≡ b a)
    → ((b : ℕ → ℕ) → body n b a ≡ v)
    → (byte : ℕ → ℕ) → for_up rounds i body byte a ≡ v
unfolding for_up
for_up-sets zero i n v body a h h' k s byte = absurd (omega arith)
for_up-sets (suc rounds) i n v body a h h' k s byte = elim (ℕ_discrete i n) [
  | yes e ↦
      for_up-keeps rounds (i + 1) body a
        (λ j l l' b. k j (omega arith) (omega arith) (λ z. omega arith) b) (body i byte)
      ∙ ap (λ m. body m byte a) e
      ∙ s byte
  | no ne ↦
      for_up-sets rounds (i + 1) n v body a (omega arith) (omega arith)
        (λ j l l' d b. k j (omega arith) (omega arith) d b) s (body i byte)
]
