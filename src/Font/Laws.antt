-- ===== src/Font/Laws.antt =====
-- The font as a table: its shape, and that no two printable characters look alike.
use trunix.Prelude.{
  ℕ, ◌+◌, ◌-◌, ◌<◌, ◌≤◌, ◌≡◌, ◌≢◌, refl, Bool, true, false, ◌&&◌, not, List, [], ◌∷◌, ltb, ◌==◌,
  length, arith, ==_iff, &&_true, subst, sym, ℕ_discrete, dec_lt,
}
use trunix.Prelude.Table.{every, every_lem}
use trunix.Font.{font_h, glyph}

abbrev all_bytes : List ℕ → Bool
all_bytes [] = true
all_bytes (x ∷ xs) = ltb x 256 && all_bytes xs

same_rows : List ℕ → List ℕ → Bool
same_rows [] [] = true
same_rows (x ∷ xs) (y ∷ ys) = (x == y) && same_rows xs ys
same_rows _ _ = false

shape_table : every (λ c. (length (glyph c) == font_h) && all_bytes (glyph c)) 128 ≡ true
unfolding every glyph
shape_table = refl

same_rows_refl : (xs : List ℕ) → same_rows xs xs ≡ true
unfolding same_rows
same_rows_refl [] = refl
same_rows_refl (x ∷ xs) = ground (arith, same_rows_refl xs)

distinct_table :
    every (λ i. every (λ j. not (same_rows (glyph (i + 32)) (glyph (j + 32)))) i) 95 ≡ true
unfolding every glyph same_rows
distinct_table = refl

-- Every character has 13 rows of 8 pixels.
pub glyph-rows : (c : ℕ) → c < 128 → (length (glyph c) ≡ font_h) × (all_bytes (glyph c) ≡ true)
glyph-rows c h = let (l, b) = &&_true _ _ (every_lem _ 128 c h shape_table) in ((==_iff _ _).0 l, b)

glyphs_differ : (i j : ℕ) → j < i → i < 95 → glyph (i + 32) ≢ glyph (j + 32)
glyphs_differ i j lt h e =
    let row = every_lem _ i j lt (every_lem _ 95 i h distinct_table) in
    let same = same_rows_refl (glyph (j + 32)) in
    ground (arith, row, subst (λ g. same_rows g (glyph (j + 32)) ≡ true) (sym e) same)

same_glyph : (c d : ℕ) → 32 ≤ c → c < 127 → 32 ≤ d → d < 127 → glyph c ≡ glyph d → c ≡ d
same_glyph c d hc hc' hd hd' e =
    let ec : c ≡ c - 32 + 32 = omega arith in
    let ed : d ≡ d - 32 + 32 = omega arith in
    let e' : glyph (c - 32 + 32) ≡ glyph (d - 32 + 32) =
      subst (λ x. glyph x ≡ glyph (d - 32 + 32)) ec (subst (λ x. glyph c ≡ glyph x) ed e) in
    elim (ℕ_discrete c d) [
      | yes same ↦ same
      | no ne ↦ elim (dec_lt c d) [
        | yes lt ↦ absurd (glyphs_differ (d - 32) (c - 32) (omega arith) (omega arith) (sym e'))
        | no ge ↦ absurd (glyphs_differ (c - 32) (d - 32) (omega arith) (omega arith) e')
      ]
    ]

-- Two different characters from the space to the tilde have different glyphs.
glyph-injective : (c d : ℕ) → 32 ≤ c → c < 127 → 32 ≤ d → d < 127 → c ≢ d → glyph c ≢ glyph d
glyph-injective c d hc hc' hd hd' ne e = ne (same_glyph c d hc hc' hd hd' e)
