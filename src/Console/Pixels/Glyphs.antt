-- ===== src/Console/Pixels/Glyphs.antt =====
-- drivers/video/console/console.c: what `fbconchar` draws.
use trunix.Prelude.{
  ◌+◌, ◌-◌, ◌*◌, ◌/◌, ◌<◌, ◌≤◌, ◌≡◌, ◌≢◌, refl, inl, inr, ◌==◌, ltb, leb, ◌&&◌, true, false,
  if◌then◌else◌, arith, ◌⊎◌, ℕ, zero, suc, ◌%◌, ◌^◌, List, [], ◌∷◌, ◌++◌, get_or, subst,
}
use trunix.Font.{font_w, font_h, glyph, glyph_row}
use trunix.Console.{scale}
use trunix.Console.Pixels.{
  FbDev, cell_w, cell_h, coord, for_up, glyph_bit, set_pixel, draw_bit, fbconchar,
}
use trunix.Console.Pixels.Loops.{for_up-keeps, for_up-sets}
use trunix.Console.Pixels.Apart.{HasCell, InCell, apart}

module _ (fb : FbDev) (xpos ypos : ℕ) (w : HasCell fb xpos ypos) where
  in_cell :
      (x y sx sy : ℕ)
      → x < font_w
      → y < font_h
      → scale * x + xpos * cell_w ≤ sx
      → sx < scale * x + xpos * cell_w + scale
      → scale * y + ypos * cell_h ≤ sy
      → sy < scale * y + ypos * cell_h + scale
      → InCell xpos ypos sx sy
  in_cell x y sx sy hx hy a b d e = record {
    left = omega arith;
    right = omega arith;
    top = omega arith;
    bottom = omega arith;
  }

  module _ (c px py k : ℕ) (i : InCell xpos ypos px py) (lt : k < 4) where
    abbrev at_pixel : ℕ
    at_pixel = coord fb px py + k

    pixel_keeps :
        (sx sy bit : ℕ) (b : ℕ → ℕ)
        → InCell xpos ypos sx sy
        → (px ≢ sx ⊎ py ≢ sy)
        → set_pixel fb sx sy bit b at_pixel ≡ b at_pixel
    pixel_keeps sx sy bit b j ne = rw (apart fb xpos ypos w px py sx sy k i j lt ne) refl

    pixel_sets :
        (bit : ℕ) (b : ℕ → ℕ) → set_pixel fb px py bit b at_pixel ≡ (if bit == 0 then 0 else 0xFF)
    pixel_sets bit b =
        let e : (leb (coord fb px py) at_pixel && ltb at_pixel (coord fb px py + 4)) ≡ true =
          ground arith in
        rw e refl

    -- The pixels of another bit of the glyph.
    bit_keeps :
        (x y : ℕ) (b : ℕ → ℕ)
        → x < font_w
        → y < font_h
        → ((px - xpos * cell_w) / scale ≢ x ⊎ (py - ypos * cell_h) / scale ≢ y)
        → draw_bit fb xpos ypos c y x b at_pixel ≡ b at_pixel
    bit_keeps x y b hx hy ne =
        for_up-keeps scale (scale * x + xpos * cell_w)
          (λ sx.
            for_up scale (scale * y + ypos * cell_h) (λ sy. set_pixel fb sx sy (glyph_bit c x y)))
          at_pixel
          (λ sx h h' b'.
            for_up-keeps scale (scale * y + ypos * cell_h)
              (λ sy. set_pixel fb sx sy (glyph_bit c x y)) at_pixel
              (λ sy l l' b''.
                pixel_keeps sx sy (glyph_bit c x y) b'' (in_cell x y sx sy hx hy h h' l l')
                  (other x y sx sy h h' l l' ne))
              b')
          b
      where
        other :
            (x y sx sy : ℕ)
            → scale * x + xpos * cell_w ≤ sx
            → sx < scale * x + xpos * cell_w + scale
            → scale * y + ypos * cell_h ≤ sy
            → sy < scale * y + ypos * cell_h + scale
            → ((px - xpos * cell_w) / scale ≢ x ⊎ (py - ypos * cell_h) / scale ≢ y)
            → (px ≢ sx ⊎ py ≢ sy)
        other x y sx sy h h' l l' (inl n) = inl (λ e. n (omega arith))
        other x y sx sy h h' l l' (inr n) = inr (λ e. n (omega arith))

    bit_sets :
        (x y : ℕ) (b : ℕ → ℕ)
        → x < font_w
        → y < font_h
        → (px - xpos * cell_w) / scale ≡ x
        → (py - ypos * cell_h) / scale ≡ y
        → draw_bit fb xpos ypos c y x b at_pixel ≡ (if glyph_bit c x y == 0 then 0 else 0xFF)
    bit_sets x y b hx hy ex ey =
        let v : ℕ = if glyph_bit c x y == 0 then 0 else 0xFF in
        for_up-sets scale (scale * x + xpos * cell_w) px v
          (λ sx.
            for_up scale (scale * y + ypos * cell_h) (λ sy. set_pixel fb sx sy (glyph_bit c x y)))
          at_pixel (omega (arith, i.left)) (omega (arith, i.left))
          (λ sx h h' ne b'.
            for_up-keeps scale (scale * y + ypos * cell_h)
              (λ sy. set_pixel fb sx sy (glyph_bit c x y)) at_pixel
              (λ sy l l' b''.
                pixel_keeps sx sy (glyph_bit c x y) b'' (in_cell x y sx sy hx hy h h' l l')
                  (inl (λ e. ne (omega arith))))
              b')
          (λ b'.
            for_up-sets scale (scale * y + ypos * cell_h) py v
              (λ sy. set_pixel fb px sy (glyph_bit c x y)) at_pixel (omega (arith, i.top))
              (omega (arith, i.top))
              (λ sy l l' ne b''.
                pixel_keeps px sy (glyph_bit c x y) b''
                  (in_cell x y px sy hx hy (omega (arith, i.left)) (omega (arith, i.left)) l l')
                  (inr (λ e. ne (omega arith))))
              (λ b''. pixel_sets (glyph_bit c x y) b'') b')
          b

    drawn :
        (byte : ℕ → ℕ)
        → fbconchar fb xpos ypos c byte at_pixel ≡ (
            if glyph_bit c ((px - xpos * cell_w) / scale) ((py - ypos * cell_h) / scale) == 0
            then 0
            else 0xFF)
    unfolding fbconchar
    drawn byte =
        let x : ℕ = (px - xpos * cell_w) / scale in
        let y : ℕ = (py - ypos * cell_h) / scale in
        let v : ℕ = if glyph_bit c x y == 0 then 0 else 0xFF in
        let hx : x < font_w = omega (arith, i.right, i.left) in
        let hy : y < font_h = omega (arith, i.bottom, i.top) in
        for_up-sets font_h 0 y v (λ y'. for_up font_w 0 (λ x'. draw_bit fb xpos ypos c y' x'))
          at_pixel (omega arith) hy
          (λ y' l l' ne b.
            for_up-keeps font_w 0 (λ x'. draw_bit fb xpos ypos c y' x') at_pixel
              (λ x' h h' b'. bit_keeps x' y' b' h' l' (inr (λ e. ne (omega arith)))) b)
          (λ b.
            for_up-sets font_w 0 x v (λ x'. draw_bit fb xpos ypos c y x') at_pixel (omega arith) hx
              (λ x' h h' ne b'. bit_keeps x' y b' h' hy (inl (λ e. ne (omega arith))))
              (λ b'. bit_sets x y b' hx hy refl refl) b)
          byte

  undrawn :
      (c a : ℕ)
      → ((sx sy : ℕ)
          → InCell xpos ypos sx sy
          → (leb (coord fb sx sy) a && ltb a (coord fb sx sy + 4)) ≡ false)
      → (byte : ℕ → ℕ) → fbconchar fb xpos ypos c byte a ≡ byte a
  unfolding fbconchar
  undrawn c a out byte =
      for_up-keeps font_h 0 (λ y. for_up font_w 0 (λ x. draw_bit fb xpos ypos c y x)) a
        (λ y hy hy' b.
          for_up-keeps font_w 0 (λ x. draw_bit fb xpos ypos c y x) a
            (λ x hx hx' b1.
              for_up-keeps scale (scale * x + xpos * cell_w)
                (λ sx.
                  for_up scale (scale * y + ypos * cell_h)
                    (λ sy. set_pixel fb sx sy (glyph_bit c x y)))
                a
                (λ sx h h' b2.
                  for_up-keeps scale (scale * y + ypos * cell_h)
                    (λ sy. set_pixel fb sx sy (glyph_bit c x y)) a
                    (λ sy l l' b3. rw (out sx sy (in_cell x y sx sy hx' hy' h h' l l')) refl) b2)
                b1)
            b)
        byte

-- The last `n` binary digits of a row, the highest first: its dots from left to right.
abbrev pub dots : ℕ → ℕ → List ℕ
dots zero row = []
dots (suc n) row = dots n (row / 2) ++ row % 2 ∷ []

-- The dot in column `x` and row `y` of the font's picture of `c`.
abbrev pub dot : ℕ → ℕ → ℕ → ℕ
dot c x y = get_or (dots 8 (get_or (glyph c) y 0)) x 0

digit : (row x : ℕ) → x < 8 → row / 2 ^ (8 - 1 - x % 8) % 2 ≡ get_or (dots 8 row) x 0
digit row zero h = omega arith
digit row (suc zero) h = omega arith
digit row (suc (suc zero)) h = omega arith
digit row (suc (suc (suc zero))) h = omega arith
digit row (suc (suc (suc (suc zero)))) h = omega arith
digit row (suc (suc (suc (suc (suc zero))))) h = omega arith
digit row (suc (suc (suc (suc (suc (suc zero)))))) h = omega arith
digit row (suc (suc (suc (suc (suc (suc (suc zero))))))) h = omega arith
digit row (suc (suc (suc (suc (suc (suc (suc (suc x)))))))) h = absurd (omega arith)

glyph_bit-dot : (c x y : ℕ) → x < 8 → glyph_bit c x y ≡ dot c x y
unfolding glyph_row
glyph_bit-dot c x y h = digit (glyph_row c y) x h

-- Of one of the font's 128 characters, on a screen with 32 bits a pixel that has room for the cell,
-- `fbconchar` sets all bits of each pixel of the cell where the glyph, drawn from left to right
-- from the highest bit of each row and at twice its size, has a dot, clears those of the others,
-- and changes no byte outside the pixels of the cell.
pub fbconchar_lem :
    (fb : FbDev) (xpos ypos c : ℕ) (byte : ℕ → ℕ)
    → c < 128
    → HasCell fb xpos ypos
    → ((px py k : ℕ)
        → InCell xpos ypos px py
        → k < 4
        → fbconchar fb xpos ypos c byte (coord fb px py + k) ≡ (
            if dot c ((px - xpos * cell_w) / scale) ((py - ypos * cell_h) / scale) == 0
            then 0
            else 0xFF))
      × ((a : ℕ)
          → ((sx sy : ℕ)
              → InCell xpos ypos sx sy
              → (leb (coord fb sx sy) a && ltb a (coord fb sx sy + 4)) ≡ false)
          → fbconchar fb xpos ypos c byte a ≡ byte a)
fbconchar_lem fb xpos ypos c byte known w = (
  (λ px py k i lt.
      subst (λ b. fbconchar fb xpos ypos c byte (coord fb px py + k) ≡ (if b == 0 then 0 else 0xFF))
        (glyph_bit-dot c ((px - xpos * cell_w) / scale) ((py - ypos * cell_h) / scale)
          (omega (arith, i.right, i.left)))
        (drawn fb xpos ypos w c px py k i lt byte)),
  (λ a out. undrawn fb xpos ypos w c a out byte),
)
