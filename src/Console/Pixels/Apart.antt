-- ===== src/Console/Pixels/Apart.antt =====
-- drivers/video/console/console.c: where the pixels of a cell lie.
use trunix.Prelude.{
  ℕ, ◌+◌, ◌*◌, ◌/◌, ◌^◌, ◌<◌, ◌≤◌, ◌≡◌, ◌≢◌, refl, inl, inr, ltb, leb, ◌&&◌, false, arith, ap,
  ℕ_discrete, ◌⊎◌, dec_lt,
}
use native.Mathlib.Nat.{mul-le-mul_left}
use trunix.Console.Pixels.{FbDev, cell_w, cell_h, coord}

mul_mono : (m n p : ℕ) → m ≤ n → m * p ≤ n * p
mul_mono m n p h = omega (arith, mul-le-mul_left p h)

far_below : (x c : ℕ) → x < c → (leb c x && ltb x (c + 4)) ≡ false
far_below x c h = ground arith

far_above : (x c : ℕ) → c + 4 ≤ x → (leb c x && ltb x (c + 4)) ≡ false
far_above x c h = ground arith

beside :
    (c d o sx tx k : ℕ)
    → c ≡ o + sx * 4
    → d ≡ o + tx * 4
    → k < 4
    → sx ≢ tx
    → (leb d (c + k) && ltb (c + k) (d + 4)) ≡ false
beside c d o sx tx k e e' h n = ground arith

-- A screen with 32 bits a pixel that has room for the cell, below the top of the address space.
pub record HasCell (fb : FbDev) (xpos ypos : ℕ) : Type 0 where
  pub bits : fb.bpp ≡ 32
  pub wide : (xpos + 1) * cell_w * 4 ≤ fb.pitch
  pub tall : fb.addr + (ypos + 1) * cell_h * fb.pitch ≤ 2 ^ 32

-- The pixel lies in the cell.
pub record InCell (xpos ypos sx sy : ℕ) : Type 0 where
  pub left : xpos * cell_w ≤ sx
  pub right : sx < (xpos + 1) * cell_w
  pub top : ypos * cell_h ≤ sy
  pub bottom : sy < (ypos + 1) * cell_h

module _ (fb : FbDev) (xpos ypos : ℕ) (w : HasCell fb xpos ypos) where
  pub coord_in :
      (sx sy : ℕ) → InCell xpos ypos sx sy → coord fb sx sy ≡ fb.addr + (sy * fb.pitch + sx * 4)
  coord_in sx sy i =
      let four : fb.bpp / 8 ≡ 4 = rw (w.bits) refl in
      let m : (sy + 1) * fb.pitch ≤ (ypos + 1) * cell_h * fb.pitch =
        mul_mono (sy + 1) ((ypos + 1) * cell_h) fb.pitch (omega (arith, i.bottom)) in
      let e : (sy + 1) * fb.pitch ≡ sy * fb.pitch + fb.pitch = omega arith in
      rw four (omega (arith, i.right, w.wide, w.tall))

  -- Another pixel of the cell has other bytes.
  pub apart :
      (sx sy tx ty k : ℕ)
      → InCell xpos ypos sx sy
      → InCell xpos ypos tx ty
      → k < 4
      → (sx ≢ tx ⊎ sy ≢ ty)
      → (leb (coord fb tx ty) (coord fb sx sy + k) && ltb (coord fb sx sy + k) (coord fb tx ty + 4))
        ≡ false
  apart sx sy tx ty k i j lt ne =
      let a = coord_in sx sy i in
      let b = coord_in tx ty j in
      let es : (sy + 1) * fb.pitch ≡ sy * fb.pitch + fb.pitch = omega arith in
      let et : (ty + 1) * fb.pitch ≡ ty * fb.pitch + fb.pitch = omega arith in
      elim (dec_lt sy ty) [
        | yes below ↦
            let m = mul_mono (sy + 1) ty fb.pitch (omega arith) in
            let gap : coord fb sx sy + k < coord fb tx ty =
              omega (arith, a, b, es, m, i.right, w.wide) in
            far_below (coord fb sx sy + k) (coord fb tx ty) gap
        | no above ↦ elim (ℕ_discrete sy ty) [
          | yes e ↦
              let m : sy * fb.pitch ≡ ty * fb.pitch = ap (λ z. z * fb.pitch) e in
              let n : sx ≢ tx = elim ne [ inl z ↦ z | inr z ↦ absurd (z e) ] in
              beside (coord fb sx sy) (coord fb tx ty) (fb.addr + sy * fb.pitch) sx tx k
                (omega (arith, a)) (omega (arith, b, m)) lt n
          | no d ↦
              let m = mul_mono (ty + 1) sy fb.pitch (omega arith) in
              let gap : coord fb tx ty + 4 ≤ coord fb sx sy + k =
                omega (arith, a, b, et, m, j.right, w.wide) in
              far_above (coord fb sx sy + k) (coord fb tx ty) gap
        ]
      ]
