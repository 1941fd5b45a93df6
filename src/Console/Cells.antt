-- ===== src/Console/Cells.antt =====
-- Where the console draws.
use trunix.Prelude.{
  ℕ, ◌+◌, ◌-◌, ◌*◌, ◌≤◌, ◌≡◌, ◌≢◌, inl, inr, true, false, ◌&&◌, ◌||◌, List, [], ◌∷◌, ltb, ◌==◌,
  length, arith, Bool-cases,
}
use trunix.Console.{Cursor, Cell, columns, write_cells, fbcon_write}

-- No line feed and no backspace.
abbrev pub IsPlain : List ℕ → Type 0
IsPlain [] = Unit {0}
IsPlain (c ∷ cs) = (c ≢ b'\n') × (c ≢ 8) × IsPlain cs

-- All cells are in columns up to `cols`, and in rows from `y` on.
abbrev pub AllWithin : ℕ → ℕ → List Cell → Type 0
AllWithin cols y [] = Unit {0}
AllWithin cols y (d ∷ ds) = (d.xpos ≤ cols) × (y ≤ d.ypos) × AllWithin cols y ds

AllWithin-weaken :
    (cols y y' : ℕ) (ds : List Cell) → y' ≤ y → AllWithin cols y ds → AllWithin cols y' ds
AllWithin-weaken cols y y' [] h w = tt
AllWithin-weaken cols y y' (d ∷ ds) h w = (w.0, omega arith, AllWithin-weaken cols y y' ds h w.2)

write_cells-AllWithin :
    (cols : ℕ) (buf : List ℕ) (s : Cursor)
    → s.x ≤ cols + 1
    → (((write_cells cols buf s).0).x ≤ cols + 1)
      × (s.y ≤ ((write_cells cols buf s).0).y)
      × AllWithin cols s.y (write_cells cols buf s).1
unfolding write_cells
write_cells-AllWithin cols [] s h = (h, omega arith, tt)
write_cells-AllWithin cols (c ∷ cs) s h = elim (Bool-cases (ltb cols s.x || (c == b'\n'))) [
  | inl e ↦
      let (a, b, w) = write_cells-AllWithin cols cs (record { x = 0; y = s.y + 1 }) (omega arith) in
      rw (write_cells, e) (a, omega arith, AllWithin-weaken cols (s.y + 1) s.y _ (omega arith) w)
  | inr e ↦ elim (Bool-cases ((c == 8) && ltb 0 s.x)) [
    | inl e' ↦
        let (a, b, w) =
          write_cells-AllWithin cols cs (record { x = s.x - 1; y = s.y }) (omega arith) in
        rw (write_cells, e) (rw e' (a, b, w))
    | inr e' ↦
        let le : s.x ≤ cols = ground arith in
        let (a, b, w) =
          write_cells-AllWithin cols cs (record { x = s.x + 1; y = s.y }) (omega arith) in
        rw (write_cells, e) (rw e' (a, b, (le, omega arith, w)))
  ]
]

-- A cursor that is at most one place past column `columns` stays so; every cell drawn is in a column
-- up to `columns`, one more than fit, and in no row above that of the cursor.
pub fbcon_write-AllWithin :
    (width : ℕ) (buf : List ℕ) (s : Cursor)
    → s.x ≤ columns width + 1
    → (((fbcon_write width buf s).0).x ≤ columns width + 1)
      × (s.y ≤ ((fbcon_write width buf s).0).y)
      × AllWithin (columns width) s.y (fbcon_write width buf s).1
unfolding fbcon_write
fbcon_write-AllWithin width buf s h = write_cells-AllWithin (columns width) buf s h

-- The characters that the cursor has passed, from the origin on.
abbrev pub position : ℕ → Cursor → ℕ
position cols s = s.x + (cols + 2) * s.y

next_row : (cols x y : ℕ) → x ≡ cols + 1 → 0 + (cols + 2) * (y + 1) ≡ x + (cols + 2) * y + 1
next_row cols x y e = grind arith

write_cells-position :
    (cols : ℕ) (buf : List ℕ) (s : Cursor)
    → s.x ≤ cols + 1
    → IsPlain buf
    → position cols (write_cells cols buf s).0 ≡ position cols s + length buf
unfolding write_cells
write_cells-position cols [] s h p = omega arith
write_cells-position cols (c ∷ cs) s h p = elim (Bool-cases (ltb cols s.x)) [
  | inl e ↦
      let e' : (ltb cols s.x || (c == b'\n')) ≡ true = ground arith in
      let x : s.x ≡ cols + 1 = ground arith in
      let ih = write_cells-position cols cs (record { x = 0; y = s.y + 1 }) (omega arith) p.2 in
      rw (write_cells, e') (omega (arith, ih, next_row cols s.x s.y x))
  | inr e ↦
      let e' : (ltb cols s.x || (c == b'\n')) ≡ false = ground arith in
      let e'' : ((c == 8) && ltb 0 s.x) ≡ false = ground arith in
      let ih = write_cells-position cols cs (record { x = s.x + 1; y = s.y }) (ground arith) p.2 in
      rw (write_cells, e') (rw e'' (omega (arith, ih)))
]

-- Text without line feeds and backspaces moves the cursor on by one place for each character, in rows
-- of `columns` and two more places.
pub fbcon_write-position :
    (width : ℕ) (buf : List ℕ) (s : Cursor)
    → s.x ≤ columns width + 1
    → IsPlain buf
    → position (columns width) (fbcon_write width buf s).0 ≡ position (columns width) s + length buf
unfolding fbcon_write
fbcon_write-position width buf s h p = write_cells-position (columns width) buf s h p
