-- ===== src/Gui/Fill.antt =====
-- Which pixels `gui_fill_rect` sets.
use ppo_os.Common.Numbers.{row_below}
use ppo_os.Common.{
  ℕ, zero, suc, ◌+◌, ◌*◌, ◌<◌, ◌≡◌, refl, ap, ◌∙◌, Bool, false, ◌&&◌, ltb, leb, ◌==◌, min,
  if◌then◌else◌, arith, Bool-cases, inl, inr, ltb→lt, ltb→le, ==→eq, ==→ne,
}
use ppo_os.Common.Int.{ℤ, pos, negsuc, ◌+ℤ◌, pos_part}
use ppo_os.Gui.{Buffer, GuiContext, below, put_pixel, fill_row, fill_rows, gui_fill_rect}

add_pos : (a i : ℕ) → pos a +ℤ pos i ≡ pos (a + i)
add_pos a i = ground arith

-- The columns from `a + i` on, as many as are left and lie on the screen.
abbrev in_row : ℕ → ℕ → ℕ → ℕ → ℕ → Bool
in_row width row first left p = leb (row + first) p && ltb p (row + min (first + left) width)

fill_row-in_row :
    (width row color a left i : ℕ) (b : Buffer) (p : ℕ)
    → fill_row width row color (pos a) left i b p
      ≡ (if in_row width row (a + i) left p then color else b p)
unfolding fill_row
fill_row-in_row width row color a zero i b p = ground arith
fill_row-in_row width row color a (suc left) i b p =
    rw (add_pos a i) (elim (Bool-cases (ltb (a + i) width)) [
      | inl e ↦
          rw
            (
              e,
              fill_row-in_row width row color a left (i + 1) (put_pixel b (row + (a + i)) color) p,
            )
            (ground arith)
      | inr e ↦ rw e (ground arith)
    ])

in_row-pixel :
    (width r a w py px : ℕ)
    → px < width
    → in_row width (r * width) a w (py * width + px)
      ≡ ((r == py) && (leb a px && ltb px (min (a + w) width)))
in_row-pixel width r a w py px inside = elim (Bool-cases (r == py)) [
  | inl e ↦ let same : r ≡ py = ==→eq r py e in rw (e, same) (ground arith)
  | inr e ↦ elim (Bool-cases (ltb r py)) [
    | inl lt ↦ let row = row_below r py width (ltb→lt r py lt) in rw e (ground arith)
    | inr ge ↦
        let below : py < r = omega (arith, ltb→le r py ge, ==→ne r py e) in
        let row = row_below py r width below in rw e (ground arith)
  ]
]

-- The pixels of the rectangle that lie on the screen.
abbrev in_rect : ℕ → ℕ → ℕ → ℕ → ℕ → ℕ → ℕ → ℕ → Bool
in_rect width height a first w left px py =
    (leb first py && ltb py (min (first + left) height)) && (leb a px && ltb px (min (a + w) width))

fill_rows-in_rect :
    (width height color a b w left j : ℕ) (buf : Buffer) (px py : ℕ)
    → px < width
    → fill_rows width height color (pos a) (pos b) w left j buf (py * width + px)
      ≡ (if in_rect width height a (b + j) w left px py then color else buf (py * width + px))
unfolding fill_rows
fill_rows-in_rect width height color a b w zero j buf px py inside = ground arith
fill_rows-in_rect width height color a b w (suc left) j buf px py inside =
    let start : a + 0 ≡ a = omega arith in
    rw (add_pos b j) (elim (Bool-cases (ltb (b + j) height)) [
      | inl e ↦
          rw
            (
              e,
              fill_rows-in_rect width height color a b w left (j + 1)
                  (fill_row width ((b + j) * width) color (pos a) w 0 buf) px py inside,
              fill_row-in_row width ((b + j) * width) color a w 0 buf (py * width + px),
              start,
              in_row-pixel width (b + j) a w py px inside,
            )
            (ground arith)
      | inr e ↦ rw e (ground arith)
    ])

neg_start : (n : ℕ) → negsuc n +ℤ pos 0 ≡ negsuc n
neg_start n = ground arith

-- A start left of the screen ends each row at once, one above it all rows.
fill_rows-left :
    (width height color n w left j : ℕ) (y : ℤ) (buf : Buffer)
    → fill_rows width height color (negsuc n) y w left j buf ≡ buf
unfolding fill_rows fill_row
fill_rows-left width height color n w zero j y buf = refl
fill_rows-left width height color n zero (suc left) j y buf =
    elim (Bool-cases (below (y +ℤ pos j) height)) [
      | inl e ↦ rw e (fill_rows-left width height color n zero left (j + 1) y buf)
      | inr e ↦ rw e refl
    ]
fill_rows-left width height color n (suc w) (suc left) j y buf =
    elim (Bool-cases (below (y +ℤ pos j) height)) [
      | inl e ↦ rw (e, neg_start n) (fill_rows-left width height color n (suc w) left (j + 1) y buf)
      | inr e ↦ rw e refl
    ]

fill_rows-above :
    (width height color n w left : ℕ) (x : ℤ) (buf : Buffer)
    → fill_rows width height color x (negsuc n) w left 0 buf ≡ buf
unfolding fill_rows
fill_rows-above width height color n w zero x buf = refl
fill_rows-above width height color n w (suc left) x buf = rw (neg_start n) refl

-- The pixels that a rectangle sets: those inside that lie on the screen, if its corner does not lie
-- left of the screen or above it, and else none.
abbrev pub is_drawn : GuiContext → ℤ → ℤ → ℤ → ℤ → ℕ → ℕ → Bool
is_drawn ctx (pos a) (pos b) w h px py =
    in_rect ctx.width ctx.height a b (pos_part w) (pos_part h) px py
is_drawn ctx (pos a) (negsuc n) w h px py = false
is_drawn ctx (negsuc n) y w h px py = false

-- After `gui_fill_rect` a pixel of the back buffer whose column lies on the screen has the colour
-- if it lies in the rectangle and on the screen and the rectangle's corner does not lie left of
-- the screen or above it, and else the colour it had.
pub gui_fill_rect_lem :
    (ctx : GuiContext) (x y w h : ℤ) (color px py : ℕ)
    → px < ctx.width
    → (gui_fill_rect ctx x y w h color).backbuffer (py * ctx.width + px)
      ≡ (if is_drawn ctx x y w h px py then color else ctx.backbuffer (py * ctx.width + px))
unfolding gui_fill_rect
gui_fill_rect_lem ctx (pos a) (pos b) w h color px py inside =
    let start : b + 0 ≡ b = omega arith in
    fill_rows-in_rect ctx.width ctx.height color a b (pos_part w) (pos_part h) 0 ctx.backbuffer px
      py inside
    ∙ ap
        (λ (t : ℕ).
          if in_rect ctx.width ctx.height a t (pos_part w) (pos_part h) px py
          then color
          else ctx.backbuffer (py * ctx.width + px))
        start
gui_fill_rect_lem ctx (pos a) (negsuc n) w h color px py inside =
    ap (λ (f : Buffer). f (py * ctx.width + px))
      (fill_rows-above ctx.width ctx.height color n (pos_part w) (pos_part h) (pos a)
        ctx.backbuffer)
gui_fill_rect_lem ctx (negsuc n) y w h color px py inside =
    ap (λ (f : Buffer). f (py * ctx.width + px))
      (fill_rows-left ctx.width ctx.height color n (pos_part w) (pos_part h) 0 y ctx.backbuffer)
