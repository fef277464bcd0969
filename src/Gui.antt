-- ===== src/Gui.antt =====
-- kernel/src/src/gui.c: drawing into the back buffer, copying it to the screen, and clicks on a window. A
-- buffer is a function from the index of a pixel to its colour. Coordinates are integers; the screen
-- has less than 2^31 pixels, so sums and products do not wrap. The context is not NULL.
pub mod Fill
pub mod Demo
mod Tests
use ppo_os.Common.{
  ℕ, zero, suc, ◌+◌, ◌-◌, ◌*◌, ◌/◌, ◌^◌, bit_and, Bool, true, false, not, ◌&&◌, ◌||◌, ltb, leb,
  ◌==◌, if◌then◌else◌, List, [], ◌∷◌, get_or,
}
use ppo_os.Common.Int.{ℤ, pos, negsuc, ◌+ℤ◌, ◌-ℤ◌, ltb_ℤ, pos_part}
use ppo_os.Common.Loops.{for_range}

abbrev pub Buffer : Type 0
Buffer = ℕ → ℕ

pub record GuiContext : Type 0 where
  pub fb : Buffer
  pub backbuffer : Buffer
  pub width : ℕ
  pub height : ℕ
  pub pitch : ℕ

-- The screen of the boot loader; the back buffer is the static array.
unfoldable pub gui_init : GuiContext → Buffer → ℕ → ℕ → ℕ → GuiContext
gui_init ctx base_address width height pixels_per_scan_line = record ctx {
  fb = base_address;
  width = width;
  height = height;
  pitch = pixels_per_scan_line;
}

-- `(unsigned)v < bound`
abbrev pub below : ℤ → ℕ → Bool
below (pos n) bound = ltb n bound
below (negsuc n) bound = false

abbrev pub put_pixel : Buffer → ℕ → ℕ → Buffer
put_pixel b p color a = if a == p then color else b a

-- The inner loop of `gui_fill_rect` from column `x + i` on, in the row that starts at `row`.
unfoldable pub fill_row : ℕ → ℕ → ℕ → ℤ → ℕ → ℕ → Buffer → Buffer
fill_row width row color x zero i b = b
fill_row width row color x (suc left) i b =
    let column = x +ℤ pos i in
    let rest =
      fill_row width row color x left (i + 1) (put_pixel b (row + pos_part column) color) in
    if not (below column width) then b else rest

-- The outer loop from row `y + j` on.
unfoldable pub fill_rows : ℕ → ℕ → ℕ → ℤ → ℤ → ℕ → ℕ → ℕ → Buffer → Buffer
fill_rows width height color x y w zero j b = b
fill_rows width height color x y w (suc left) j b =
    let line = y +ℤ pos j in
    let rest =
      fill_rows width height color x y w left (j + 1)
        (fill_row width (pos_part line * width) color x w 0 b) in
    if not (below line height) then b else rest

unfoldable pub gui_fill_rect : GuiContext → ℤ → ℤ → ℤ → ℤ → ℕ → GuiContext
gui_fill_rect ctx x y w h color = record ctx {
  backbuffer = fill_rows ctx.width ctx.height color x y (pos_part w) (pos_part h) 0 ctx.backbuffer;
}

-- Half of an integer, towards 0, for `w / 2` of a positive `w`.
abbrev pub half : ℤ → ℤ
half v = pos (pos_part v / 2)

abbrev pub double : ℤ → ℤ
double v = v +ℤ v

-- The four pixels of the corners at column `i` and row `j`.
unfoldable pub draw_corner : ℤ → ℤ → ℤ → ℤ → ℕ → ℕ → ℕ → ℕ → ℕ → GuiContext → GuiContext
draw_corner x y w h bg_color border_color radius j i ctx =
    let dx = radius - 1 - i in
    let dy = radius - 1 - j in
    let color = if leb (radius * radius) (dx * dx + dy * dy) then border_color else bg_color in
    let right = x +ℤ w -ℤ pos 1 -ℤ pos i in
    let bottom = y +ℤ h -ℤ pos 1 -ℤ pos j in
    let one = gui_fill_rect ctx (x +ℤ pos i) (y +ℤ pos j) (pos 1) (pos 1) color in
    let two = gui_fill_rect one right (y +ℤ pos j) (pos 1) (pos 1) color in
    let three = gui_fill_rect two (x +ℤ pos i) bottom (pos 1) (pos 1) color in
    gui_fill_rect three right bottom (pos 1) (pos 1) color

-- A window with round corners, where the radius is positive and has been limited.
unfoldable pub draw_rounded : GuiContext → ℤ → ℤ → ℤ → ℤ → ℕ → ℕ → ℤ → GuiContext
draw_rounded ctx x y w h bg_color border_color r =
    let inner_w = w -ℤ double r in
    let inner_h = h -ℤ double r in
    let top = gui_fill_rect ctx (x +ℤ r) y inner_w r border_color in
    let bottom = gui_fill_rect top (x +ℤ r) (y +ℤ h -ℤ r) inner_w r border_color in
    let left = gui_fill_rect bottom x (y +ℤ r) r inner_h border_color in
    let right = gui_fill_rect left (x +ℤ w -ℤ r) (y +ℤ r) r inner_h border_color in
    let middle = gui_fill_rect right (x +ℤ r) (y +ℤ r) inner_w inner_h bg_color in
    for_range (pos_part r) 0
      (λ j c. for_range (pos_part r) 0 (draw_corner x y w h bg_color border_color (pos_part r) j) c)
      middle

unfoldable pub draw_square : GuiContext → ℤ → ℤ → ℤ → ℤ → ℕ → ℕ → GuiContext
draw_square ctx x y w h bg_color border_color =
    let top = gui_fill_rect ctx x y w (pos 1) border_color in
    let bottom = gui_fill_rect top x (y +ℤ h -ℤ pos 1) w (pos 1) border_color in
    let left = gui_fill_rect bottom x y (pos 1) h border_color in
    let right = gui_fill_rect left (x +ℤ w -ℤ pos 1) y (pos 1) h border_color in
    gui_fill_rect right (x +ℤ pos 1) (y +ℤ pos 1) (w -ℤ pos 2) (h -ℤ pos 2) bg_color

unfoldable pub gui_draw_window : GuiContext → ℤ → ℤ → ℤ → ℤ → ℕ → ℕ → ℤ → GuiContext
gui_draw_window ctx x y w h bg_color border_color radius =
    let by_width = if ltb_ℤ w (double radius) then half w else radius in
    let limited = if ltb_ℤ h (double by_width) then half h else by_width in
    if ltb_ℤ w (pos 3) || ltb_ℤ h (pos 3)
    then ctx
    else if ltb_ℤ radius (pos 1)
    then draw_square ctx x y w h bg_color border_color
    else draw_rounded ctx x y w h bg_color border_color limited

unfoldable pub gui_draw_desktop : GuiContext → GuiContext
gui_draw_desktop ctx =
    gui_draw_window (gui_fill_rect ctx (pos 0) (pos 0) (pos ctx.width) (pos ctx.height) 0x002244)
      (pos 50) (pos 50) (pos (ctx.width / 2)) (pos (ctx.height / 2)) 0xcccccc 0 (pos 8)

abbrev pub arrow : List ℕ
arrow = 0x80 ∷ 0xC0 ∷ 0xA0 ∷ 0x90 ∷ 0x88 ∷ 0x84 ∷ 0x82 ∷ 0xFF ∷ []

unfoldable pub gui_draw_cursor : GuiContext → ℤ → ℤ → ℕ → GuiContext
gui_draw_cursor ctx x y color =
    for_range 8 0
      (λ j c.
        for_range 8 0
          (λ i c'.
            if not (bit_and (get_or arrow j 0) (0x80 / 2 ^ i) == 0)
            then gui_fill_rect c' (x +ℤ pos i) (y +ℤ pos j) (pos 1) (pos 1) color
            else c')
          c)
      ctx

-- The copy of row `j` to the screen.
unfoldable pub flush_row : ℕ → GuiContext → GuiContext
flush_row j ctx = record ctx {
  fb = λ a.
      if leb (j * ctx.pitch) a && ltb a (j * ctx.pitch + ctx.width)
      then ctx.backbuffer (j * ctx.width + (a - j * ctx.pitch))
      else ctx.fb a;
}

unfoldable pub gui_flush : GuiContext → GuiContext
gui_flush ctx = for_range ctx.height 0 flush_row ctx

pub data WindowState : Type 0 where
  normal minimized maximized closed : WindowState

pub record GuiWindow : Type 0 where
  pub x : ℤ
  pub y : ℤ
  pub w : ℤ
  pub h : ℤ
  pub state : WindowState

-- The three buttons of a window's title.
unfoldable pub draw_buttons : GuiContext → ℤ → ℤ → ℤ → GuiContext
draw_buttons ctx x y w =
    let min_button = gui_fill_rect ctx (x +ℤ w -ℤ pos 45) (y +ℤ pos 2) (pos 12) (pos 12) 0x666666 in
    let max_button =
      gui_fill_rect min_button (x +ℤ w -ℤ pos 30) (y +ℤ pos 2) (pos 12) (pos 12) 0x666666 in
    gui_fill_rect max_button (x +ℤ w -ℤ pos 15) (y +ℤ pos 2) (pos 12) (pos 12) 0x666666

abbrev pub draw_framed : GuiContext → ℤ → ℤ → ℤ → ℤ → ℕ → ℕ → GuiContext
draw_framed ctx x y w h bg_color border_color =
    draw_buttons (gui_draw_window ctx x y w h bg_color border_color (pos 8)) x y w

unfoldable pub gui_draw_window_ex : GuiContext → GuiWindow → ℕ → ℕ → GuiContext
gui_draw_window_ex ctx win bg_color border_color = elim win.state [
  | closed ↦ ctx
  | maximized ↦
      draw_framed ctx (pos 0) (pos 0) (pos ctx.width) (pos ctx.height) bg_color border_color
  | minimized ↦ draw_framed ctx win.x win.y win.w (pos 20) bg_color border_color
  | normal ↦ draw_framed ctx win.x win.y win.w win.h bg_color border_color
]

abbrev pub is_closed : WindowState → Bool
is_closed closed = true
is_closed _ = false

abbrev pub toggle : WindowState → WindowState
toggle maximized = normal
toggle _ = maximized

unfoldable pub gui_window_handle_click : GuiWindow → ℤ → ℤ → GuiWindow × Bool
gui_window_handle_click win x y =
    let rel = x -ℤ win.x in
    let from_min = not (ltb_ℤ rel (win.w -ℤ pos 45)) in
    let from_max = not (ltb_ℤ rel (win.w -ℤ pos 30)) in
    let from_close = not (ltb_ℤ rel (win.w -ℤ pos 15)) in
    if is_closed win.state
    then (win, false)
    else if ltb_ℤ x win.x
        || not (ltb_ℤ x (win.x +ℤ win.w))
        || ltb_ℤ y win.y
        || not (ltb_ℤ y (win.y +ℤ pos 20))
    then (win, false)
    else if from_min && not from_max
    then (record win { state = minimized }, true)
    else if from_max && not from_close
    then (record win { state = toggle win.state }, true)
    else if from_close
    then (record win { state = closed }, true)
    else (win, false)
