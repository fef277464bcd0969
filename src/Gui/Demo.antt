-- ===== src/Gui/Demo.antt =====
-- gui_run_demo of kernel/src/src/gui.c, round by round. What the status and the data port of the mouse
-- answer to each poll is a list; `none` says that the demo waits for more of it, or that a coordinate of
-- the mouse overflows.
use ppo_os.Common.{
  ℕ, zero, suc, ◌/◌, ◌<◌, ◌≡◌, bit_and, not, List, [], ◌∷◌, Option, none, some, arith, ◌==◌,
  if◌then◌else◌, option_case,
}
use ppo_os.Common.Int.{ℤ, pos, ◌-ℤ◌, ltb_ℤ, pos_part}
use ppo_os.Mouse.{Mouse, mouse_init, mouse_poll}
use ppo_os.Gui.{
  GuiContext, GuiWindow, normal, gui_draw_desktop, gui_draw_window_ex, gui_draw_cursor, gui_flush,
  gui_window_handle_click,
}

-- The two tests of a coordinate; the conversion of `bound - 1` to `int` makes it -1 for an empty screen.
unfoldable pub keep_inside : ℤ → ℕ → ℤ
keep_inside v bound =
    let low = if ltb_ℤ v (pos 0) then pos 0 else v in
    if not (ltb_ℤ low (pos bound)) then pos bound -ℤ pos 1 else low

unfoldable pub clamp_mouse : GuiContext → Mouse → Mouse
clamp_mouse ctx ms = record ms { x = keep_inside ms.x ctx.width; y = keep_inside ms.y ctx.height }

unfoldable pub draw_round : GuiContext → GuiWindow → Mouse → GuiContext
draw_round ctx win ms =
    let desktop = gui_draw_desktop ctx in
    let window = gui_draw_window_ex desktop win 0xcccccc 0 in
    gui_flush (gui_draw_cursor window ms.x ms.y 0xffffff)

-- `while (mouse_get_state()->buttons & 1) mouse_poll();`
unfoldable pub wait_release : List (Option ℕ) → Mouse → Option (Mouse × List (Option ℕ))
wait_release [] ms = if bit_and ms.buttons 1 == 0 then some (ms, []) else none
wait_release (answer ∷ answers) ms =
    let rest = option_case (mouse_poll ms answer) none (wait_release answers) in
    if bit_and ms.buttons 1 == 0 then some (ms, answer ∷ answers) else rest

pub record Demo : Type 0 where
  pub ctx : GuiContext
  pub win : GuiWindow
  pub mouse : Mouse

unfoldable pub demo_round : Demo → List (Option ℕ) → Option (Demo × List (Option ℕ))
demo_round d [] = none
demo_round d (answer ∷ answers) = option_case (mouse_poll d.mouse answer) none λ polled.
    let ms = clamp_mouse d.ctx polled in
    let drawn = record d { ctx = draw_round d.ctx d.win ms; mouse = ms } in
    let (clicked, hit) = gui_window_handle_click d.win ms.x ms.y in
    if bit_and ms.buttons 1 == 0
    then some (drawn, answers)
    else if hit
    then option_case (wait_release answers ms) none
        (λ (released, rest). some (record drawn { win = clicked; mouse = released }, rest))
    else some (record drawn { win = clicked }, answers)

-- The start of the demo, and so many rounds of its endless loop.
unfoldable pub demo_start : GuiContext → Mouse → Demo
demo_start ctx ms = record {
  ctx = ctx;
  win = record {
    x = pos 50;
    y = pos 50;
    w = pos (ctx.width / 2);
    h = pos (ctx.height / 2);
    state = normal;
  };
  mouse = mouse_init ms;
}

unfoldable pub demo_rounds : ℕ → Demo → List (Option ℕ) → Option (Demo × List (Option ℕ))
demo_rounds zero d answers = some (d, answers)
demo_rounds (suc n) d answers =
    option_case (demo_round d answers) none (λ (next, rest). demo_rounds n next rest)

-- On a screen that is not empty a coordinate that was kept inside is one of the screen.
pub keep_inside_bounds :
    (v : ℤ) (bound : ℕ)
    → 0 < bound
    → (keep_inside v bound ≡ pos (pos_part (keep_inside v bound)))
      × (pos_part (keep_inside v bound) < bound)
unfolding keep_inside
keep_inside_bounds v bound some_screen = ground arith
