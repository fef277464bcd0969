-- ===== src/Gui/Tests.antt =====
-- A window of 100 by 50 at (10, 10).
use ppo_os.Common.{◌≡◌, refl, true, arith}
use ppo_os.Common.Int.{pos}
use ppo_os.Gui.Fill.{gui_fill_rect_lem}
use ppo_os.Gui.{
  GuiContext, GuiWindow, normal, closed, gui_fill_rect, fill_rows, fill_row,
  gui_window_handle_click,
}

abbrev window : GuiWindow
window = record { x = pos 10; y = pos 10; w = pos 100; h = pos 50; state = normal }

-- A click on the last button closes the window.
close_run :
    gui_window_handle_click window (pos 100) (pos 15) ≡ (record window { state = closed }, true)
unfolding gui_window_handle_click
close_run = refl

abbrev screen : GuiContext
screen = record { fb = λ a. 0; backbuffer = λ a. 0; width = 4; height = 3; pitch = 4 }

-- A rectangle that runs out of the screen at the right is cut there.
gui_fill_rect_lem_example :
    (gui_fill_rect screen (pos 2) (pos 1) (pos 5) (pos 1) 7).backbuffer 7 ≡ 7
gui_fill_rect_lem_example =
    gui_fill_rect_lem screen (pos 2) (pos 1) (pos 5) (pos 1) 7 3 1 (omega arith)

-- Nothing is written to the row below.
clip_below : (gui_fill_rect screen (pos 2) (pos 1) (pos 5) (pos 1) 7).backbuffer 8 ≡ 0
unfolding gui_fill_rect fill_rows fill_row
clip_below = refl
