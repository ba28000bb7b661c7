-- ===== src/Screen/Tests.antt =====
-- Runs of the screen.
use model_lib.Base.{◌<◌, ◌≡◌, arith, some, if◌then◌else◌, ltb, ◌==◌}
use model_lib.Screen.{Screen, cells, vga_get_cursor, crtc_read, putchar}
use model_lib.Screen.Cursor.{target, putchar-cursor}

-- The cursor is in the last cell.
abbrev last_cell : Screen
last_cell = record {
  textbuf = λ i. 0;
  crtc = λ i. if i == 14 then 7 else if i == 15 then 207 else 0;
  color = 0;
}

at_last_cell : vga_get_cursor last_cell < cells
unfolding vga_get_cursor crtc_read
at_last_cell = omega arith

putchar-cursor_example :
    (w : Screen) × (putchar 97 last_cell ≡ some w)
    × (vga_get_cursor w < cells)
    × (vga_get_cursor w ≡ (
        if ltb (target 97 (vga_get_cursor last_cell)) cells
        then target 97 (vga_get_cursor last_cell)
        else 1920))
putchar-cursor_example = putchar-cursor 97 last_cell at_last_cell
