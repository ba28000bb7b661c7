-- ===== src/Shell/Tests.antt =====
-- Runs of the line editor and of `nextword`.
use model_lib.Base.{ℕ, ◌+◌, ◌-◌, ◌≡◌, refl, arith, some, if◌then◌else◌, ◌==◌}
use model_lib.Screen.{Screen, word_of}
use model_lib.Screen.Cursor.{get_cursor-value}
use model_lib.Shell.{Line, insert, backspace, edit_key, line_color}
use model_lib.Shell.Edit.{OnScreen, Shows}
use model_lib.Shell.Keys.{Edited, with_char, without_char, insert-Edited, backspace-Edited}
use model_lib.Shell.Bounds.{InBuffer, edit_key-InBuffer}

-- `ac` at offset 6 of the screen, with the cursor between the two characters.
abbrev chars : ℕ → ℕ
chars i = if i == 0 then 97 else 99

abbrev screen_ac : Screen
screen_ac = record {
  textbuf = λ i. word_of (chars (i - 6)) line_color;
  crtc = λ i. if i == 15 then 7 else 0;
  color = 0;
}

abbrev line_ac : Line
line_ac = record { start = 6; off = 1; len = 2; buf = chars; screen = screen_ac }

line_ac-OnScreen : OnScreen line_ac
line_ac-OnScreen = record {
  inside = omega arith;
  room = omega arith;
  cursor = get_cursor-value screen_ac;
}

line_ac-Shows : Shows line_ac
line_ac-Shows i h = let e : 6 + i - 6 ≡ i = omega arith in rw e

insert-Edited_example :
    (g : Line) × (insert 98 line_ac ≡ some g) × Edited line_ac g 2 3 (with_char line_ac 98)
insert-Edited_example = insert-Edited 98 line_ac line_ac-OnScreen line_ac-Shows

backspace-Edited_example :
    (g : Line) × (backspace line_ac ≡ some g)
    × Edited line_ac g 0 1 (without_char line_ac)
    × (g.screen.textbuf (6 + 1) ≡ word_of 32 line_color)
backspace-Edited_example = backspace-Edited line_ac line_ac-OnScreen line_ac-Shows (omega arith)

-- A key that does nothing.
quiet_key : edit_key 200 line_ac ≡ some line_ac
unfolding edit_key
quiet_key = refl

edit_key-InBuffer_example : InBuffer line_ac
edit_key-InBuffer_example =
    edit_key-InBuffer 200 line_ac (record { inside = omega arith; room = omega arith }) quiet_key

-- The prompt `grab> ` in the last row, and 74 characters behind it.
abbrev full_row : Line
full_row = record { start = 1926; off = 74; len = 74; buf = λ i. 97; screen = screen_ac }
