-- ===== src/Shell/Keys.antt =====
-- The keys of the line editor as edits of the line.
use model_lib.Base.{
  ℕ, ◌+◌, ◌-◌, ◌≤◌, ◌<◌, ◌≡◌, inl, inr, refl, arith, ◌==◌, ltb, if◌then◌else◌, some, update,
  Bool-cases, ap, ◌∙◌, sym,
}
use model_lib.Screen.{Screen, vga_get_cursor, word_of, cells}
use model_lib.Screen.Cursor.{get_cursor-text, move_cursor-inside}
use model_lib.Shell.{Line, line_color, put_char, insert, drop_char, backspace}
use model_lib.Shell.Edit.{
  OnScreen, Shows, put_cell-ok, Shifted, between, shift_right-Shifted, shift_left-Shifted,
}

-- The line after an edit: on the screen, with the given offset, length and characters.
pub record Edited (e f : Line) (off len : ℕ) (chars : ℕ → ℕ) : Type 0 where
  pub start : f.start ≡ e.start
  pub off_is : f.off ≡ off
  pub len_is : f.len ≡ len
  pub cursor : vga_get_cursor f.screen ≡ e.start + off
  pub buf : (i : ℕ) → i < len → f.buf i ≡ chars i
  pub shows : (i : ℕ) → i < len → f.screen.textbuf (e.start + i) ≡ word_of (chars i) line_color

-- The characters of a line with one more at the offset, and with the one before it taken out.
abbrev pub with_char : Line → ℕ → ℕ → ℕ
with_char e c i = if ltb i e.off then e.buf i else if i == e.off then c else e.buf (i - 1)

abbrev pub without_char : Line → ℕ → ℕ
without_char e i = if ltb i (e.off - 1) then e.buf i else e.buf (i + 1)

-- The line after an edit is shown, and on the screen if there is room.
module _ {e f : Line} {off len : ℕ} {chars : ℕ → ℕ} (d : Edited e f off len chars) where
  pub Edited-Shows : Shows f
  Edited-Shows i h =
      let in_line : i < len = omega (arith, d.len_is) in
      rw d.start (d.shows i in_line ∙ ap (λ c. word_of c line_color) (sym (d.buf i in_line)))

  pub Edited-OnScreen : off ≤ len → e.start + len + 1 < cells → OnScreen f
  Edited-OnScreen inside room = record {
    inside = omega (arith, d.off_is, d.len_is);
    room = omega (arith, d.start, d.len_is);
    cursor = omega (arith, d.cursor, d.start, d.off_is);
  }

put_char-Edited :
    (c : ℕ) (e f : Line)
    → OnScreen e
    → Shows e
    → Shifted e f (between (e.off + 1) (e.off + 1 + (e.len - e.off))) (λ i. i - 1)
    → (g : Line) × (put_char c f ≡ some g) × Edited e g (e.off + 1) (e.len + 1) (with_char e c)
unfolding put_char
put_char-Edited c e f on shows g =
    let put = put_cell-ok f f.off c (omega (arith, g.start, g.off, on.room, on.inside)) in
    let v : Screen = record f.screen {
      textbuf = update f.screen.textbuf (f.start + f.off) (word_of c line_color);
    } in
    let at : vga_get_cursor v ≡ e.start + e.off =
      get_cursor-text f.screen _ ∙ g.cursor ∙ on.cursor in
    let (w, run, cursor, text) =
      move_cursor-inside (vga_get_cursor v + 1) v (omega (arith, at, on.room, on.inside)) in
    rw (put, run)
      (
        _,
        refl,
        record {
          start = g.start;
          off_is = omega (arith, g.off);
          len_is = omega (arith, g.len);
          cursor = omega (arith, cursor, at, on.room, on.inside);
          buf = λ i h. ground (arith, g.buf i, g.off, on.inside);
          shows = λ i h. ap (λ (x : ℕ → ℕ). x (e.start + i)) text ∙ cell i h;
        },
      )
  where
    -- The cell of character `i`, once the new character is put.
    cell :
        (i : ℕ)
        → i < e.len + 1
        → update f.screen.textbuf (f.start + f.off) (word_of c line_color) (e.start + i)
          ≡ word_of (with_char e c i) line_color
    cell i h = elim (Bool-cases (ltb i e.off)) [
      | inl before ↦ ground (arith, g.text i, g.off, g.start, shows i (ground (arith, on.inside)))
      | inr after ↦ ground (arith, g.text i, g.off, g.start, on.inside)
    ]

drop_char-Edited :
    (e f : Line)
    → OnScreen e
    → Shows e
    → 0 < e.off
    → Shifted e f (between (e.off - 1) (e.off - 1 + (e.len + 1 - e.off))) (λ i. i + 1)
    → (g : Line) × (drop_char f ≡ some g)
      × Edited e g (e.off - 1) (e.len - 1) (without_char e)
      × (g.screen.textbuf (e.start + (e.len - 1)) ≡ word_of 32 line_color)
unfolding drop_char
drop_char-Edited e f on shows pos g =
    let put = put_cell-ok f (f.len - 1) 32 (omega (arith, g.start, g.len, on.room, on.inside)) in
    let v : Screen = record f.screen {
      textbuf = update f.screen.textbuf (f.start + (f.len - 1)) (word_of 32 line_color);
    } in
    let at : vga_get_cursor v ≡ e.start + e.off =
      get_cursor-text f.screen _ ∙ g.cursor ∙ on.cursor in
    let (w, run, cursor, text) =
      move_cursor-inside (vga_get_cursor v + 65536 - 1) v (omega (arith, at, on.room, on.inside)) in
    rw (put, run)
      (
        _,
        refl,
        record {
          start = g.start;
          off_is = omega (arith, g.off);
          len_is = omega (arith, g.len);
          cursor = omega (arith, cursor, at, on.room, on.inside, pos);
          buf = λ i h. ground (arith, g.buf i, on.inside);
          shows = λ i h. ap (λ (x : ℕ → ℕ). x (e.start + i)) text ∙ cell i h;
        },
        ap (λ (x : ℕ → ℕ). x (e.start + (e.len - 1))) text ∙ freed,
      )
  where
    freed :
        update f.screen.textbuf
          (f.start + (f.len - 1))
          (word_of 32 line_color)
          (e.start + (e.len - 1))
        ≡ word_of 32 line_color
    freed = ground (arith, g.len, g.start)

    cell :
        (i : ℕ)
        → i < e.len - 1
        → update f.screen.textbuf (f.start + (f.len - 1)) (word_of 32 line_color) (e.start + i)
          ≡ word_of (without_char e i) line_color
    cell i h = elim (Bool-cases (ltb i (e.off - 1))) [
      | inl before ↦ ground (arith, g.text i, g.len, g.start, shows i (omega arith))
      | inr after ↦ ground (arith, g.text i, g.len, g.start, on.inside)
    ]

-- The insertion of a character into a line that the screen shows, with room for one more character behind it,
-- does not panic: the character stands at the offset, those from the offset on have moved right, the
-- offset and the cursor are behind it, and the screen shows the new line.
pub insert-Edited :
    (c : ℕ) (e : Line)
    → OnScreen e
    → Shows e
    → (g : Line) × (insert c e ≡ some g) × Edited e g (e.off + 1) (e.len + 1) (with_char e c)
unfolding insert
insert-Edited c e on shows =
    let (f, run, g) = shift_right-Shifted (e.len - e.off) e (omega (arith, on.room, on.inside)) in
    rw run (put_char-Edited c e f on shows g)

-- The backspace key behind a character of a line that the screen shows, with room for one more
-- character behind it, does not panic: the character is gone, those behind it have moved left, the
-- offset and the cursor with them, and the screen shows the new line, with a space in the cell that
-- the line has given up.
pub backspace-Edited :
    (e : Line)
    → OnScreen e
    → Shows e
    → 0 < e.off
    → (g : Line) × (backspace e ≡ some g)
      × Edited e g (e.off - 1) (e.len - 1) (without_char e)
      × (g.screen.textbuf (e.start + (e.len - 1)) ≡ word_of 32 line_color)
unfolding backspace
backspace-Edited e on shows pos =
    let (f, run, g) =
      shift_left-Shifted (e.len + 1 - e.off) (e.off - 1) e (omega (arith, on.room, on.inside)) in
    rw run (drop_char-Edited e f on shows pos g)

-- A character that is typed and then deleted leaves the line as it was: its characters, its length,
-- the offset, the cursor, and what the screen shows of it. The line has room for two more characters
-- on the screen.
pub insert-backspace :
    (c : ℕ) (e : Line)
    → OnScreen e
    → Shows e
    → e.start + e.len + 2 < cells
    → (f g : Line) × (insert c e ≡ some f)
      × (backspace f ≡ some g)
      × (g.start ≡ e.start)
      × (g.off ≡ e.off)
      × (g.len ≡ e.len)
      × (vga_get_cursor g.screen ≡ vga_get_cursor e.screen)
      × ((i : ℕ) → i < e.len → g.buf i ≡ e.buf i)
      × Shows g
insert-backspace c e on shows room =
    let (f, typed, a) = insert-Edited c e on shows in
    let (g, gone, b, _) =
      backspace-Edited f (Edited-OnScreen a (omega (arith, on.inside)) (omega arith))
        (Edited-Shows a) (omega (arith, a.off_is)) in
    (
      f,
      g,
      typed,
      gone,
      b.start ∙ a.start,
      omega (arith, a.off_is, b.off_is),
      omega (arith, a.len_is, b.len_is),
      omega (arith, b.cursor, a.start, a.off_is, on.cursor),
      λ i h. b.buf i (omega (arith, a.len_is)) ∙ undone f a i h,
      Edited-Shows b,
    )
  where
    undone :
        (f : Line)
        → Edited e f (e.off + 1) (e.len + 1) (with_char e c)
        → (i : ℕ) → i < e.len
        → without_char f i ≡ e.buf i
    undone f a i h = ground (
      arith,
      a.off_is,
      a.buf i (omega arith),
      a.buf (i + 1) (omega arith),
      ap e.buf (let q : i + 1 - 1 ≡ i = omega arith in q),
    )
