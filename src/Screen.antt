-- ===== src/Screen.antt =====
-- The text screen of grab/vga.c and the character output of grab/printf.c. The text buffer holds
-- 16-bit words, the character below the colour; the cursor is in two registers of the controller.
-- A call that panics gives `none`.
pub mod Cursor
mod Tests
use model_lib.Base.{
  ℕ, zero, suc, ◌+◌, ◌-◌, ◌*◌, ◌/◌, ◌%◌, Bool, true, false, not, ◌==◌, ◌&&◌, ◌||◌, ltb, leb,
  if◌then◌else◌, u8, u16, Option, none, some, update, List, [], ◌∷◌, set_bit, clear_bit,
}

pub record Screen : Type 0 where
  pub textbuf : ℕ → ℕ
  pub crtc : ℕ → ℕ
  pub color : ℕ

abbrev pub cells : ℕ
cells = 2000

abbrev pub idx_low : ℕ
idx_low = 15

abbrev pub idx_high : ℕ
idx_high = 14

abbrev pub idx_ctrl : ℕ
idx_ctrl = 10

-- `BGND_BLACK | FGND_WHITE`
abbrev pub black_white : ℕ
black_white = 15

pub crtc_read : ℕ → Screen → ℕ
crtc_read index v = v.crtc index

pub crtc_write : ℕ → ℕ → Screen → Screen
crtc_write data_byte index v = record v { crtc = update v.crtc index (u8 data_byte) }

-- The two bytes do not overlap, so `|` is a sum.
pub vga_get_cursor : Screen → ℕ
unfolding crtc_read
vga_get_cursor v = crtc_read idx_low v + crtc_read idx_high v * 256

pub vga_set_cursor : ℕ → Screen → Option Screen
unfolding crtc_write
vga_set_cursor off v =
    if leb cells off
    then none
    else some (crtc_write (off / 256) idx_high (crtc_write off idx_low v))

-- `CURSOR_CTRL_EN` is bit 5.
pub vga_hide_cursor : Screen → Screen
unfolding crtc_read crtc_write
vga_hide_cursor v = crtc_write (set_bit (crtc_read idx_ctrl v) 5) idx_ctrl v

-- `& ~CURSOR_CTRL_EN`
pub vga_show_cursor : Screen → Screen
unfolding crtc_read crtc_write
vga_show_cursor v = crtc_write (clear_bit (crtc_read idx_ctrl v) 5) idx_ctrl v

-- A cell with its character cleared and its colour kept: `& 0xff00`.
abbrev pub blank : ℕ → ℕ
blank word = word / 256 % 256 * 256

pub vga_reset : Screen → Option Screen
unfolding vga_set_cursor
vga_reset v =
    vga_set_cursor 0
      (record v { textbuf = λ i. if ltb i cells then blank (v.textbuf i) else v.textbuf i })

-- The word for a character: `c | color << 8`, with a default for the colour 0.
abbrev pub word_of : ℕ → ℕ → ℕ
word_of c color = c + (if color == 0 then black_white else color) * 256

pub vga_putchar : ℕ → ℕ → ℕ → Screen → Option Screen
vga_putchar off c color v =
    if leb cells off
    then none
    else some (record v { textbuf = update v.textbuf off (word_of c color) })

-- `memcpy` moves the rows 1 to 24 up, and the last row is cleared.
abbrev pub scrolled : (ℕ → ℕ) → ℕ → ℕ
scrolled t i = if ltb i 1920 then t (i + 80) else if ltb i cells then blank (t i) else t i

pub vga_scroll : ℕ → Screen → ℕ × Screen
vga_scroll off v =
    if ltb off cells then (off, v) else (1920, record v { textbuf = scrolled v.textbuf })

pub vga_set_color : ℕ → ℕ → Screen → Option Screen
vga_set_color row color v =
    if leb 25 row
    then none
    else some (record v {
      textbuf = λ i.
          if leb (row * 80) i && ltb i (row * 80 + 80)
          then v.textbuf i % 256 + color * 256
          else v.textbuf i;
    })

-- `vga_set_cursor(vga_scroll(off))`
pub move_cursor : ℕ → Screen → Option Screen
unfolding vga_scroll vga_set_cursor
move_cursor off v = vga_set_cursor (vga_scroll (u16 off) v).0 (vga_scroll (u16 off) v).1

abbrev at_offset : ℕ → Option Screen → Option (ℕ × Screen)
at_offset off none = none
at_offset off (some v) = some (off, v)

-- The `switch` of `putchar`, for the cursor `off`: the screen, if it does not panic, and the new
-- offset.
put_at : ℕ → ℕ → Screen → Option (ℕ × Screen)
put_at c off v =
    if c == 10 || c == 13
    then some (off + 80 - off % 80, v)
    else if c == 8
    then (if off == 0
        then some (off, v)
        else at_offset (off - 1) (vga_putchar (off - 1) 32 v.color v))
    else if c == 9
    then some (off + 4, v)
    else at_offset (off + 1) (vga_putchar off c v.color v)

abbrev settle : Option (ℕ × Screen) → Option Screen
settle none = none
settle (some (off, v)) = move_cursor off v

pub putchar : ℕ → Screen → Option Screen
putchar c v = settle (put_at c (vga_get_cursor v) v)

-- `_string` on the characters before the terminating zero: 1024 at most are put.
pub put_string : ℕ → List ℕ → Screen → Option (ℕ × Screen)
put_string l [] v = some (l, v)
put_string l (c ∷ s) v =
    if ltb l 1024
    then elim (putchar c v) [ none ↦ none | some w ↦ put_string (l + 1) s w ]
    else some (l, v)
