-- ===== src/Shell.antt =====
-- The line editor of `shell` and the word splitter `nextword` of grab/shell.c. A call that panics, as
-- the screen does for a place outside it, gives `none`.
pub mod Edit
pub mod Keys
pub mod Bounds
pub mod Words
mod Menu
pub mod Commands
mod Tests
use model_lib.Base.{
  ℕ, zero, suc, ◌+◌, ◌-◌, ◌*◌, ◌/◌, ◌%◌, Bool, true, false, not, ◌==◌, ◌&&◌, ◌||◌, ltb, leb,
  if◌then◌else◌, u16, Option, none, some, update, List, [], ◌∷◌,
}
use model_lib.Kbd.Keys.{key_l_arrow, key_r_arrow}
use model_lib.Screen.{Screen, vga_get_cursor, vga_putchar, move_cursor}
use model_lib.Text.{isprint, isspace}

abbrev pub cmdlen : ℕ
cmdlen = 160

-- `BGND_BLACK | FGND_WHITE`
abbrev pub line_color : ℕ
line_color = 15

-- The variables of `shell` that define the command being entered, and the screen.
pub record Line : Type 0 where
  pub start : ℕ
  pub off : ℕ
  pub len : ℕ
  pub buf : ℕ → ℕ
  pub screen : Screen

-- The next statement of the loop, where the screen has not panicked.
abbrev pub shown : Option Screen → (Screen → Option Line) → Option Line
shown none k = none
shown (some v) k = k v

abbrev pub then_line : Option Line → (Line → Option Line) → Option Line
then_line none k = none
then_line (some e) k = k e

-- `vga_putchar(start + i, c, COLOR)`
abbrev pub put_cell : Line → ℕ → ℕ → Option Screen
put_cell e i c = vga_putchar (u16 (e.start + i)) c line_color e.screen

-- `for (int i = len; i > off; i--)` from `i = off + rounds` down: the characters move right.
pub shift_right : ℕ → Line → Option Line
shift_right zero e = some e
shift_right (suc rounds) e = shown (put_cell e (e.off + suc rounds) (e.buf (e.off + rounds))) λ v.
    shift_right rounds
      (record e { buf = update e.buf (e.off + suc rounds) (e.buf (e.off + rounds)); screen = v })

-- `for (int i = off - 1; i < len; i++)` with `rounds` left: the characters move left.
pub shift_left : ℕ → ℕ → Line → Option Line
shift_left zero i e = some e
shift_left (suc rounds) i e =
    shown (put_cell e i (e.buf (i + 1)))
      λ v. shift_left rounds (i + 1) (record e { buf = update e.buf i (e.buf (i + 1)); screen = v })

-- A printable character, once the others have moved.
put_char : ℕ → Line → Option Line
put_char data_byte e = shown (put_cell e e.off data_byte) λ v.
    shown (move_cursor (vga_get_cursor v + 1) v) λ w. some (record e {
      buf = update e.buf e.off data_byte;
      off = e.off + 1;
      len = e.len + 1;
      screen = w;
    })

pub insert : ℕ → Line → Option Line
unfolding put_char
insert data_byte e = then_line (shift_right (e.len - e.off) e) (put_char data_byte)

-- The end of a deletion, once the others have moved.
drop_char : Line → Option Line
drop_char e = shown (put_cell e (e.len - 1) 32) λ v.
    shown (move_cursor (vga_get_cursor v + 65536 - 1) v)
      λ w. some (record e { off = e.off - 1; len = e.len - 1; screen = w })

pub backspace : Line → Option Line
unfolding drop_char
backspace e = then_line (shift_left (e.len + 1 - e.off) (e.off - 1) e) drop_char

pub left_arrow : Line → Option Line
left_arrow e =
    shown (move_cursor (vga_get_cursor e.screen + 65536 - 1) e.screen)
      λ v. some (record e { off = e.off - 1; screen = v })

pub right_arrow : Line → Option Line
right_arrow e =
    shown (move_cursor (vga_get_cursor e.screen + 1) e.screen)
      λ v. some (record e { off = e.off + 1; screen = v })

-- The chain of tests of the loop, for a character other than a newline.
pub edit_key : ℕ → Line → Option Line
edit_key data_byte e =
    if isprint data_byte && ltb e.len (cmdlen - 1)
    then insert data_byte e
    else if data_byte == key_l_arrow && ltb 0 e.off
    then left_arrow e
    else if data_byte == key_r_arrow && ltb e.off e.len
    then right_arrow e
    else if data_byte == 8 && ltb 0 e.off
    then backspace e
    else some e

-- A newline: the buffer with its terminating zero, which `process_command` is given.
pub command_of : Line → ℕ → ℕ
command_of e = update e.buf e.len 0

-- `for (; *p && isspace(*p); p++)`, on the array from `p` on.
pub skip_spaces : List ℕ → Option (List ℕ)
skip_spaces [] = none
skip_spaces (c ∷ s) =
    let rest = skip_spaces s in if not (c == 0) && isspace c then rest else some (c ∷ s)

-- `for (; *p && !isspace(*p); p++)`: the characters passed, and the array from there on.
pub take_word : List ℕ → Option (List ℕ × List ℕ)
take_word [] = none
take_word (c ∷ s) =
    if not (c == 0) && not (isspace c) then passed (take_word s) else some ([], c ∷ s)
  where
    passed : Option (List ℕ × List ℕ) → Option (List ℕ × List ℕ)
    passed none = none
    passed (some (word, rest)) = some (c ∷ word, rest)

-- The array behind the word: 0 if the array ends there, and else the rest, after a zero has been
-- written over the separator.
abbrev rest_of : List ℕ → Option (List ℕ)
rest_of [] = none
rest_of (c ∷ s) = if c == 0 then none else some s

-- `*word` is 0 where only spaces are left.
abbrev word_or_null : List ℕ → List ℕ → Option (List ℕ)
word_or_null [] word = none
word_or_null (c ∷ s) word = if c == 0 then none else some word

-- The results of `nextword`, for the array `q` behind the spaces.
abbrev word_results : List ℕ → Option (List ℕ × List ℕ) → Option (Option (List ℕ) × Option (List ℕ))
word_results q none = none
word_results q (some (word, rest)) = some (word_or_null q word, rest_of rest)

abbrev from_word : Option (List ℕ) → Option (Option (List ℕ) × Option (List ℕ))
from_word none = none
from_word (some q) = word_results q (take_word q)

-- The outer `none` is a read past the array; then the word, and the array to go on with.
pub nextword : List ℕ → Option (Option (List ℕ) × Option (List ℕ))
nextword p = from_word (skip_spaces p)
