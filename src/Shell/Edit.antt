-- ===== src/Shell/Edit.antt =====
-- The line editor as an edit of a line of characters.
use model_lib.Base.{
  ℕ, zero, suc, ◌+◌, ◌-◌, ◌≤◌, ◌<◌, ◌≡◌, inl, inr, refl, arith, Bool, ◌==◌, ◌&&◌, ltb, leb,
  if◌then◌else◌, u16, some, update, Bool-cases, ==_iff, ◌∙◌,
}
use model_lib.Screen.{vga_get_cursor, word_of, cells}
use model_lib.Screen.Cursor.{get_cursor-text, vga_putchar-ok}
use model_lib.Shell.{Line, line_color, put_cell, shift_right, shift_left}

-- The line fits on the screen with its cursor and one more character, and the cursor stands at the
-- offset.
pub record OnScreen (e : Line) : Type 0 where
  pub inside : e.off ≤ e.len
  pub room : e.start + e.len + 1 < cells
  pub cursor : vga_get_cursor e.screen ≡ e.start + e.off

-- The screen shows the characters of the buffer.
abbrev pub Shows : Line → Type 0
Shows e = (i : ℕ) → i < e.len → e.screen.textbuf (e.start + i) ≡ word_of (e.buf i) line_color

-- One cell is put, and nothing else changes.
pub put_cell-ok :
    (e : Line) (i c : ℕ)
    → e.start + i < cells
    → put_cell e i c
      ≡ some (record e.screen {
        textbuf = update e.screen.textbuf (e.start + i) (word_of c line_color);
      })
put_cell-ok e i c h =
    let wide : u16 (e.start + i) ≡ e.start + i = omega arith in
    rw wide (vga_putchar-ok (e.start + i) c line_color e.screen h)

-- What a loop that moves characters leaves: where `moves` holds, the buffer and the screen have the
-- character from `source`, and elsewhere they are as they were.
pub record Shifted (e f : Line) (moves : ℕ → Bool) (source : ℕ → ℕ) : Type 0 where
  pub start : f.start ≡ e.start
  pub off : f.off ≡ e.off
  pub len : f.len ≡ e.len
  pub cursor : vga_get_cursor f.screen ≡ vga_get_cursor e.screen
  pub buf : (i : ℕ) → f.buf i ≡ (if moves i then e.buf (source i) else e.buf i)
  pub text :
      (i : ℕ)
      → f.screen.textbuf (e.start + i) ≡ (
          if moves i then word_of (e.buf (source i)) line_color else e.screen.textbuf (e.start + i))

abbrev pub between : ℕ → ℕ → ℕ → Bool
between lo hi i = leb lo i && ltb i hi

-- The line after one character has been copied from `j` to `i`.
abbrev copied : Line → ℕ → ℕ → Line
copied e i j = record e {
  buf = update e.buf i (e.buf j);
  screen = record e.screen {
    textbuf = update e.screen.textbuf (e.start + i) (word_of (e.buf j) line_color);
  };
}

-- One more character moves right: `b` is the buffer, `t` the text with the words `w`.
module _ (b : ℕ → ℕ) (o r i : ℕ) where
  right_buf :
      (if between (o + 1) (o + 1 + r) i
        then update b (o + suc r) (b (o + r)) (i - 1)
        else update b (o + suc r) (b (o + r)) i)
      ≡ (if between (o + 1) (o + 1 + suc r) i then b (i - 1) else b i)
  right_buf = elim (Bool-cases (i == o + suc r)) [
    | inl here ↦
        let e : i ≡ o + suc r = (==_iff _ _).0 here in
        let pred : i - 1 ≡ o + r = omega arith in rw pred (ground arith)
    | inr away ↦ ground arith
  ]

  right_text :
      (t w : ℕ → ℕ) (st : ℕ)
      → (if between (o + 1) (o + 1 + r) i
          then w (update b (o + suc r) (b (o + r)) (i - 1))
          else update t (st + (o + suc r)) (w (b (o + r))) (st + i))
        ≡ (if between (o + 1) (o + 1 + suc r) i then w (b (i - 1)) else t (st + i))
  right_text t w st = elim (Bool-cases (i == o + suc r)) [
    | inl here ↦
        let e : i ≡ o + suc r = (==_iff _ _).0 here in
        let pred : i - 1 ≡ o + r = omega arith in rw pred (ground arith)
    | inr away ↦ ground arith
  ]

  left_buf :
      (if between (o + 1) (o + 1 + r) i
        then update b o (b (o + 1)) (i + 1)
        else update b o (b (o + 1)) i)
      ≡ (if between o (o + suc r) i then b (i + 1) else b i)
  left_buf = elim (Bool-cases (i == o)) [
    | inl here ↦ let e : i ≡ o = (==_iff _ _).0 here in rw e (ground arith)
    | inr away ↦ ground arith
  ]

  left_text :
      (t w : ℕ → ℕ) (st : ℕ)
      → (if between (o + 1) (o + 1 + r) i
          then w (update b o (b (o + 1)) (i + 1))
          else update t (st + o) (w (b (o + 1))) (st + i))
        ≡ (if between o (o + suc r) i then w (b (i + 1)) else t (st + i))
  left_text t w st = elim (Bool-cases (i == o)) [
    | inl here ↦ let e : i ≡ o = (==_iff _ _).0 here in rw e (ground arith)
    | inr away ↦ ground arith
  ]

pub shift_right-Shifted :
    (rounds : ℕ) (e : Line)
    → e.start + e.off + rounds < cells
    → (f : Line) × (shift_right rounds e ≡ some f)
      × Shifted e f (between (e.off + 1) (e.off + 1 + rounds)) (λ i. i - 1)
unfolding shift_right
shift_right-Shifted zero e room = (
  e,
  refl,
  record {
    start = refl;
    off = refl;
    len = refl;
    cursor = refl;
    buf = λ i. ground arith;
    text = λ i. ground arith;
  },
)
shift_right-Shifted (suc rounds) e room =
    let put = put_cell-ok e (e.off + suc rounds) (e.buf (e.off + rounds)) (omega arith) in
    let (f, run, g) =
      shift_right-Shifted rounds (copied e (e.off + suc rounds) (e.off + rounds)) (omega arith) in
    rw put (
      f,
      run,
      record {
        start = g.start;
        off = g.off;
        len = g.len;
        cursor = g.cursor ∙ get_cursor-text e.screen _;
        buf = λ i. g.buf i ∙ right_buf e.buf e.off rounds i;
        text = λ i.
            g.text i
            ∙ right_text e.buf e.off rounds i e.screen.textbuf (λ c. word_of c line_color) e.start;
      },
    )

pub shift_left-Shifted :
    (rounds i : ℕ) (e : Line)
    → e.start + i + rounds ≤ cells
    → (f : Line) × (shift_left rounds i e ≡ some f)
      × Shifted e f (between i (i + rounds)) (λ j. j + 1)
unfolding shift_left
shift_left-Shifted zero i e room = (
  e,
  refl,
  record {
    start = refl;
    off = refl;
    len = refl;
    cursor = refl;
    buf = λ j. ground arith;
    text = λ j. ground arith;
  },
)
shift_left-Shifted (suc rounds) i e room =
    let put = put_cell-ok e i (e.buf (i + 1)) (omega arith) in
    let (f, run, g) = shift_left-Shifted rounds (i + 1) (copied e i (i + 1)) (omega arith) in
    rw put (
      f,
      run,
      record {
        start = g.start;
        off = g.off;
        len = g.len;
        cursor = g.cursor ∙ get_cursor-text e.screen _;
        buf = λ j. g.buf j ∙ left_buf e.buf i rounds j;
        text = λ j.
            g.text j
            ∙ left_text e.buf i rounds j e.screen.textbuf (λ c. word_of c line_color) e.start;
      },
    )
