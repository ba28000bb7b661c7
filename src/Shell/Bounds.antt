-- ===== src/Shell/Bounds.antt =====
-- The bounds of the command buffer, and the line that reaches the end of the screen.
use mathlib.Core.Path.{subst}
use model_lib.Base.{
  ℕ, zero, suc, ◌+◌, ◌-◌, ◌≤◌, ◌<◌, ◌≡◌, inl, inr, refl, arith, true, ◌==◌, ◌&&◌, ltb, u16, Option,
  none, some, update, Bool-cases, sym,
}
use model_lib.Kbd.Keys.{key_l_arrow, key_r_arrow}
use model_lib.Screen.{Screen, vga_get_cursor, move_cursor, cells}
use model_lib.Screen.Cursor.{vga_putchar-none}
use model_lib.Shell.{
  Line, cmdlen, line_color, shown, then_line, put_cell, shift_right, shift_left, put_char, insert,
  drop_char, backspace, left_arrow, right_arrow, edit_key,
}
use model_lib.Text.{isprint}

-- The offset is in the line, and the line, with its terminating zero, in the buffer.
pub record InBuffer (e : Line) : Type 0 where
  pub inside : e.off ≤ e.len
  pub room : e.len < cmdlen

-- A result that has not panicked has the offset and the length given.
At : ℕ → ℕ → Option Line → Type 0
At off len none = Unit {0}
At off len (some f) = (f.off ≡ off) × (f.len ≡ len)

shift_right-At : (rounds : ℕ) (e : Line) → At e.off e.len (shift_right rounds e)
unfolding shift_right
shift_right-At zero e = unfold At in (refl, refl)
shift_right-At (suc rounds) e =
    elim (put_cell e (e.off + suc rounds) (e.buf (e.off + rounds)))
      as (λ r. At e.off e.len (
        shown r λ v. shift_right rounds (record e {
          buf = update e.buf (e.off + suc rounds) (e.buf (e.off + rounds));
          screen = v;
        }))) [ none ↦ unfold At in tt | some v ↦ shift_right-At rounds _ ]

shift_left-At : (rounds i : ℕ) (e : Line) → At e.off e.len (shift_left rounds i e)
unfolding shift_left
shift_left-At zero i e = unfold At in (refl, refl)
shift_left-At (suc rounds) i e =
    elim (put_cell e i (e.buf (i + 1)))
      as (λ r. At e.off e.len (
        shown r λ v.
          shift_left rounds (i + 1)
            (record e { buf = update e.buf i (e.buf (i + 1)); screen = v }))) [
              | none ↦ unfold At in tt
              | some v ↦ shift_left-At rounds (i + 1) _
            ]

-- What follows a call that keeps the offset and the length.
then_line-At :
    (off len off' len' : ℕ) (r : Option Line) (k : Line → Option Line)
    → At off len r
    → ((f : Line) → f.off ≡ off → f.len ≡ len → At off' len' (k f))
    → At off' len' (then_line r k)
then_line-At off len off' len' none k h next = unfold At in tt
then_line-At off len off' len' (some f) k h next =
    let (a, b) : (f.off ≡ off) × (f.len ≡ len) = unfold At in h in next f a b

moved-At :
    (r : Option Screen) (e : Line) (off len : ℕ) (buf : ℕ → ℕ)
    → At off len (shown r λ w. some (record e { buf = buf; off = off; len = len; screen = w }))
moved-At none e off len buf = unfold At in tt
moved-At (some w) e off len buf = unfold At in (refl, refl)

put_char-At : (c : ℕ) (e : Line) → At (e.off + 1) (e.len + 1) (put_char c e)
unfolding put_char
put_char-At c e =
    elim (put_cell e e.off c)
      as (λ r. At (e.off + 1) (e.len + 1) (
        shown r λ v. shown (move_cursor (vga_get_cursor v + 1) v) λ w. some (record e {
          buf = update e.buf e.off c;
          off = e.off + 1;
          len = e.len + 1;
          screen = w;
        }))) [
          | none ↦ unfold At in tt
          | some v ↦ moved-At (move_cursor (vga_get_cursor v + 1) v) e (e.off + 1) (e.len + 1) _
        ]

drop_char-At : (e : Line) → At (e.off - 1) (e.len - 1) (drop_char e)
unfolding drop_char
drop_char-At e =
    elim (put_cell e (e.len - 1) 32)
      as (λ r. At (e.off - 1) (e.len - 1) (
        shown r λ v.
          shown (move_cursor (vga_get_cursor v + 65536 - 1) v)
            λ w. some (record e { off = e.off - 1; len = e.len - 1; screen = w }))) [
              | none ↦ unfold At in tt
              | some v ↦
                  moved-At (move_cursor (vga_get_cursor v + 65536 - 1) v) e (e.off - 1) (e.len - 1)
                    e.buf
            ]

insert-At : (c : ℕ) (e : Line) → At (e.off + 1) (e.len + 1) (insert c e)
unfolding insert
insert-At c e =
    then_line-At e.off e.len (e.off + 1) (e.len + 1) (shift_right (e.len - e.off) e) (put_char c)
      (shift_right-At (e.len - e.off) e)
      (λ f a b.
        subst (λ n. At (n + 1) (e.len + 1) (put_char c f)) a
          (subst (λ n. At (f.off + 1) (n + 1) (put_char c f)) b (put_char-At c f)))

backspace-At : (e : Line) → At (e.off - 1) (e.len - 1) (backspace e)
unfolding backspace
backspace-At e =
    then_line-At e.off e.len (e.off - 1) (e.len - 1) (shift_left (e.len + 1 - e.off) (e.off - 1) e)
      drop_char (shift_left-At (e.len + 1 - e.off) (e.off - 1) e)
      (λ f a b.
        subst (λ n. At (n - 1) (e.len - 1) (drop_char f)) a
          (subst (λ n. At (f.off - 1) (n - 1) (drop_char f)) b (drop_char-At f)))

left_arrow-At : (e : Line) → At (e.off - 1) e.len (left_arrow e)
unfolding left_arrow
left_arrow-At e =
    moved-At (move_cursor (vga_get_cursor e.screen + 65536 - 1) e.screen) e (e.off - 1) e.len e.buf

right_arrow-At : (e : Line) → At (e.off + 1) e.len (right_arrow e)
unfolding right_arrow
right_arrow-At e =
    moved-At (move_cursor (vga_get_cursor e.screen + 1) e.screen) e (e.off + 1) e.len e.buf

At-InBuffer :
    {off len : ℕ} {r : Option Line} {f : Line}
    → At off len r
    → r ≡ some f
    → off ≤ len
    → len < cmdlen
    → InBuffer f
At-InBuffer {off} {len} {r} {f} at e le lt =
    let (a, b) : (f.off ≡ off) × (f.len ≡ len) = unfold At in (rw e at at) in
    record { inside = omega (arith, a, b); room = omega (arith, b) }

-- No key makes the line longer than the buffer allows, or moves the offset out of the line.
pub edit_key-InBuffer :
    (c : ℕ) (e : Line) {f : Line} → InBuffer e → edit_key c e ≡ some f → InBuffer f
unfolding edit_key
edit_key-InBuffer c e {f} v h = elim (Bool-cases (isprint c && ltb e.len (cmdlen - 1))) [
  | inl typed ↦ At-InBuffer (insert-At c e) (rw typed at h) (omega (arith, v.inside)) (ground arith)
  | inr not_typed ↦ elim (Bool-cases (c == key_l_arrow && ltb 0 e.off)) [
    | inl left ↦
        At-InBuffer (left_arrow-At e) (rw (not_typed, left) at h) (omega (arith, v.inside)) v.room
    | inr not_left ↦ elim (Bool-cases (c == key_r_arrow && ltb e.off e.len)) [
      | inl right ↦
          At-InBuffer (right_arrow-At e) (rw (not_typed, not_left, right) at h) (ground arith)
            v.room
      | inr not_right ↦ elim (Bool-cases (c == 8 && ltb 0 e.off)) [
        | inl back ↦
            At-InBuffer (backspace-At e) (rw (not_typed, not_left, not_right, back) at h)
              (omega (arith, v.inside)) (omega (arith, v.room))
        | inr other ↦
            let same : ◌≡◌ {A = Option Line} (some e) (some f) =
              rw (not_typed, not_left, not_right, other) at h in
            let e' : e ≡ f = cc in rw (sym e') v
      ]
    ]
  ]
]

-- A printable character typed at the end of a line that has reached the end of the screen panics: the
-- start of the line does not move when the screen scrolls.
pub edit_key-none :
    (c : ℕ) (e : Line)
    → 0x20 ≤ c
    → c ≤ 126
    → e.len < cmdlen - 1
    → e.off ≡ e.len
    → cells ≤ e.start + e.off
    → e.start < cells
    → edit_key c e ≡ none
unfolding edit_key insert shift_right put_char
edit_key-none c e lo hi room end beyond start =
    let typed : (isprint c && ltb e.len (cmdlen - 1)) ≡ true = ground arith in
    let none_behind : e.len - e.off ≡ 0 = omega arith in
    let wide : u16 (e.start + e.off) ≡ e.start + e.off = omega arith in
    rw (typed, none_behind, wide, vga_putchar-none (e.start + e.off) c line_color e.screen beyond)
