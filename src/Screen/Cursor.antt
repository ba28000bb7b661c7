-- ===== src/Screen/Cursor.antt =====
-- The cursor stays on the screen, and `putchar` never panics.
use model_lib.Base.{
  ℕ, ◌+◌, ◌-◌, ◌*◌, ◌%◌, ◌≤◌, ◌<◌, ◌≡◌, ◌⊎◌, inl, inr, refl, arith, true, false, ◌==◌, ◌||◌, ltb,
  leb, if◌then◌else◌, u16, none, some, update, Bool-cases, List, [], ◌∷◌, min, length, ap,
}
use model_lib.Screen.{
  Screen, cells, vga_reset, vga_set_color, crtc_read, crtc_write, vga_get_cursor, vga_hide_cursor,
  vga_set_cursor, vga_putchar, vga_scroll, scrolled, word_of, move_cursor, put_at, putchar,
  put_string,
}

-- `vga_set_cursor` of a place on the screen is read back by `vga_get_cursor`, and leaves the text.
pub vga_set_cursor-get :
    (off : ℕ) (v : Screen)
    → off < cells
    → (w : Screen) × (vga_set_cursor off v ≡ some w)
      × (vga_get_cursor w ≡ off)
      × (w.textbuf ≡ v.textbuf)
unfolding vga_set_cursor vga_get_cursor crtc_read crtc_write
vga_set_cursor-get off v h =
    let on : leb cells off ≡ false = ground arith in rw on (_, refl, omega arith, refl)

pub get_cursor-value : (v : Screen) → vga_get_cursor v ≡ v.crtc 15 + v.crtc 14 * 256
unfolding vga_get_cursor crtc_read
get_cursor-value v = refl

-- The text does not matter to the cursor.
pub get_cursor-text :
    (v : Screen) (t : ℕ → ℕ) → vga_get_cursor (record v { textbuf = t }) ≡ vga_get_cursor v
unfolding vga_get_cursor crtc_read
get_cursor-text v t = refl

-- What a cursor movement to `off` leaves: the cursor there, or at the start of the last row of text
-- that has moved up by one.
pub Moved : ℕ → Screen → Screen → Type 0
Moved off v w =
    ((off < cells) × (vga_get_cursor w ≡ off) × (w.textbuf ≡ v.textbuf))
    ⊎ ((cells ≤ off) × (vga_get_cursor w ≡ 1920) × (w.textbuf ≡ scrolled v.textbuf))

pub move_cursor-Moved :
    (off : ℕ) (v : Screen)
    → off < 65536
    → (w : Screen) × (move_cursor off v ≡ some w) × Moved off v w
unfolding move_cursor vga_scroll Moved
move_cursor-Moved off v h =
    let wide : u16 off ≡ off = omega arith in
    rw wide (elim (Bool-cases (ltb off cells)) [
      | inl on ↦
          let (w, run, at, text) = vga_set_cursor-get off v (ground arith) in
          rw (on, vga_set_cursor) (w, run, inl (ground arith, at, text))
      | inr beyond ↦
          let (w, run, at, text) =
            vga_set_cursor-get 1920 (record v { textbuf = scrolled v.textbuf }) (omega arith) in
          rw (beyond, vga_set_cursor) (w, run, inr (ground arith, at, text))
    ])

pub move_cursor-inside :
    (off : ℕ) (v : Screen)
    → u16 off < cells
    → (w : Screen) × (move_cursor off v ≡ some w)
      × (vga_get_cursor w ≡ u16 off)
      × (w.textbuf ≡ v.textbuf)
unfolding move_cursor vga_scroll
move_cursor-inside off v h =
    let on : ltb (u16 off) cells ≡ true = ground arith in rw on (vga_set_cursor-get (u16 off) v h)

-- What `putchar` aims at, and the text it leaves before the cursor moves.
pub target : ℕ → ℕ → ℕ
target c off =
    if c == 10 || c == 13
    then off + 80 - off % 80
    else if c == 8
    then off - 1
    else if c == 9
    then off + 4
    else off + 1

pub vga_putchar-ok :
    (off c color : ℕ) (v : Screen)
    → off < cells
    → vga_putchar off c color v
      ≡ some (record v { textbuf = update v.textbuf off (word_of c color) })
unfolding vga_putchar
vga_putchar-ok off c color v h = let on : leb cells off ≡ false = ground arith in rw on

pub vga_putchar-none :
    (off c color : ℕ) (v : Screen) → cells ≤ off → vga_putchar off c color v ≡ none
unfolding vga_putchar
vga_putchar-none off c color v h = let out : leb cells off ≡ true = ground arith in rw out

put_at-target :
    (c off : ℕ) (v : Screen)
    → off < cells
    → (w : Screen) × (put_at c off v ≡ some (target c off, w))
unfolding put_at target
put_at-target c off v h = elim (Bool-cases (c == 10 || c == 13)) [
  | inl line ↦ rw line (v, refl)
  | inr no_line ↦ elim (Bool-cases (c == 8)) [
    | inl back ↦ elim (Bool-cases (off == 0)) [
      | inl start ↦ rw (no_line, back, start) (v, ap (λ n. some (n, v)) (ground arith))
      | inr later ↦
          rw (no_line, back, later, vga_putchar-ok (off - 1) 32 v.color v (omega arith)) (_, refl)
    ]
    | inr no_back ↦ elim (Bool-cases (c == 9)) [
      | inl tab ↦ rw (no_line, no_back, tab) (v, refl)
      | inr plain ↦ rw (no_line, no_back, plain, vga_putchar-ok off c v.color v h) (_, refl)
    ]
  ]
]

target-lt : (c off : ℕ) → off < cells → target c off < 65536
unfolding target
target-lt c off h = ground arith

-- With the cursor on the screen, `putchar` does not panic, whatever the character, and leaves the
-- cursor on the screen: where the character sends it, or at the start of the last row if that lies
-- beyond the screen.
pub putchar-cursor :
    (c : ℕ) (v : Screen)
    → vga_get_cursor v < cells
    → (w : Screen) × (putchar c v ≡ some w)
      × (vga_get_cursor w < cells)
      × (vga_get_cursor w
          ≡ (if ltb (target c (vga_get_cursor v)) cells then target c (vga_get_cursor v) else 1920))
unfolding putchar Moved
putchar-cursor c v h =
    let (w, put) = put_at-target c (vga_get_cursor v) v h in
    let (u, run, moved) = move_cursor-Moved (target c (vga_get_cursor v)) w (target-lt c _ h) in
    rw (put, run) (u, refl, ground arith, ground arith)

-- `_string` puts at most 1024 characters, and panics on none if the cursor is on the screen.
pub put_string-cursor :
    (s : List ℕ) (l : ℕ) (v : Screen)
    → vga_get_cursor v < cells
    → l ≤ 1024
    → (w : Screen) × (put_string l s v ≡ some (min (l + length s) 1024, w))
      × (vga_get_cursor w < cells)
unfolding put_string
put_string-cursor [] l v h small = (v, ap (λ n. some (n, v)) (ground arith), h)
put_string-cursor (c ∷ s) l v h small = elim (Bool-cases (ltb l 1024)) [
  | inl room ↦
      let (w, put, on, _) = putchar-cursor c v h in
      let (u, rest, on') = put_string-cursor s (l + 1) w on (ground arith) in
      let count : l + 1 + length s ≡ l + length (c ∷ s) = omega arith in
      rw (room, put) (u, rw count at rest, on')
  | inr full ↦ rw full (v, ap (λ n. some (n, v)) (ground arith), h)
]

-- A hidden cursor stays where it is.
vga_hide_cursor-cursor : (v : Screen) → vga_get_cursor (vga_hide_cursor v) ≡ vga_get_cursor v
unfolding vga_hide_cursor vga_get_cursor crtc_read crtc_write
vga_hide_cursor-cursor v = refl

pub vga_set_color-ok :
    (row color : ℕ) (v : Screen) → row < 25 → (w : Screen) × (vga_set_color row color v ≡ some w)
unfolding vga_set_color
vga_set_color-ok row color v h = let fits : leb 25 row ≡ false = ground arith in rw fits (_, refl)

pub vga_reset-ok : (v : Screen) → (w : Screen) × (vga_reset v ≡ some w)
unfolding vga_reset vga_set_cursor
vga_reset-ok v = (_, refl)
