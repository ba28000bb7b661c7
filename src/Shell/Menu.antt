-- ===== src/Shell/Menu.antt =====
-- The menu of `boot` of grab/shell.c: the loop over the keys, once `cnt` entries of `/boot` are counted.
-- A call that panics gives `none`. The list of keys is what `kbd_poll_event` delivers.
use model_lib.Base.{
  ℕ, ◌+◌, ◌-◌, ◌<◌, ◌≤◌, ◌≡◌, refl, arith, Bool, Bool-cases, true, false, inl, inr, not, ◌==◌, ◌&&◌,
  ltb, if◌then◌else◌, Option, none, some, List, [], ◌∷◌,
}
use model_lib.Kbd.Keys.{key_u_arrow, key_d_arrow}
use model_lib.Screen.Cursor.{vga_set_color-ok, vga_reset-ok}
use model_lib.Screen.{
  Screen, vga_set_color, vga_reset, vga_hide_cursor, vga_show_cursor, black_white,
}

-- `BGND_BLUE | FGND_WHITE`
abbrev blue_white : ℕ
blue_white = 31

-- The row of the menu, and whether it was chosen.
record Menu : Type 0 where
  row : ℕ
  chosen : Bool
  screen : Screen

abbrev colored : ℕ → ℕ → Option Screen → Option Screen
colored row color none = none
colored row color (some v) = vga_set_color row color v

abbrev at_row : ℕ → Option Screen → Option Menu
at_row row none = none
at_row row (some v) = some (record { row = row; chosen = false; screen = v })

-- The highlight goes from one row to another.
move_row : ℕ → ℕ → Screen → Option Menu
move_row from to v = at_row to (colored to blue_white (vga_set_color from black_white v))

abbrev shown : ℕ → Option Screen → Option Menu
shown row none = none
shown row (some v) = some (record { row = row; chosen = true; screen = vga_show_cursor v })

abbrev reset : Option Screen → Option Screen
reset none = none
reset (some v) = vga_reset v

leave : ℕ → Screen → Option Menu
leave row v = shown row (reset (vga_set_color row black_white v))

-- The body of the loop for one key.
menu_key : ℕ → ℕ → ℕ → Screen → Option Menu
menu_key cnt key row v =
    if key == key_u_arrow && not (row == 0)
    then move_row row (row - 1) v
    else if key == key_d_arrow && ltb (row + 1) cnt
    then move_row row (row + 1) v
    else if key == 10
    then leave row v
    else at_row row (some v)

-- Nothing is read once a row is chosen.
abbrev go_on : (Menu → Option Menu) → Option Menu → Option Menu
go_on next none = none
go_on next (some m) = if m.chosen then some m else next m

-- The loop over the keys, which the newline ends.
menu_loop : ℕ → List ℕ → Menu → Option Menu
menu_loop cnt [] m = some m
menu_loop cnt (key ∷ keys) m = go_on (menu_loop cnt keys) (menu_key cnt key m.row m.screen)

-- `boot` up to the choice, with the first row highlighted.
menu : ℕ → List ℕ → Screen → Option Menu
menu cnt keys v =
    go_on (menu_loop cnt keys) (at_row 0 (colored 0 blue_white (some (vga_hide_cursor v))))

abbrev InMenu : ℕ → Option Menu → Type 0
InMenu cnt r = (m : Menu) × (r ≡ some m) × (m.row < cnt)

move_row-InMenu :
    (cnt from to : ℕ) (v : Screen)
    → cnt ≤ 25
    → from < cnt
    → to < cnt
    → InMenu cnt (move_row from to v)
unfolding move_row
move_row-InMenu cnt from to v small hf ht =
    let (w, first) = vga_set_color-ok from black_white v (omega arith) in
    let (u, second) = vga_set_color-ok to blue_white w (omega arith) in
    rw (first, second) (_, refl, ht)

leave-InMenu : (cnt row : ℕ) (v : Screen) → cnt ≤ 25 → row < cnt → InMenu cnt (leave row v)
unfolding leave
leave-InMenu cnt row v small h =
    let (w, first) = vga_set_color-ok row black_white v (omega arith) in
    let (u, second) = vga_reset-ok w in rw (first, second) (_, refl, h)

menu_key-InMenu :
    (cnt key row : ℕ) (v : Screen) → cnt ≤ 25 → row < cnt → InMenu cnt (menu_key cnt key row v)
unfolding menu_key
menu_key-InMenu cnt key row v small h = elim (Bool-cases (key == key_u_arrow && not (row == 0))) [
  | inl up ↦ rw up (move_row-InMenu cnt row (row - 1) v small h (omega arith))
  | inr not_up ↦ elim (Bool-cases (key == key_d_arrow && ltb (row + 1) cnt)) [
    | inl down ↦ rw (not_up, down) (move_row-InMenu cnt row (row + 1) v small h (ground arith))
    | inr not_down ↦ elim (Bool-cases (key == 10)) [
      | inl newline ↦ rw (not_up, not_down, newline) (leave-InMenu cnt row v small h)
      | inr other ↦ rw (not_up, not_down, other) (_, refl, h)
    ]
  ]
]

-- With 1 to 25 entries, no key makes the menu panic, and its row stays that of an entry.
menu_loop-InMenu :
    (cnt : ℕ) (keys : List ℕ) (m : Menu)
    → cnt ≤ 25
    → m.row < cnt
    → InMenu cnt (menu_loop cnt keys m)
unfolding menu_loop
menu_loop-InMenu cnt [] m small h = (m, refl, h)
menu_loop-InMenu cnt (key ∷ keys) m small h =
    let (n, run, inside) = menu_key-InMenu cnt key m.row m.screen small h in
    rw run (elim (Bool-cases n.chosen) [
      | inl done ↦ rw done (n, refl, inside)
      | inr more ↦ rw more (menu_loop-InMenu cnt keys n small inside)
    ])

menu-InMenu :
    (cnt : ℕ) (keys : List ℕ) (v : Screen) → 1 ≤ cnt → cnt ≤ 25 → InMenu cnt (menu cnt keys v)
unfolding menu
menu-InMenu cnt keys v some_entry small =
    let (w, first) = vga_set_color-ok 0 blue_white (vga_hide_cursor v) (omega arith) in
    rw first (menu_loop-InMenu cnt keys _ small (omega arith))
