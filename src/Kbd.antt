-- ===== src/Kbd.antt =====
-- The keyboard driver grab/kbd.c with grab/include/kbd.h: a state machine over scan bytes that keeps
-- the modifier keys.
pub mod Keys
pub mod Valid
pub mod Shift
pub mod Sequences
pub mod Alive
pub mod Modifiers
mod Tests
use model_lib.Base.{
  ℕ, zero, suc, ◌+◌, ◌-◌, ◌/◌, ◌%◌, Bool, true, false, not, ◌==◌, ◌&&◌, ◌||◌, ltb, leb,
  if◌then◌else◌, Option, none, some, List, [], ◌∷◌, length, get_elem?,
}
use Keys.{
  KeyboardState, KeyEvent, key_map, max_scancode, state_related_key_start, key_l_ctrl, key_r_ctrl,
  key_l_shft, key_r_shft, key_l_alt, key_r_alt, key_num, key_caps, key_u_arrow, key_l_arrow,
  key_r_arrow, key_d_arrow, key_delete, key_pause, key_prnt,
}

pub data ParserState : Type 0 where
  init pause extended print_make print_break : ParserState

-- `keyboard_t`
pub record Keyboard : Type 0 where
  pub state : KeyboardState
  pub parser_state : ParserState
  pub sequence_index : ℕ

-- The new state and the event, or `none` where the source would index past a table.
abbrev pub Step : Type 0
Step = Option (Keyboard × KeyEvent)

abbrev pub pause_sequence : List ℕ
pause_sequence = 0x1d ∷ 0x45 ∷ 0xe1 ∷ 0x9d ∷ 0xc5 ∷ []

abbrev pub print_make_sequence : List ℕ
print_make_sequence = 0x2a ∷ 0xe0 ∷ 0x37 ∷ []

abbrev pub print_break_sequence : List ℕ
print_break_sequence = 0xb7 ∷ 0xe0 ∷ 0xaa ∷ []

-- `!(scancode & 0x80)` and `breakcode & 0x7f` on a byte.
pub is_make_code : ℕ → Bool
is_make_code scancode = scancode / 128 % 2 == 0

pub to_make_code : ℕ → ℕ
to_make_code breakcode = breakcode % 128

abbrev pub no_keys : KeyboardState
no_keys = record {
  numlock = false;
  capslock = false;
  ralt = false;
  lalt = false;
  rctrl = false;
  lctrl = false;
  rshft = false;
  lshft = false;
}

pub null_event : KeyEvent
null_event = record {
  value = 0;
  raw = 0;
  make = false;
  keypad = false;
  hasdata = false;
  hasraw = false;
  kbdstate = no_keys;
}

pub data_event : Keyboard → ℕ → Bool → KeyEvent
data_event k value is_keypad = record null_event {
  hasdata = true;
  value = value;
  keypad = is_keypad;
  kbdstate = k.state;
}

pub raw_event : Keyboard → ℕ → KeyEvent
raw_event k raw = record null_event { hasraw = true; raw = raw; kbdstate = k.state }

pub is_keypad_key : ℕ → Bool
is_keypad_key scancode = leb 0x47 scancode && leb scancode 0x53 || scancode == 0x37

-- `b ^= is_make` on a bit.
abbrev flip : Bool → Bool → Bool
flip b true = not b
flip b false = b

pub update_state : KeyboardState → ℕ → Bool → KeyboardState
update_state s key is_make =
    if key == key_l_ctrl
    then record s { lctrl = is_make }
    else if key == key_r_ctrl
    then record s { rctrl = is_make }
    else if key == key_l_shft
    then record s { lshft = is_make }
    else if key == key_r_shft
    then record s { rshft = is_make }
    else if key == key_l_alt
    then record s { lalt = is_make }
    else if key == key_r_alt
    then record s { ralt = is_make }
    else if key == key_num
    then record s { numlock = flip s.numlock is_make }
    else if key == key_caps
    then record s { capslock = flip s.capslock is_make }
    else s

-- The end of `handle_init_state`, with the key that the map gives.
init_key : Keyboard → ℕ → ℕ → Keyboard × KeyEvent
init_key k scancode key =
    if ltb state_related_key_start key || not (is_make_code scancode)
    then (record k { state = update_state k.state key (is_make_code scancode) }, null_event)
    else (k, data_event k key (is_keypad_key (to_make_code scancode)))

-- `key_map[make_code]`
pub key_at : ℕ → Option ℕ
key_at make_code = get_elem? key_map make_code

init_found : Keyboard → ℕ → Option ℕ → Step
init_found k scancode none = none
init_found k scancode (some key) = some (init_key k scancode key)

-- `handle_init_state` for a byte that is no header.
init_plain : Keyboard → ℕ → Step
init_plain k scancode =
    if ltb max_scancode (to_make_code scancode)
    then some (k, raw_event k scancode)
    else init_found k scancode (key_at (to_make_code scancode))

pub handle_init_state : Keyboard → ℕ → Step
handle_init_state k scancode =
    let k' = record k { sequence_index = 0 } in
    if scancode == 0xe1
    then some (record k' { parser_state = pause }, null_event)
    else if scancode == 0xe0
    then some (record k' { parser_state = extended }, null_event)
    else init_plain (record k' { parser_state = init }) scancode

-- Is the byte one that only changes the modifiers or the parser's state?
extended_quiet : Keyboard → ℕ → Option Keyboard
extended_quiet k scancode =
    if scancode == 0x1d
    then some (record k { state = update_state k.state key_r_ctrl true })
    else if scancode == 0x9d
    then some (record k { state = update_state k.state key_r_ctrl false })
    else if scancode == 0x38
    then some (record k { state = update_state k.state key_r_alt true })
    else if scancode == 0xb8
    then some (record k { state = update_state k.state key_r_alt false })
    else if scancode == 0x2a
    then some (record k { parser_state = print_make })
    else if scancode == 0xb7
    then some (record k { parser_state = print_break })
    else none

extended_rest : Keyboard → ℕ → Option Keyboard → Keyboard × KeyEvent
extended_rest k scancode none = (k, raw_event k scancode)
extended_rest k scancode (some k') = (k', null_event)

pub handle_extended_state : Keyboard → ℕ → Keyboard × KeyEvent
handle_extended_state k scancode =
    let k' = record k { parser_state = init } in
    if scancode == 0x1c
    then (k', data_event k' b'/' true)
    else if scancode == 0x35
    then (k', data_event k' 10 true)
    else if scancode == 0x48
    then (k', data_event k' key_u_arrow false)
    else if scancode == 0x4b
    then (k', data_event k' key_l_arrow false)
    else if scancode == 0x4d
    then (k', data_event k' key_r_arrow false)
    else if scancode == 0x50
    then (k', data_event k' key_d_arrow false)
    else if scancode == 0x53
    then (k', data_event k' key_delete false)
    else extended_rest k' scancode (extended_quiet k' scancode)

-- `handle_sequence_state` once the byte of the sequence is read.
sequence_step : Keyboard → ℕ → ℕ → ℕ → ParserState → Bool → ℕ → Keyboard × KeyEvent
sequence_step k scancode expected length next_state is_break key_code =
    let k' = record k { parser_state = init } in
    if not (scancode == expected)
    then (k', raw_event k' scancode)
    else if k.sequence_index == length - 1
    then (k', if is_break then null_event else data_event k' key_code false)
    else (
      record k { parser_state = next_state; sequence_index = (k.sequence_index + 1) % 256 },
      null_event,
    )

pub handle_sequence_state : Keyboard → ℕ → List ℕ → ParserState → Bool → ℕ → Step
handle_sequence_state k scancode sequence next_state is_break key_code =
    elim (get_elem? sequence k.sequence_index) [
      | none ↦ none
      | some expected ↦
          some (sequence_step k scancode expected (length sequence) next_state is_break key_code)
    ]

dispatch : ParserState → Keyboard → ℕ → Step
dispatch init k c = handle_init_state k c
dispatch pause k c = handle_sequence_state k c pause_sequence pause false key_pause
dispatch extended k c = some (handle_extended_state k c)
dispatch print_make k c = handle_sequence_state k c print_make_sequence print_make false key_prnt
dispatch print_break k c = handle_sequence_state k c print_break_sequence print_break true key_prnt

unfoldable pub parse_scancode : Keyboard → ℕ → Step
unfolding dispatch
parse_scancode k scancode = dispatch k.parser_state k scancode

-- `kbd_poll_event` over the bytes that the controller delivers: `none` while it still waits.
pub kbd_poll_event : Keyboard → List ℕ → Option (Keyboard × KeyEvent × List ℕ)
kbd_poll_event k [] = none
kbd_poll_event k (c ∷ cs) = elim (parse_scancode k c) [
  | none ↦ none
  | some (k', e) ↦ elim e.hasdata [ true ↦ some (k', e, cs) | false ↦ kbd_poll_event k' cs ]
]

-- The `switch` of `apply_shift`: a character of the unshifted key and the shifted one, as ASCII codes.
abbrev shift_map : List (ℕ × ℕ)
shift_map =
    (96, 126)
    ∷ (49, 33)
    ∷ (50, 64)
    ∷ (51, 35)
    ∷ (52, 36)
    ∷ (53, 37)
    ∷ (54, 94)
    ∷ (55, 38)
    ∷ (56, 42)
    ∷ (57, 40)
    ∷ (48, 41)
    ∷ (91, 123)
    ∷ (92, 124)
    ∷ (93, 125)
    ∷ (45, 95)
    ∷ (61, 43)
    ∷ (59, 58)
    ∷ (39, 34)
    ∷ (44, 60)
    ∷ (46, 62)
    ∷ (47, 63)
    ∷ []

shifted : List (ℕ × ℕ) → ℕ → ℕ
shifted [] c = c
shifted ((from, to) ∷ rest) c = if c == from then to else shifted rest c

-- `c` is compared as a signed `char`; the codes from 128 on are in no branch.
pub apply_shift : ℕ → KeyEvent → ℕ
unfolding shifted
apply_shift c e =
    if not e.kbdstate.lshft && not e.kbdstate.rshft
    then c
    else shifted shift_map (if leb b'a' c && leb c b'z' then c - 32 else c)
