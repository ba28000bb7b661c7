-- ===== src/Kbd/Tests.antt =====
-- Runs of the keyboard driver.
use model_lib.Base.{◌≡◌, refl, arith, true, false, some, [], ◌∷◌, ◌++◌}
use model_lib.Kbd.Keys.{KeyEvent, key_l_shft}
use model_lib.Kbd.{
  Keyboard, pause, no_keys, null_event, data_event, is_keypad_key, update_state, key_at,
  parse_scancode, kbd_poll_event, handle_init_state, handle_sequence_state, sequence_step,
  init_plain, init_found, init_key, is_make_code, to_make_code,
}
use model_lib.Kbd.Valid.{IsValid, parse_scancode-IsValid}
use model_lib.Kbd.Modifiers.{idle, poll-Unheld}
use model_lib.Kbd.Alive.{repeat, Reported, poll-Reported}

abbrev in_pause : Keyboard
in_pause = record { state = no_keys; parser_state = pause; sequence_index = 2 }

abbrev shift_event : KeyEvent
shift_event = record {
  value = 97;
  raw = 0;
  make = false;
  keypad = false;
  hasdata = true;
  hasraw = false;
  kbdstate = record no_keys { lshft = true };
}

-- Shift is pressed, `a` is pressed and released, and shift is released.
shift_a :
    kbd_poll_event (idle no_keys 0) (0x2a ∷ 0x1e ∷ 0x9e ∷ 0xaa ∷ [])
    ≡ some (idle (record no_keys { lshft = true }) 0, shift_event, 0x9e ∷ 0xaa ∷ [])
unfolding kbd_poll_event parse_scancode handle_init_state init_plain init_found init_key key_at
    is_make_code to_make_code update_state is_keypad_key null_event data_event
shift_a = refl

parse_scancode-IsValid_example :
    (k' : Keyboard) × (e : KeyEvent) × (parse_scancode in_pause 0xe1 ≡ some (k', e)) × IsValid k'
parse_scancode-IsValid_example = parse_scancode-IsValid in_pause 0xe1 (omega arith)

-- 0x2a is the left shift key.
left_shift : key_at 0x2a ≡ some key_l_shft
unfolding key_at
left_shift = refl

in_pause_step :
    parse_scancode in_pause 0xe1 ≡ some (record in_pause { sequence_index = 3 }, null_event)
unfolding parse_scancode handle_sequence_state sequence_step
in_pause_step = refl

poll-Unheld_example :
    ((idle (record no_keys { lshft = true }) 0).state.lctrl ≡ false)
    × (shift_event.kbdstate.lctrl ≡ false)
poll-Unheld_example = poll-Unheld (0x2a ∷ 0x1e ∷ 0x9e ∷ 0xaa ∷ []) (idle no_keys 0) refl shift_a

-- From the middle of the pause sequence, with the key `a`.
letter_a : key_at 0x1e ≡ some 97
unfolding key_at
letter_a = refl

poll-Reported_example : Reported in_pause (repeat 6 0x1e ++ [])
poll-Reported_example = poll-Reported in_pause 0x1e 97 [] (omega arith) (omega arith) letter_a refl
