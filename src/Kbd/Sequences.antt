-- ===== src/Kbd/Sequences.antt =====
-- The long scan codes, and the distance from the first state of the parser.
use model_lib.Base.{
  ℕ, ◌+◌, ◌-◌, ◌%◌, ◌≤◌, ◌<◌, ◌≡◌, ◌≢◌, refl, Bool, true, false, none, some, List, ◌∷◌, length,
  arith,
}
use model_lib.Kbd.Keys.{KeyboardState, KeyEvent, key_pause, key_prnt}
use model_lib.Kbd.{
  Keyboard, ParserState, init, pause, extended, print_make, print_break, parse_scancode,
  kbd_poll_event, handle_init_state, handle_extended_state, handle_sequence_state, init_plain,
  init_found, init_key, key_at, extended_rest, extended_quiet, sequence_step, null_event, raw_event,
  data_event, is_make_code, to_make_code, update_state, is_keypad_key, dispatch, pause_sequence,
  print_make_sequence, print_break_sequence, Step,
}
use model_lib.Kbd.Valid.{IsValid, limit, get_elem?_total}
use model_lib.Kbd.Modifiers.{idle}

-- The six bytes of the pause key give one event, with that key, and leave the driver between two
-- scan codes with the same modifiers; what follows is not read.
pub poll-pause :
    (s : KeyboardState) (n : ℕ) (rest : List ℕ)
    → kbd_poll_event (idle s n) (0xe1 ∷ 0x1d ∷ 0x45 ∷ 0xe1 ∷ 0x9d ∷ 0xc5 ∷ rest)
      ≡ some (idle s 4, data_event (idle s 4) key_pause false, rest)
unfolding kbd_poll_event parse_scancode handle_init_state handle_sequence_state sequence_step
    null_event data_event
poll-pause s n rest = refl

-- The make sequence of the print screen key, e0 2a e0 37, is given as the `*` of the keypad,
-- whatever the modifiers: the parser enters the state for the sequence after its second byte and
-- then expects that byte again.
pub poll-print_screen :
    (s : KeyboardState) (n : ℕ) (rest : List ℕ)
    → kbd_poll_event (idle s n) (0xe0 ∷ 0x2a ∷ 0xe0 ∷ 0x37 ∷ rest)
      ≡ some (idle s 0, data_event (idle s 0) 42 true, rest)
unfolding kbd_poll_event parse_scancode handle_init_state handle_extended_state extended_rest
    extended_quiet handle_sequence_state sequence_step null_event data_event raw_event init_plain
    init_found init_key key_at is_make_code to_make_code update_state is_keypad_key
poll-print_screen s n rest = refl

-- How many bytes the parser takes at most before it is between two scan codes.
abbrev pub distance_from : ParserState → ℕ → ℕ
distance_from init n = 0
distance_from pause n = 5 - n
distance_from extended n = 4
distance_from print_make n = 3 - n
distance_from print_break n = 3 - n

abbrev pub distance : Keyboard → ℕ
distance k = distance_from k.parser_state k.sequence_index

-- The step comes closer, or is there.
Closer : ℕ → Step → Type 0
Closer d none = ⊥
Closer d (some (k, e)) = distance k < d

sequence_step-Closer :
    (k : Keyboard) (c x n : ℕ) (st : ParserState) (b : Bool) (key : ℕ)
    → n ≤ 5
    → k.sequence_index < n
    → ((i : ℕ) → distance_from st i ≡ n - i)
    → Closer (n - k.sequence_index) (some (sequence_step k c x n st b key))
unfolding Closer sequence_step
sequence_step-Closer k c x n st b key small h d =
    ground (arith, d ((k.sequence_index + 1) % 256), d (k.sequence_index + 1))

sequence_state-Closer :
    (k : Keyboard) (c : ℕ) (xs : List ℕ) (st : ParserState) (b : Bool) (key : ℕ)
    → length xs ≤ 5
    → k.sequence_index < length xs
    → ((i : ℕ) → distance_from st i ≡ length xs - i)
    → Closer (length xs - k.sequence_index) (handle_sequence_state k c xs st b key)
unfolding handle_sequence_state
sequence_state-Closer k c xs st b key small h d =
    let (x, found) = get_elem?_total xs k.sequence_index h in
    rw (found, handle_sequence_state) (sequence_step-Closer k c x (length xs) st b key small h d)

extended_state-Closer :
    (k : Keyboard) (c : ℕ) → k.sequence_index ≡ 0 → Closer 4 (some (handle_extended_state k c))
unfolding Closer handle_extended_state extended_rest extended_quiet
extended_state-Closer k c z = ground arith

dispatch-Closer :
    (st : ParserState) (k : Keyboard) (c : ℕ)
    → k.sequence_index < limit st
    → st ≢ init
    → Closer (distance_from st k.sequence_index) (dispatch st k c)
unfolding dispatch
dispatch-Closer init k c v ne = absurd (ne refl)
dispatch-Closer pause k c v ne =
    sequence_state-Closer k c pause_sequence pause false key_pause (omega arith) v (λ i. refl)
dispatch-Closer extended k c v ne = extended_state-Closer k c (omega arith)
dispatch-Closer print_make k c v ne =
    sequence_state-Closer k c print_make_sequence print_make false key_prnt (omega arith) v
      (λ i. refl)
dispatch-Closer print_break k c v ne =
    sequence_state-Closer k c print_break_sequence print_break true key_prnt (omega arith) v
      (λ i. refl)

pub distance-bound : (st : ParserState) (i : ℕ) → distance_from st i ≤ 5
distance-bound init i = omega arith
distance-bound pause i = omega arith
distance-bound extended i = omega arith
distance-bound print_make i = omega arith
distance-bound print_break i = omega arith

-- A valid parser in the middle of a scan code is at most five bytes from the end of it, and every
-- byte, whichever it is, brings it closer.
pub parse_scancode-distance :
    (k : Keyboard) (c : ℕ) {k' : Keyboard} {e : KeyEvent}
    → IsValid k
    → k.parser_state ≢ init
    → parse_scancode k c ≡ some (k', e)
    → (distance k ≤ 5) × (distance k' < distance k)
unfolding parse_scancode
parse_scancode-distance k c v ne h = (
  distance-bound k.parser_state k.sequence_index,
  unfold Closer in (rw h at (dispatch-Closer k.parser_state k c v ne)),
)
