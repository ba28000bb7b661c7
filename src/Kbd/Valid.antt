-- ===== src/Kbd/Valid.antt =====
-- The parser stays inside its tables, and comes back to its first state.
use model_lib.Base.{
  ℕ, zero, suc, ◌%◌, ◌<◌, ◌≡◌, refl, inl, inr, Bool, true, false, ◌==◌, ltb, some, List, [], ◌∷◌,
  length, get_elem?, arith, Bool-cases,
}
use model_lib.Kbd.Keys.{KeyEvent, key_map, max_scancode, key_pause, key_prnt}
use model_lib.Kbd.{
  Keyboard, ParserState, init, pause, extended, print_make, print_break, parse_scancode,
  pause_sequence, print_make_sequence, print_break_sequence, to_make_code, handle_init_state,
  handle_extended_state, handle_sequence_state, init_plain, sequence_step, dispatch, extended_quiet,
  extended_rest, init_key, key_at, init_found, Step,
}

-- How many bytes of a sequence may follow in a state.
abbrev pub limit : ParserState → ℕ
limit init = 256
limit pause = 5
limit extended = 1
limit print_make = 3
limit print_break = 3

-- The index of the next byte lies in the sequence of the state; in the extended state it is 0.
abbrev pub IsValid : Keyboard → Type 0
IsValid k = k.sequence_index < limit k.parser_state

pub get_elem?_total : (xs : List ℕ) (i : ℕ) → i < length xs → (x : ℕ) × (get_elem? xs i ≡ some x)
get_elem?_total [] i h = absurd (omega arith)
get_elem?_total (x ∷ xs) zero h = (x, refl)
get_elem?_total (x ∷ xs) (suc i) h = get_elem?_total xs i (omega arith)

-- The step has a result, and the result is valid.
abbrev Good : Step → Type 0
Good r = (k : Keyboard) × (e : KeyEvent) × (r ≡ some (k, e)) × IsValid k

init_plain-Good :
    (k : Keyboard) (c : ℕ) → k.sequence_index ≡ 0 → k.parser_state ≡ init → Good (init_plain k c)
unfolding init_plain init_found init_key to_make_code
init_plain-Good k c z st = elim (Bool-cases (ltb max_scancode (to_make_code c))) [
  | inl beyond ↦ rw beyond (k, _, refl, ground arith)
  | inr inside ↦
      let (key, found) = get_elem?_total key_map (c % 128) (ground arith) in
      let at : key_at (c % 128) ≡ some key = unfold key_at in found in
      rw (inside, at) ((init_key k c key).0, (init_key k c key).1, refl, ground arith)
]

init_state-Good : (k : Keyboard) (c : ℕ) → Good (handle_init_state k c)
unfolding handle_init_state
init_state-Good k c = elim (Bool-cases (c == 0xe1)) [
  | inl first ↦ rw first (_, _, refl, omega arith)
  | inr other ↦ elim (Bool-cases (c == 0xe0)) [
    | inl second ↦ rw (other, second) (_, _, refl, omega arith)
    | inr plain ↦ rw (other, plain) (init_plain-Good _ c refl refl)
  ]
]

extended_state-IsValid :
    (k : Keyboard) (c : ℕ) → k.sequence_index ≡ 0 → IsValid (handle_extended_state k c).0
unfolding handle_extended_state extended_rest extended_quiet
extended_state-IsValid k c z = ground arith

extended_state-Good :
    (k : Keyboard) (c : ℕ) → k.sequence_index ≡ 0 → Good (some (handle_extended_state k c))
extended_state-Good k c z =
    let r = handle_extended_state k c in (r.0, r.1, refl, extended_state-IsValid k c z)

sequence_state-Good :
    (k : Keyboard) (c : ℕ) (xs : List ℕ) (st : ParserState) (is_break : Bool) (key : ℕ)
    → k.sequence_index < length xs
    → length xs ≡ limit st
    → Good (handle_sequence_state k c xs st is_break key)
unfolding handle_sequence_state sequence_step
sequence_state-Good k c xs st is_break key h e =
    let (x, found) = get_elem?_total xs k.sequence_index h in
    let r = sequence_step k c x (length xs) st is_break key in
    rw (found, handle_sequence_state) (r.0, r.1, refl, ground arith)

dispatch-Good :
    (st : ParserState) (k : Keyboard) (c : ℕ) → k.sequence_index < limit st → Good (dispatch st k c)
unfolding dispatch
dispatch-Good init k c h = init_state-Good k c
dispatch-Good pause k c h = sequence_state-Good k c pause_sequence pause false key_pause h refl
dispatch-Good extended k c h = extended_state-Good k c (omega arith)
dispatch-Good print_make k c h =
    sequence_state-Good k c print_make_sequence print_make false key_prnt h refl
dispatch-Good print_break k c h =
    sequence_state-Good k c print_break_sequence print_break true key_prnt h refl

-- From a valid state the parser takes any byte without leaving its tables, and is valid again.
pub parse_scancode-IsValid :
    (k : Keyboard) (c : ℕ)
    → IsValid k
    → (k' : Keyboard) × (e : KeyEvent) × (parse_scancode k c ≡ some (k', e)) × IsValid k'
unfolding parse_scancode
parse_scancode-IsValid k c v = dispatch-Good k.parser_state k c v
