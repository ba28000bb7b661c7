-- ===== src/Kbd/Modifiers.antt =====
-- The modifier keys: what presses and releases do to the state, and the left control key, which the
-- driver never sees held.
use model_lib.Base.{
  ℕ, ◌+◌, ◌/◌, ◌%◌, ◌≤◌, ◌≡◌, ◌≢◌, refl, inl, inr, Bool, true, false, ◌==◌, ◌||◌, ltb,
  if◌then◌else◌, Option, none, some, List, [], ◌∷◌, length, get_elem?, arith, Bool-cases,
  Option-cases, ap, ◌∙◌, sym,
}
use model_lib.Kbd.Keys.{
  KeyboardState, KeyEvent, max_scancode, key_pause, key_prnt, state_related_key_start,
}
use model_lib.Kbd.{
  Keyboard, ParserState, init, pause, extended, print_make, print_break, parse_scancode,
  pause_sequence, print_make_sequence, print_break_sequence, to_make_code, is_make_code,
  is_keypad_key, handle_init_state, handle_extended_state, handle_sequence_state, init_plain,
  sequence_step, dispatch, init_key, key_at, init_found, extended_rest, extended_quiet, Step,
  update_state, null_event, data_event, raw_event, kbd_poll_event,
}

-- A scan byte that is neither a header nor beyond the map.
abbrev Plain : ℕ → ℕ → Type 0
Plain c key = (c ≤ max_scancode) × (key_at c ≡ some key)

-- The driver between two scan codes.
abbrev pub idle : KeyboardState → ℕ → Keyboard
idle s n = record { state = s; parser_state = init; sequence_index = n }

choose :
    (b : Bool) (x y : Keyboard × KeyEvent) → (if b || false then x else y) ≡ (if b then x else y)
choose true x y = refl
choose false x y = refl

or_true : (b : Bool) → (b || true) ≡ true
or_true true = refl
or_true false = refl

module _ (s : KeyboardState) (n c key : ℕ) (plain : Plain c key) where
  press : init_plain (idle s 0) c ≡ some (init_key (idle s 0) c key)
  unfolding init_plain init_found to_make_code
  press =
      let small : c % 128 ≡ c = omega (arith, plain.0) in
      let inside : ltb max_scancode c ≡ false = ground (arith, plain.0) in
      rw small (rw (inside, plain.1))

  release : init_plain (idle s 0) (c + 128) ≡ some (init_key (idle s 0) (c + 128) key)
  unfolding init_plain init_found to_make_code
  release =
      let small : (c + 128) % 128 ≡ c = omega (arith, plain.0) in
      let inside : ltb max_scancode c ≡ false = ground (arith, plain.0) in
      rw small (rw (inside, plain.1))

  no_header : (d : ℕ) → d ≢ 0xe1 → d ≢ 0xe0 → parse_scancode (idle s n) d ≡ init_plain (idle s 0) d
  unfolding parse_scancode handle_init_state
  no_header d h k = ground arith

  press_key : init_key (idle s 0) c key ≡ (
      if ltb state_related_key_start key
      then (record (idle s 0) { state = update_state s key true }, null_event)
      else (idle s 0, data_event (idle s 0) key (is_keypad_key c)))
  unfolding init_key is_make_code to_make_code
  press_key =
      let small : c % 128 ≡ c = omega (arith, plain.0) in
      let makes : (c / 128 % 2 == 0) ≡ true = ground (arith, plain.0) in
      rw (small, makes) (choose (ltb state_related_key_start key) _ _)

  release_key :
      init_key (idle s 0) (c + 128) key
      ≡ (record (idle s 0) { state = update_state s key false }, null_event)
  unfolding init_key is_make_code
  release_key =
      let breaks : ((c + 128) / 128 % 2 == 0) ≡ false = ground (arith, plain.0) in
      rw (breaks, or_true (ltb state_related_key_start key))

  -- Between two scan codes, the make code of a mapped key that is a modifier after left control is
  -- taken as a press and gives no event, the make code of any other mapped key gives an event with
  -- that key, and every break code is taken as a release and gives no event.
  pub init-key :
      (parse_scancode (idle s n) c
        ≡ some (
            if ltb state_related_key_start key
            then (record (idle s 0) { state = update_state s key true }, null_event)
            else (idle s 0, data_event (idle s 0) key (is_keypad_key c))))
      × (parse_scancode (idle s n) (c + 128)
          ≡ some (record (idle s 0) { state = update_state s key false }, null_event))
  init-key = (
    no_header c (omega (arith, plain.0)) (omega (arith, plain.0)) ∙ press ∙ ap some press_key,
    no_header (c + 128) (omega (arith, plain.0)) (omega (arith, plain.0))
        ∙ release
        ∙ ap some release_key,
  )

-- No step sets the bit of the left control key.
Unheld : Step → Type 0
Unheld none = Unit
Unheld (some (k, e)) = (k.state.lctrl ≡ false) × (e.kbdstate.lctrl ≡ false)

module _ (k : Keyboard) (c : ℕ) (free : k.state.lctrl ≡ false) where
  init_key-Unheld : (key : ℕ) → Unheld (some (init_key k c key))
  unfolding Unheld init_key update_state is_make_code data_event null_event
  init_key-Unheld key = ground arith

  sequence_step-Unheld :
      (x n : ℕ) (st : ParserState) (b : Bool) (key : ℕ)
      → Unheld (some (sequence_step k c x n st b key))
  unfolding Unheld sequence_step data_event null_event raw_event
  sequence_step-Unheld x n st b key = ground arith

  extended_state-Unheld : Unheld (some (handle_extended_state k c))
  unfolding Unheld handle_extended_state extended_rest extended_quiet update_state data_event
      null_event raw_event
  extended_state-Unheld = ground arith

  init_plain-Unheld : Unheld (init_plain k c)
  unfolding init_plain
  init_plain-Unheld = elim (Bool-cases (ltb max_scancode (to_make_code c))) [
    | inl beyond ↦ rw beyond (unfold Unheld raw_event null_event in (free, free))
    | inr inside ↦ rw inside (found-Unheld (key_at (to_make_code c)))
  ]
    where
      found-Unheld : (o : Option ℕ) → Unheld (init_found k c o)
      found-Unheld none = unfold Unheld init_found in tt
      found-Unheld (some key) = unfold init_found in init_key-Unheld key

  sequence_state-Unheld :
      (xs : List ℕ) (st : ParserState) (b : Bool) (key : ℕ)
      → Unheld (handle_sequence_state k c xs st b key)
  sequence_state-Unheld xs st b key = elim (Option-cases (get_elem? xs k.sequence_index)) [
    | inl missing ↦ unfold handle_sequence_state Unheld in rw (missing, handle_sequence_state) tt
    | inr (x, found) ↦
        unfold handle_sequence_state in
        rw (found, handle_sequence_state) (sequence_step-Unheld x (length xs) st b key)
  ]

init_state-Unheld : (k : Keyboard) (c : ℕ) → k.state.lctrl ≡ false → Unheld (handle_init_state k c)
unfolding handle_init_state
init_state-Unheld k c free = elim (Bool-cases (c == 0xe1)) [
  | inl first ↦ rw first (unfold Unheld null_event in (free, refl))
  | inr other ↦ elim (Bool-cases (c == 0xe0)) [
    | inl second ↦ rw (other, second) (unfold Unheld null_event in (free, refl))
    | inr plain ↦ rw (other, plain) (init_plain-Unheld _ c free)
  ]
]

dispatch-Unheld :
    (st : ParserState) (k : Keyboard) (c : ℕ) → k.state.lctrl ≡ false → Unheld (dispatch st k c)
unfolding dispatch
dispatch-Unheld init k c h = init_state-Unheld k c h
dispatch-Unheld pause k c h = sequence_state-Unheld k c h pause_sequence pause false key_pause
dispatch-Unheld extended k c h = extended_state-Unheld k c h
dispatch-Unheld print_make k c h =
    sequence_state-Unheld k c h print_make_sequence print_make false key_prnt
dispatch-Unheld print_break k c h =
    sequence_state-Unheld k c h print_break_sequence print_break true key_prnt

parse-Unheld : (k : Keyboard) (c : ℕ) → k.state.lctrl ≡ false → Unheld (parse_scancode k c)
unfolding parse_scancode
parse-Unheld k c h = dispatch-Unheld k.parser_state k c h

-- What `kbd_poll_event` does with the result of a step.
unfoldable pub poll_next : (r : Step) (cs : List ℕ) → Option (Keyboard × KeyEvent × List ℕ)
poll_next none cs = none
poll_next (some (k, e)) cs = if e.hasdata then some (k, e, cs) else kbd_poll_event k cs

pub poll_lem :
    (k : Keyboard) (c : ℕ) (cs : List ℕ)
    → kbd_poll_event k (c ∷ cs) ≡ poll_next (parse_scancode k c) cs
unfolding kbd_poll_event poll_next
poll_lem k c cs = ground arith

-- From a state in which left control is not held, no sequence of bytes, the make code of left
-- control included, makes `kbd_poll_event` report it held or leave it held.
pub poll-Unheld :
    (cs : List ℕ) (k : Keyboard) {k' : Keyboard} {e : KeyEvent} {rest : List ℕ}
    → k.state.lctrl ≡ false
    → kbd_poll_event k cs ≡ some (k', e, rest)
    → (k'.state.lctrl ≡ false) × (e.kbdstate.lctrl ≡ false)
poll-Unheld [] k free h = unfold kbd_poll_event in cc
poll-Unheld (c ∷ cs) k {k'} {e} {rest} free h =
    go (parse_scancode k c) (parse-Unheld k c free) (sym (poll_lem k c cs) ∙ h)
      λ k₁ free₁. poll-Unheld cs k₁ free₁
  where
    go :
        (r : Step)
        → Unheld r
        → poll_next r cs ≡ some (k', e, rest)
        → ((k₁ : Keyboard)
            → k₁.state.lctrl ≡ false
            → kbd_poll_event k₁ cs ≡ some (k', e, rest)
            → (k'.state.lctrl ≡ false) × (e.kbdstate.lctrl ≡ false))
        → (k'.state.lctrl ≡ false) × (e.kbdstate.lctrl ≡ false)
    go none u h ih = unfold poll_next in cc
    go (some (k₁, e₁)) u h ih =
        let u' : (k₁.state.lctrl ≡ false) × (e₁.kbdstate.lctrl ≡ false) = unfold Unheld in u in
        let t : (if e₁.hasdata then some (k₁, e₁, cs) else kbd_poll_event k₁ cs)
            ≡ some (k', e, rest) =
          unfold poll_next in h in
        elim (Bool-cases e₁.hasdata) [
          | inl got ↦
              let same : ◌≡◌ {A = Option (Keyboard × KeyEvent × List ℕ)} (some (k₁, e₁, cs))
                  (some (k', e, rest)) =
                ground (arith, t) in
              let new : k' ≡ k₁ = cc in
              let event : e ≡ e₁ = cc in
              (
                ap (λ (x : Keyboard). x.state.lctrl) new ∙ u'.0,
                ap (λ (x : KeyEvent). x.kbdstate.lctrl) event ∙ u'.1,
              )
          | inr no_data ↦ ih k₁ u'.0 (ground (arith, t))
        ]
