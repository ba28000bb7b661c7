-- ===== src/Kbd/Alive.antt =====
-- The driver does not get stuck: a key that is pressed again and again is reported.
use model_lib.Base.{
  ℕ, zero, suc, ◌≤◌, ◌<◌, ◌≡◌, ◌≢◌, refl, ap, ◌∙◌, true, false, some, List, [], ◌∷◌, ◌++◌, arith,
  ltb, if◌then◌else◌, Bool-cases, inl, inr, ◌⊎◌,
}
use model_lib.Kbd.Keys.{KeyEvent, state_related_key_start, max_scancode}
use model_lib.Kbd.{
  Keyboard, ParserState, init, pause, extended, print_make, print_break, parse_scancode,
  kbd_poll_event, key_at, data_event, is_keypad_key,
}
use model_lib.Kbd.Valid.{IsValid, parse_scancode-IsValid}
use model_lib.Kbd.Modifiers.{idle, init-key, poll_next, poll_lem}
use model_lib.Kbd.Sequences.{distance, distance-bound, parse_scancode-distance}

pub repeat : ℕ → ℕ → List ℕ
repeat zero c = []
repeat (suc n) c = c ∷ repeat n c

-- The bytes give an event with data.
pub record Reported (k : Keyboard) (bytes : List ℕ) : Type 0 where
  pub after : Keyboard
  pub event : KeyEvent
  pub unread : List ℕ
  pub result : kbd_poll_event k bytes ≡ some (after, event, unread)
  pub hasdata : event.hasdata ≡ true

init-cases : (p : ParserState) → (p ≡ init) ⊎ (p ≢ init)
init-cases init = inl refl
init-cases pause = inr (λ e. cc)
init-cases extended = inr (λ e. cc)
init-cases print_make = inr (λ e. cc)
init-cases print_break = inr (λ e. cc)

now-Reported :
    (k k' : Keyboard) (c : ℕ) (cs : List ℕ) (e : KeyEvent)
    → parse_scancode k c ≡ some (k', e)
    → e.hasdata ≡ true
    → Reported k (c ∷ cs)
unfolding poll_next
now-Reported k k' c cs e run now = record {
  after = k';
  event = e;
  unread = cs;
  result =
      poll_lem k c cs
      ∙ ap (λ r. poll_next r cs) run
      ∙ ap (λ b. if b then some (k', e, cs) else kbd_poll_event k' cs) now;
  hasdata = now;
}

later-Reported :
    (k k' : Keyboard) (c : ℕ) (cs : List ℕ) (e : KeyEvent)
    → parse_scancode k c ≡ some (k', e)
    → e.hasdata ≡ false
    → Reported k' cs
    → Reported k (c ∷ cs)
unfolding poll_next
later-Reported k k' c cs e run quiet r = record {
  after = r.after;
  event = r.event;
  unread = r.unread;
  result =
      poll_lem k c cs
      ∙ ap (λ r. poll_next r cs) run
      ∙ ap (λ b. if b then some (k', e, cs) else kbd_poll_event k' cs) quiet
      ∙ r.result;
  hasdata = r.hasdata;
}

module _ (c key : ℕ) (small : c ≤ 88) (mapped : key_at c ≡ some key)
    (plain : ltb state_related_key_start key ≡ false) where
  idle-Reported : (k : Keyboard) (cs : List ℕ) → k.parser_state ≡ init → Reported k (c ∷ cs)
  unfolding data_event
  idle-Reported k cs e =
      now-Reported k (idle k.state 0) c cs (data_event (idle k.state 0) key (is_keypad_key c))
        (ap (λ p. parse_scancode (record k { parser_state = p }) c) e
          ∙ (init-key k.state k.sequence_index c key (small, mapped)).0
          ∙ rw plain refl)
        refl

  -- Within the distance, or at the first byte behind it.
  repeated-Reported :
      (n : ℕ) (k : Keyboard) (cs : List ℕ)
      → IsValid k
      → distance k < n
      → Reported k (repeat n c ++ cs)
  unfolding repeat
  repeated-Reported zero k cs v h = absurd (omega arith)
  repeated-Reported (suc n) k cs v h = elim (init-cases k.parser_state) [
    | inl between ↦ idle-Reported k (repeat n c ++ cs) between
    | inr inside ↦
        let (k', e, run, v') = parse_scancode-IsValid k c v in
        elim (Bool-cases e.hasdata) [
          | inl data_now ↦ now-Reported k k' c (repeat n c ++ cs) e run data_now
          | inr quiet ↦ later-Reported k k' c (repeat n c ++ cs) e run quiet (
              repeated-Reported n k' cs v'
                (omega (arith, (parse_scancode-distance k c v inside run).1)))
        ]
  ]

-- Whatever valid state the driver is in, also in the middle of a long scan code, `kbd_poll_event` returns with an event that has data
-- when a mapped key that is no modifier after left control is pressed six times.
pub poll-Reported :
    (k : Keyboard) (c key : ℕ) (cs : List ℕ)
    → IsValid k
    → c ≤ max_scancode
    → key_at c ≡ some key
    → ltb state_related_key_start key ≡ false
    → Reported k (repeat 6 c ++ cs)
poll-Reported k c key cs v small mapped plain =
    repeated-Reported c key small mapped plain 6 k cs v
      (omega (arith, distance-bound k.parser_state k.sequence_index))
