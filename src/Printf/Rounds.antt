-- ===== src/Printf/Rounds.antt =====
-- The rounds that `printf` takes for each piece of a format.
use model_lib.Base.{
  ℕ, zero, suc, ◌+◌, ◌-◌, ◌*◌, ◌/◌, ◌%◌, ◌^◌, ◌≤◌, ◌<◌, ◌≡◌, refl, sym, ap, ◌∙◌, arith, true, false,
  ◌==◌, ltb, Option, none, some, List, [], ◌∷◌, ◌++◌, length, length-append,
}
use mathlib.Core.List.{append_assoc, append-nil}
use model_lib.Text.{isdigit}
use model_lib.Number.{int_chars, int_count}
use model_lib.Number.Reading.{Digits, digits_next, str2uint, int_chars-Digits, str2uint-int_chars}
use model_lib.Printf.{
  State, specifier, regular, width_specifier, type_specifier, Memory, Job, string_chars, counted,
  va_word, take_char, string_at, take_string, int_from, take_int, convert, spaces, pad_of, padding,
  padded, after_type, step, prepend, printf_loop,
}
use model_lib.Printf.Pieces.{
  Value, character, signed, unsigned, hex, pointer, text, letter, word_bytes, arg_of, value_chars,
  value_count, Text, text_next, ValueIsValid, signed_valid, unsigned_valid, hex_valid,
  pointer_valid, text_valid,
}

abbrev pub job : State → List ℕ → Option ℕ → List ℕ → Job
job s widbuf count args = record { state = s; widbuf = widbuf; count = count; args = args }

prepend-nil : (o : Option (List ℕ)) → prepend [] o ≡ o
unfolding prepend
prepend-nil none = refl
prepend-nil (some t) = refl

string_chars_lem :
    (t : List ℕ) (rounds : ℕ)
    → Text t
    → length t ≤ rounds
    → string_chars rounds (t ++ (0 ∷ [])) ≡ some t
unfolding string_chars
string_chars_lem [] zero tx h = refl
string_chars_lem [] (suc rounds) tx h = refl
string_chars_lem (c ∷ t) zero tx h = absurd (omega arith)
string_chars_lem (c ∷ t) (suc rounds) (text_next there tx) h =
    rw (there, string_chars_lem t rounds tx (omega arith)) refl

no_more : (n : ℕ) → n + 0 ≡ n
no_more n = omega arith

-- A word of the stack is read back.
va_word_lem : (x : ℕ) (args : List ℕ) → x < 2 ^ 32 → va_word (word_bytes x ++ args) ≡ some (x, args)
unfolding va_word
va_word_lem x args h =
    let same : x % 256
          + x / 256 % 256 * 256
          + x / 65536 % 256 * 65536
          + x / 16777216 % 256 * 16777216
        ≡ x =
      omega arith in
    rw same refl

-- What a type specifier leaves of the stack: behind a character, the rest of its word comes next.
abbrev pub left : Value → List ℕ → List ℕ
left (character x) args = x / 256 % 256 ∷ x / 65536 % 256 ∷ x / 16777216 % 256 ∷ args
left (signed x) args = args
left (unsigned x) args = args
left (hex x) args = args
left (pointer x) args = args
left (text p t) args = args

letter-ok : (v : Value) → ((letter v == 0) ≡ false) × (isdigit (letter v) ≡ false)
letter-ok (character x) = (refl, refl)
letter-ok (signed x) = (refl, refl)
letter-ok (unsigned x) = (refl, refl)
letter-ok (hex x) = (refl, refl)
letter-ok (pointer x) = (refl, refl)
letter-ok (text p t) = (refl, refl)

-- One round for each digit of a width.
pub digit_rounds : List ℕ → ℕ → ℕ
digit_rounds [] k = k
digit_rounds (d ∷ ds) k = suc (digit_rounds ds k)

pub digit_rounds_lem : (ds : List ℕ) (k : ℕ) → digit_rounds ds k ≡ length ds + k
unfolding digit_rounds
digit_rounds_lem [] k = omega arith
digit_rounds_lem (d ∷ ds) k = omega (arith, digit_rounds_lem ds k)

module _ (memory : Memory) where
  pub printf_loop-end : (k : ℕ) (q : Job) → printf_loop memory k (0 ∷ []) q ≡ some []
  unfolding printf_loop
  printf_loop-end zero q = refl
  printf_loop-end (suc k) q = refl

  -- Every type specifier puts its argument.
  convert_lem :
      (v : Value) (count : Option ℕ) (args : List ℕ)
      → ValueIsValid memory v
      → convert memory (letter v) count (arg_of v ++ args)
        ≡ some (value_chars v, some (value_count v), left v args)
  unfolding convert take_char take_string string_at take_int int_from counted
  convert_lem (character x) count args ok = refl
  convert_lem (signed x) count args (signed_valid h) =
      rw (va_word_lem x args h, no_more (int_count x true 10)) refl
  convert_lem (unsigned x) count args (unsigned_valid h) =
      rw (va_word_lem x args h, no_more (int_count x false 10)) refl
  convert_lem (hex x) count args (hex_valid h) =
      rw (va_word_lem x args h, no_more (int_count x false 16)) refl
  convert_lem (pointer x) count args (pointer_valid h) = rw (va_word_lem x args h) refl
  convert_lem (text p t) count args (text_valid tx h hp there at) =
      rw (va_word_lem p args hp, there, at, string_chars_lem t 1024 tx h) refl

  pub literal-round :
      (c k : ℕ) (s : List ℕ) (count : Option ℕ) (args : List ℕ)
      → (c == 0) ≡ false
      → (c == b'%') ≡ false
      → printf_loop memory (suc k) (c ∷ s) (job regular [] count args)
        ≡ prepend (c ∷ []) (printf_loop memory k s (job regular [] count args))
  unfolding printf_loop step
  literal-round c k s count args there other = rw (printf_loop, there, other) refl

  percent-round :
      (k : ℕ) (s : List ℕ) (count : Option ℕ) (args : List ℕ)
      → printf_loop memory (suc k) (b'%' ∷ s) (job regular [] count args)
        ≡ printf_loop memory k s (job specifier [] count args)
  unfolding printf_loop step
  percent-round k s count args = prepend-nil (printf_loop memory k s (job specifier [] count args))

  type-round :
      (v : Value) (k : ℕ) (s widbuf pad : List ℕ) (count : Option ℕ) (args : List ℕ)
      → ValueIsValid memory v
      → padding widbuf (some (value_count v)) ≡ some pad
      → printf_loop memory
          (suc k)
          (letter v ∷ s)
          (job type_specifier widbuf count (arg_of v ++ args))
        ≡ prepend
            (value_chars v ++ pad)
            (printf_loop memory k s (job regular [] (some (value_count v)) (left v args)))
  unfolding printf_loop step after_type padded
  type-round v k s widbuf pad count args ok pads =
      rw (printf_loop, (letter-ok v).0, convert_lem v count args ok, pads) refl

  -- `specifier` keeps the character.
  specifier-type :
      (c k : ℕ) (s : List ℕ) (count : Option ℕ) (args : List ℕ)
      → (c == 0) ≡ false
      → isdigit c ≡ false
      → printf_loop memory (suc k) (c ∷ s) (job specifier [] count args)
        ≡ printf_loop memory k (c ∷ s) (job type_specifier [] count args)
  unfolding printf_loop step
  specifier-type c k s count args there other =
      rw (printf_loop, there, other)
        (prepend-nil (printf_loop memory k (c ∷ s) (job type_specifier [] count args)))

  specifier-width :
      (c k : ℕ) (s : List ℕ) (count : Option ℕ) (args : List ℕ)
      → (c == 0) ≡ false
      → isdigit c ≡ true
      → printf_loop memory (suc k) (c ∷ s) (job specifier [] count args)
        ≡ printf_loop memory k (c ∷ s) (job width_specifier [] count args)
  unfolding printf_loop step
  specifier-width c k s count args there digit =
      rw (printf_loop, there, digit)
        (prepend-nil (printf_loop memory k (c ∷ s) (job width_specifier [] count args)))

  digit-round :
      (c k : ℕ) (s widbuf : List ℕ) (count : Option ℕ) (args : List ℕ)
      → (c == 0) ≡ false
      → isdigit c ≡ true
      → ltb (length widbuf) 10 ≡ true
      → printf_loop memory (suc k) (c ∷ s) (job width_specifier widbuf count args)
        ≡ printf_loop memory k s (job width_specifier (widbuf ++ (c ∷ [])) count args)
  unfolding printf_loop step
  digit-round c k s widbuf count args there digit room =
      rw (printf_loop, there, digit, room)
        (prepend-nil (printf_loop memory k s (job width_specifier (widbuf ++ (c ∷ [])) count args)))

  width-type :
      (c k : ℕ) (s widbuf : List ℕ) (count : Option ℕ) (args : List ℕ)
      → (c == 0) ≡ false
      → isdigit c ≡ false
      → ltb (length widbuf) 10 ≡ true
      → printf_loop memory (suc k) (c ∷ s) (job width_specifier widbuf count args)
        ≡ printf_loop memory k (c ∷ s) (job type_specifier widbuf count args)
  unfolding printf_loop step
  width-type c k s widbuf count args there other room =
      rw (printf_loop, there, other, room)
        (prepend-nil (printf_loop memory k (c ∷ s) (job type_specifier widbuf count args)))

  width-rounds :
      (ds widbuf s : List ℕ) (k : ℕ) (count : Option ℕ) (args : List ℕ)
      → Digits ds
      → length widbuf + length ds ≤ 9
      → printf_loop memory (digit_rounds ds k) (ds ++ s) (job width_specifier widbuf count args)
        ≡ printf_loop memory k s (job width_specifier (widbuf ++ ds) count args)
  unfolding digit_rounds
  width-rounds [] widbuf s k count args di h =
      ap (λ w. printf_loop memory k s (job width_specifier w count args)) (sym (append-nil widbuf))
  width-rounds (d ∷ ds) widbuf s k count args (digits_next lo hi di) h =
      let there : (d == 0) ≡ false = ground arith in
      let digit : isdigit d ≡ true = ground arith in
      let room : ltb (length widbuf) 10 ≡ true = ground arith in
      let one = length-append widbuf (d ∷ []) in
      let total : length (widbuf ++ (d ∷ [])) + length ds ≤ 9 = omega (arith, one) in
      digit-round d (digit_rounds ds k) (ds ++ s) widbuf count args there digit room
      ∙ width-rounds ds (widbuf ++ (d ∷ [])) s k count args di total
      ∙ ap (λ w. printf_loop memory k s (job width_specifier w count args))
          (append_assoc widbuf (d ∷ []) ds)

  pub plain-rounds :
      (v : Value) (k : ℕ) (s : List ℕ) (count : Option ℕ) (args : List ℕ)
      → ValueIsValid memory v
      → printf_loop memory
          (suc (suc (suc k)))
          (b'%' ∷ letter v ∷ s)
          (job regular [] count (arg_of v ++ args))
        ≡ prepend
            (value_chars v)
            (printf_loop memory k s (job regular [] (some (value_count v)) (left v args)))
  plain-rounds v k s count args ok =
      percent-round (suc (suc k)) (letter v ∷ s) count (arg_of v ++ args)
      ∙ specifier-type (letter v) (suc k) s count (arg_of v ++ args) (letter-ok v).0 (letter-ok v).1
      ∙ type-round v k s [] [] count args ok (unfold padding in refl)
      ∙ ap
          (λ t.
            prepend t
              (printf_loop memory k s (job regular [] (some (value_count v)) (left v args))))
          (append-nil (value_chars v))

  width-padding :
      (ds : List ℕ) (w n : ℕ)
      → 1 ≤ length ds
      → w < 10 ^ 9
      → str2uint (ds ++ (0 ∷ [])) ≡ some w
      → padding ds (some n) ≡ some (spaces (w - n))
  unfolding padding pad_of
  width-padding [] w n pos h e = absurd (omega arith)
  width-padding (d ∷ ds) w n pos h e =
      let plus : ltb w (2 ^ 31) ≡ true = ground arith in rw (e, plus) refl

  width-first :
      (ds s : List ℕ) (k : ℕ) (count : Option ℕ) (args : List ℕ)
      → Digits ds
      → 1 ≤ length ds
      → printf_loop memory (suc k) (ds ++ s) (job specifier [] count args)
        ≡ printf_loop memory k (ds ++ s) (job width_specifier [] count args)
  width-first [] s k count args di pos = absurd (omega arith)
  width-first (d ∷ ds) s k count args (digits_next lo hi di) pos =
      specifier-width d k (ds ++ s) count args (ground arith) (ground arith)

  pub wide-rounds :
      (w k : ℕ) (v : Value) (s : List ℕ) (count : Option ℕ) (args : List ℕ)
      → w < 10 ^ 9
      → ValueIsValid memory v
      → printf_loop memory
          (suc (suc (digit_rounds (int_chars w false 10) (suc (suc k)))))
          (b'%' ∷ (int_chars w false 10 ++ (letter v ∷ s)))
          (job regular [] count (arg_of v ++ args))
        ≡ prepend
            (value_chars v ++ spaces (w - value_count v))
            (printf_loop memory k s (job regular [] (some (value_count v)) (left v args)))
  wide-rounds w k v s count args lt ok =
      let ds = int_chars w false 10 in
      let all = arg_of v ++ args in
      let rest = letter v ∷ s in
      let rounds = digit_rounds ds (suc (suc k)) in
      let d = int_chars-Digits w lt in
      percent-round (suc rounds) (ds ++ rest) count all
      ∙ width-first ds rest rounds count all d.0 d.1
      ∙ width-rounds ds [] rest (suc (suc k)) count all d.0 (omega (arith, d.2))
      ∙ width-type (letter v) (suc k) s ds count all (letter-ok v).0 (letter-ok v).1
          (ground (arith, d.2))
      ∙ type-round v k s ds (spaces (w - value_count v)) count args ok
          (width-padding ds w (value_count v) d.1 lt (str2uint-int_chars w lt))
