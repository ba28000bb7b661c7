-- ===== src/Printf/Format.antt =====
-- `printf` prints a format as its pieces say.
use model_lib.Base.{
  ℕ, suc, ◌+◌, ◌-◌, ◌*◌, ◌/◌, ◌%◌, ◌≤◌, ◌≡◌, refl, ◌∙◌, arith, false, Option, none, some, List, [],
  ◌∷◌, ◌++◌, length, length-append,
}
use mathlib.Core.List.{append_assoc}
use model_lib.Number.{int_chars}
use model_lib.Number.Reading.{int_chars-Digits}
use model_lib.Printf.{Memory, regular, spaces, prepend, printf_loop, printf}
use model_lib.Printf.Pieces.{
  Value, character, signed, unsigned, hex, pointer, text, Last, arg_of, Piece, literal, plain, wide,
  letter, value_chars, value_count, format_of, args_of, shown, IsValid, valid_literal, valid_plain,
  valid_wide,
}
use model_lib.Printf.Rounds.{
  job, left, printf_loop-end, digit_rounds, digit_rounds_lem, literal-round, plain-rounds,
  wide-rounds,
}

-- The rounds for the pieces, and `k` more.
rounds_of : List Piece → ℕ → ℕ
rounds_of [] k = k
rounds_of (literal c ∷ ps) k = suc (rounds_of ps k)
rounds_of (plain v ∷ ps) k = suc (suc (suc (rounds_of ps k)))
rounds_of (wide w v ∷ ps) k =
    suc (suc (digit_rounds (int_chars w false 10) (suc (suc (rounds_of ps k)))))

rounds_of-more : (ps : List Piece) (k : ℕ) → rounds_of ps k ≡ rounds_of ps 0 + k
unfolding rounds_of
rounds_of-more [] k = omega arith
rounds_of-more (literal c ∷ ps) k = omega (arith, rounds_of-more ps k)
rounds_of-more (plain v ∷ ps) k = omega (arith, rounds_of-more ps k)
rounds_of-more (wide w v ∷ ps) k =
    let one = digit_rounds_lem (int_chars w false 10) (suc (suc (rounds_of ps k))) in
    let two = digit_rounds_lem (int_chars w false 10) (suc (suc (rounds_of ps 0))) in
    omega (arith, rounds_of-more ps k, one, two)

prepend-some :
    (chars rest : List ℕ) (o : Option (List ℕ))
    → o ≡ some rest
    → prepend chars o ≡ some (chars ++ rest)
unfolding prepend
prepend-some chars rest o e = rw e refl

module _ (memory : Memory) where
  -- Two rounds for a character are enough.
  rounds_of-le : (ps : List Piece) → IsValid memory ps → rounds_of ps 0 ≤ 2 * length (format_of ps)
  unfolding rounds_of format_of
  rounds_of-le [] ok = omega arith
  rounds_of-le (literal c ∷ ps) (valid_literal there other ok) = omega (arith, rounds_of-le ps ok)
  rounds_of-le (plain v ∷ ps) (valid_plain fine last ok) = omega (arith, rounds_of-le ps ok)
  rounds_of-le (wide w v ∷ ps) (valid_wide lt fine last ok) =
      let one = digit_rounds_lem (int_chars w false 10) (suc (suc (rounds_of ps 0))) in
      let two = length-append (int_chars w false 10) (letter v ∷ format_of ps) in
      let some_digits = (int_chars-Digits w lt).1 in
      omega (arith, rounds_of-le ps ok, one, two, some_digits)

  -- Where no argument follows a character, what is left of the stack begins with the arguments to come.
  left_lem :
      (v : Value) (ps : List Piece) (stack : List ℕ)
      → Last memory v ps
      → (rest : List ℕ) × (left v (args_of ps ++ stack) ≡ args_of ps ++ rest)
  left_lem (character x) ps stack last =
      (x / 256 % 256 ∷ x / 65536 % 256 ∷ x / 16777216 % 256 ∷ stack, rw last refl)
  left_lem (signed x) ps stack last = (stack, refl)
  left_lem (unsigned x) ps stack last = (stack, refl)
  left_lem (hex x) ps stack last = (stack, refl)
  left_lem (pointer x) ps stack last = (stack, refl)
  left_lem (text p t) ps stack last = (stack, refl)

  loop-shown :
      (ps : List Piece) (k : ℕ) (count : Option ℕ) (stack : List ℕ)
      → IsValid memory ps
      → printf_loop memory
          (rounds_of ps k)
          (format_of ps ++ (0 ∷ []))
          (job regular [] count (args_of ps ++ stack))
        ≡ some (shown ps)
  unfolding rounds_of format_of args_of shown
  loop-shown [] k count stack ok = printf_loop-end memory k (job regular [] count stack)
  loop-shown (literal c ∷ ps) k count stack (valid_literal there other ok) =
      literal-round memory c (rounds_of ps k) (format_of ps ++ (0 ∷ [])) count (args_of ps ++ stack)
        there other
      ∙ prepend-some (c ∷ []) (shown ps) _ (loop-shown ps k count stack ok)
  loop-shown (plain v ∷ ps) k count stack (valid_plain fine last ok) =
      let (rest, behind) = left_lem v ps stack last in
      rw (append_assoc (arg_of v) (args_of ps) stack) (
        plain-rounds memory v (rounds_of ps k) (format_of ps ++ (0 ∷ [])) count
          (args_of ps ++ stack) fine
        ∙ prepend-some (value_chars v) (shown ps) _
            (rw behind (loop-shown ps k (some (value_count v)) rest ok)))
  loop-shown (wide w v ∷ ps) k count stack (valid_wide lt fine last ok) =
      let ds = int_chars w false 10 in
      let (rest, behind) = left_lem v ps stack last in
      rw
        (
          append_assoc ds (letter v ∷ format_of ps) (0 ∷ []),
          append_assoc (arg_of v) (args_of ps) stack,
        )
        (wide-rounds memory w (rounds_of ps k) v (format_of ps ++ (0 ∷ [])) count
            (args_of ps ++ stack) lt fine
          ∙ prepend-some (value_chars v ++ spaces (w - value_count v)) (shown ps) _
              (rw behind (loop-shown ps k (some (value_count v)) rest ok)))

  -- For a row of pieces whose literals are neither `%` nor zero, whose numbers are below 2 ^ 32 and whose widths are
  -- below 10 ^ 9, whose strings have no zero and 1024 characters at most and stand in the memory at an
  -- address other than 0, and where no argument follows a character: `printf` of their format, with
  -- their arguments on the stack, whatever is behind them, ends. It prints each literal and each value,
  -- with spaces behind the value up to its width, in their order. A minus does not count for the width.
  pub printf-shown :
      (ps : List Piece) (stack : List ℕ)
      → IsValid memory ps
      → printf memory (format_of ps ++ (0 ∷ [])) (args_of ps ++ stack) ≡ some (shown ps)
  unfolding printf
  printf-shown ps stack ok =
      let k : ℕ = 2 * length (format_of ps ++ (0 ∷ [])) - rounds_of ps 0 in
      let len = length-append (format_of ps) (0 ∷ []) in
      let enough : 2 * length (format_of ps ++ (0 ∷ [])) ≡ rounds_of ps k =
        omega (arith, len, rounds_of-le ps ok, rounds_of-more ps k) in
      rw enough (loop-shown ps k none stack ok)
