-- ===== src/Printf/Tests.antt =====
-- Runs of `printf`.
use model_lib.Base.{
  ◌-◌, ◌^◌, ◌≡◌, refl, arith, ◌==◌, if◌then◌else◌, none, some, List, [], ◌∷◌, ◌++◌,
}
use model_lib.Printf.{
  Memory, step, convert, take_char, after_type, padding, padded, prepend, printf_loop, printf,
}
use model_lib.Printf.Pieces.{
  Piece, literal, plain, wide, signed, unsigned, text, format_of, args_of, shown, valid_end,
  valid_literal, valid_plain, valid_wide, character, character_valid, word_bytes, signed_valid,
  unsigned_valid, text_valid, text_end, text_next,
}
use model_lib.Printf.Format.{printf-shown}

-- Nothing but `ok` in the memory, at the address 4096.
abbrev memory : Memory
memory p = if p == 4096 then b'o' ∷ b'k' ∷ 0 ∷ [] else []

-- `%%` prints nothing.
two_percents : printf memory (b'%' ∷ b'%' ∷ 0 ∷ []) [] ≡ some []
unfolding printf printf_loop step convert after_type padding padded prepend
two_percents = refl

-- The zero behind ten digits is written behind `widbuf`.
ten_digits :
    printf memory
      (b'%' ∷ b'0' ∷ b'0' ∷ b'0' ∷ b'0' ∷ b'0' ∷ b'0' ∷ b'0' ∷ b'0' ∷ b'0' ∷ b'1' ∷ b'd' ∷ 0 ∷ [])
      (word_bytes 7)
    ≡ none
unfolding printf printf_loop step prepend
ten_digits = refl

-- `"%c%c"` with `a` and `b` prints `a` and the zero behind it in its word.
two_characters :
    printf memory (b'%' ∷ b'c' ∷ b'%' ∷ b'c' ∷ 0 ∷ []) (word_bytes b'a' ++ word_bytes b'b')
    ≡ some (b'a' ∷ 0 ∷ [])
unfolding printf printf_loop step convert take_char after_type padding padded prepend
two_characters = refl

-- `"%u:%4d%s%c"` with 80, -25, `"ok"` and `!`.
abbrev pieces : List Piece
pieces =
    plain (unsigned 80)
    ∷ literal b':'
    ∷ wide 4 (signed (2 ^ 32 - 25))
    ∷ plain (text 4096 (b'o' ∷ b'k' ∷ []))
    ∷ plain (character b'!')
    ∷ []

-- The minus does not count, so the field is 5 wide.
printf-shown_example :
    printf memory (format_of pieces ++ (0 ∷ [])) (args_of pieces ++ []) ≡ some (shown pieces)
unfolding args_of
printf-shown_example = printf-shown memory pieces [] (
    valid_plain (unsigned_valid (omega arith)) tt (
      valid_literal refl refl (
        valid_wide (omega arith) (signed_valid (omega arith)) tt (
          valid_plain
            (text_valid (text_next refl (text_next refl text_end)) (omega arith) (omega arith) refl
              refl)
            tt (valid_plain character_valid refl valid_end)))))
