-- ===== src/Printf/Pieces.antt =====
-- What the comment above `printf` promises: a format is a row of pieces, each a character to put or an
-- argument with its type, with a width or without; an argument is put from the left of its width and
-- spaces fill the rest.
use model_lib.Base.{
  ℕ, ◌+◌, ◌-◌, ◌/◌, ◌%◌, ◌^◌, ◌≤◌, ◌<◌, ◌≡◌, true, false, ◌==◌, List, [], ◌∷◌, ◌++◌, length,
}
use model_lib.Number.{int_chars, int_count}
use model_lib.Printf.{Memory, spaces}

-- The arguments that have a type specifier; a text has its address.
pub data Value : Type 0 where
  character signed unsigned hex pointer : ℕ → Value
  text : ℕ → List ℕ → Value

pub data Piece : Type 0 where
  literal : ℕ → Piece
  plain : Value → Piece
  wide : ℕ → Value → Piece

abbrev pub letter : Value → ℕ
letter (character x) = b'c'
letter (signed x) = b'd'
letter (unsigned x) = b'u'
letter (hex x) = b'x'
letter (pointer x) = b'p'
letter (text p t) = b's'

-- The four bytes of a word.
abbrev pub word_bytes : ℕ → List ℕ
word_bytes x = x % 256 ∷ x / 256 % 256 ∷ x / 65536 % 256 ∷ x / 16777216 % 256 ∷ []

-- What the caller pushes: a word for every argument, a character included.
abbrev pub arg_of : Value → List ℕ
arg_of (character x) = word_bytes x
arg_of (signed x) = word_bytes x
arg_of (unsigned x) = word_bytes x
arg_of (hex x) = word_bytes x
arg_of (pointer x) = word_bytes x
arg_of (text p t) = word_bytes p

abbrev pub value_chars : Value → List ℕ
value_chars (character x) = x % 256 ∷ []
value_chars (signed x) = int_chars x true 10
value_chars (unsigned x) = int_chars x false 10
value_chars (hex x) = int_chars x false 16
value_chars (pointer x) = b'0' ∷ b'x' ∷ int_chars x false 16
value_chars (text p t) = t

-- The part of the width that a value counts for: a minus does not count.
abbrev pub value_count : Value → ℕ
value_count (character x) = 1
value_count (signed x) = int_count x true 10
value_count (unsigned x) = int_count x false 10
value_count (hex x) = int_count x false 16
value_count (pointer x) = int_count x false 16 + 2
value_count (text p t) = length t

-- The format, the arguments and the output of a row of pieces.
unfoldable pub format_of : List Piece → List ℕ
format_of [] = []
format_of (literal c ∷ ps) = c ∷ format_of ps
format_of (plain v ∷ ps) = b'%' ∷ letter v ∷ format_of ps
format_of (wide w v ∷ ps) = b'%' ∷ (int_chars w false 10 ++ (letter v ∷ format_of ps))

unfoldable pub args_of : List Piece → List ℕ
args_of [] = []
args_of (literal c ∷ ps) = args_of ps
args_of (plain v ∷ ps) = arg_of v ++ args_of ps
args_of (wide w v ∷ ps) = arg_of v ++ args_of ps

unfoldable pub shown : List Piece → List ℕ
shown [] = []
shown (literal c ∷ ps) = c ∷ shown ps
shown (plain v ∷ ps) = value_chars v ++ shown ps
shown (wide w v ∷ ps) = (value_chars v ++ spaces (w - value_count v)) ++ shown ps

-- A string without zeros.
pub data Text : List ℕ → Type 0 where
  text_end : Text []
  text_next : {c : ℕ} → {t : List ℕ} → ((c == 0) ≡ false) → Text t → Text (c ∷ t)

module _ (memory : Memory) where
  -- A string has 1024 characters at most, and stands in the memory at its address.
  pub data ValueIsValid : Value → Type 0 where
    character_valid : {x : ℕ} → ValueIsValid (character x)
    signed_valid : {x : ℕ} → (x < 2 ^ 32) → ValueIsValid (signed x)
    unsigned_valid : {x : ℕ} → (x < 2 ^ 32) → ValueIsValid (unsigned x)
    hex_valid : {x : ℕ} → (x < 2 ^ 32) → ValueIsValid (hex x)
    pointer_valid : {x : ℕ} → (x < 2 ^ 32) → ValueIsValid (pointer x)
    text_valid :
        {p : ℕ}
        → {t : List ℕ} → Text t
        → (length t ≤ 1024)
        → (p < 2 ^ 32)
        → ((p == 0) ≡ false)
        → (memory p ≡ t ++ (0 ∷ []))
        → ValueIsValid (text p t)

  -- No argument follows a character.
  abbrev pub Last : Value → List Piece → Type 0
  Last (character x) ps = args_of ps ≡ []
  Last (signed x) ps = Unit {0}
  Last (unsigned x) ps = Unit {0}
  Last (hex x) ps = Unit {0}
  Last (pointer x) ps = Unit {0}
  Last (text p t) ps = Unit {0}

  -- A literal is no `%`, and a width has nine digits at most.
  pub data IsValid : List Piece → Type 0 where
    valid_end : IsValid []
    valid_literal :
        {c : ℕ}
        → {ps : List Piece} → ((c == 0) ≡ false)
        → ((c == b'%') ≡ false)
        → IsValid ps
        → IsValid (literal c ∷ ps)
    valid_plain :
        {v : Value}
        → {ps : List Piece} → ValueIsValid v
        → Last v ps
        → IsValid ps
        → IsValid (plain v ∷ ps)
    valid_wide :
        {w : ℕ}
        → {v : Value} → {ps : List Piece} → (w < 10 ^ 9)
        → ValueIsValid v
        → Last v ps
        → IsValid ps
        → IsValid (wide w v ∷ ps)
