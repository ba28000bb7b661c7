-- ===== src/Printf.antt =====
-- The format states of `printf` of grab/printf.c. What it prints is the list of the characters that
-- it hands to `putchar`, in their order. The arguments are the bytes of the stack from `ap` on, and
-- the strings stand in a memory, which is a parameter: the bytes from each address on. `none` stands
-- for behaviour that C leaves undefined: a read past the format, the stack or a string, a count that
-- was never set, a write behind `widbuf`; and for a call that does not end.
pub mod Pieces
pub mod Rounds
pub mod Format
mod Tests
use model_lib.Base.{
  ℕ, zero, suc, ◌+◌, ◌-◌, ◌*◌, ◌/◌, ◌%◌, ◌^◌, Bool, true, false, not, ◌==◌, ◌&&◌, ltb, leb,
  if◌then◌else◌, u8, Option, none, some, List, [], ◌∷◌, ◌++◌, length,
}
use model_lib.Text.{isdigit}
use model_lib.Number.{int_chars, int_count}
use model_lib.Number.Reading.{str2uint}

-- `enum { … } state`
pub data State : Type 0 where
  specifier regular width_specifier type_specifier : State

-- The bytes from each address on.
abbrev pub Memory : Type 0
Memory = ℕ → List ℕ

-- The variables of the loop. `widbuf` holds the digits put so far, `count` is `n`, and `args` are the
-- bytes from `ap` on.
pub record Job : Type 0 where
  pub state : State
  pub widbuf : List ℕ
  pub count : Option ℕ
  pub args : List ℕ

-- What a type specifier puts, the count it sets and the arguments it leaves.
abbrev pub Field : Type 0
Field = List ℕ × Option ℕ × List ℕ

-- The characters of `_string`, with `rounds` left.
pub string_chars : ℕ → List ℕ → Option (List ℕ)
string_chars rounds [] = none
string_chars zero (c ∷ s) = some []
string_chars (suc rounds) (c ∷ s) =
    let rest = string_chars rounds s in
    if c == 0 then some [] else elim rest [ none ↦ none | some text ↦ some (c ∷ text) ]

-- The characters of `_two`, which does not end for a negative `int`.
bits_of : ℕ → ℕ → List ℕ
bits_of zero x = []
bits_of (suc rounds) x =
    let rest = bits_of rounds (x / 2) in if x == 0 then [] else (48 + x % 2) ∷ rest

pub two_chars : ℕ → Option (List ℕ)
two_chars x = if ltb x (2 ^ 31) then some (bits_of 31 x) else none

counted : List ℕ → Option (List ℕ) → Option Field
counted args none = none
counted args (some chars) = some (chars, some (length chars), args)

-- `va_arg(ap, int)` and `va_arg(ap, char *)`: four bytes, and `ap` behind them.
pub va_word : List ℕ → Option (ℕ × List ℕ)
va_word (a ∷ b ∷ c ∷ d ∷ args) = some (a + b * 256 + c * 65536 + d * 16777216, args)
va_word _ = none

-- `va_arg(ap, char)` moves `ap` by the size of a `char`, so the three bytes above it in its word come next.
pub take_char : List ℕ → Option Field
take_char (c ∷ args) = some (c ∷ [], some 1, args)
take_char [] = none

string_at : Memory → Option (ℕ × List ℕ) → Option Field
string_at memory none = none
string_at memory (some (p, args)) =
    if p == 0 then some ([], some 0, args) else counted args (string_chars 1024 (memory p))

pub take_string : Memory → List ℕ → Option Field
take_string memory args = string_at memory (va_word args)

int_from : List ℕ → Bool → ℕ → Option (ℕ × List ℕ) → Option Field
int_from more sign base none = none
int_from more sign base (some (x, args)) =
    some (more ++ int_chars x sign base, some (int_count x sign base + length more), args)

-- `more` is what stands before the number: `0x`, or nothing.
pub take_int : List ℕ → Bool → ℕ → List ℕ → Option Field
take_int more sign base args = int_from more sign base (va_word args)

two_from : Option (ℕ × List ℕ) → Option Field
two_from none = none
two_from (some (x, args)) = counted args (two_chars x)

pub take_two : List ℕ → Option Field
take_two args = two_from (va_word args)

-- `switch (*s++)`
pub convert : Memory → ℕ → Option ℕ → List ℕ → Option Field
convert memory c count args =
    if c == b'c'
    then take_char args
    else if c == b's'
    then take_string memory args
    else if c == b'd'
    then take_int [] true 10 args
    else if c == b'u'
    then take_int [] false 10 args
    else if c == b'x'
    then take_int [] false 16 args
    else if c == b'p'
    then take_int (b'0' ∷ b'x' ∷ []) false 16 args
    else if c == b't'
    then take_two args
    else some ([], count, args)

pub spaces : ℕ → List ℕ
spaces zero = []
spaces (suc n) = b' ' ∷ spaces n

-- `int pad = wid - n`, nothing when it is negative.
pad_of : Option ℕ → Option ℕ → Option (List ℕ)
pad_of (some wid) (some n) = some (spaces (if ltb wid (2 ^ 31) then wid - n else 0))
pad_of _ _ = none

-- `if (widbuf_ptr != widbuf)`
pub padding : List ℕ → Option ℕ → Option (List ℕ)
padding [] count = some []
padding (d ∷ ds) count = pad_of (str2uint ((d ∷ ds) ++ (0 ∷ []))) count

-- What a round of the loop puts, the format it leaves and its variables.
abbrev pub Round : Type 0
Round = List ℕ × List ℕ × Job

padded : List ℕ → List ℕ → Option ℕ → List ℕ → Option (List ℕ) → Option Round
padded s chars count args none = none
padded s chars count args (some pad) =
    some (chars ++ pad, s, record { state = regular; widbuf = []; count = count; args = args })

after_type : List ℕ → List ℕ → Option Field → Option Round
after_type s widbuf none = none
after_type s widbuf (some (chars, count, args)) = padded s chars count args (padding widbuf count)

-- `switch (state)`, at the character `c` with `s` behind it.
step : Memory → ℕ → List ℕ → State → Job → Option Round
step memory c s regular q =
    if c == b'%' then some ([], s, record q { state = specifier }) else some (c ∷ [], s, q)
step memory c s specifier q = some (
  [],
  c ∷ s,
  record q { widbuf = []; state = if isdigit c then width_specifier else type_specifier },
)
step memory c s width_specifier q =
    if isdigit c && ltb (length q.widbuf) 10
    then some ([], s, record q { widbuf = q.widbuf ++ (c ∷ []) })
    else if ltb (length q.widbuf) 10
    then some ([], c ∷ s, record q { state = type_specifier })
    else none
step memory c s type_specifier q = after_type s q.widbuf (convert memory c q.count q.args)

pub prepend : List ℕ → Option (List ℕ) → Option (List ℕ)
prepend chars none = none
prepend chars (some rest) = some (chars ++ rest)

-- `while (*s)`, with `rounds` at most.
pub printf_loop : Memory → ℕ → List ℕ → Job → Option (List ℕ)
printf_loop memory rounds [] q = none
printf_loop memory zero (c ∷ s) q = if c == 0 then some [] else none
printf_loop memory (suc rounds) (c ∷ s) q = elim (c == 0) [
  | true ↦ some []
  | false ↦ elim (step memory c s q.state q) [
    | none ↦ none
    | some (chars, rest, p) ↦ prepend chars (printf_loop memory rounds rest p)
  ]
]

-- A round that keeps its character goes to the next state, so two rounds for a character are enough.
pub printf : Memory → List ℕ → List ℕ → Option (List ℕ)
printf memory s args =
    printf_loop memory (2 * length s) s
      (record { state = regular; widbuf = []; count = none; args = args })
