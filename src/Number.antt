-- ===== src/Number.antt =====
-- The number printing `_int` of grab/printf.c, on the bit pattern of its `int`.
pub mod Digits
pub mod Reading
mod Tests
use model_lib.Base.{
  ℕ, zero, suc, ◌+◌, ◌-◌, ◌*◌, ◌/◌, ◌%◌, ◌^◌, Bool, true, false, not, ◌==◌, ◌&&◌, ltb, leb,
  if◌then◌else◌, Option, none, some, List, [], ◌∷◌, length,
}
use model_lib.Screen.{Screen, putchar}

-- `digits[d]`
abbrev pub digit_char : ℕ → ℕ
digit_char d = if ltb d 10 then 48 + d else 87 + d

-- Is the pattern negative as an `int`?
abbrev pub negative : ℕ → Bool
negative x = leb (2 ^ 31) x

-- `abs`
abbrev pub abs_of : ℕ → Bool → ℕ
abs_of x sign = if sign && negative x then 2 ^ 32 - x else x

-- `for (i = 0; abs > 0; abs /= base)`: the digits put into `xx`, with `rounds` at most.
pub digits_of : ℕ → ℕ → ℕ → List ℕ
digits_of zero base abs = []
digits_of (suc rounds) base abs =
    let rest = digits_of rounds base (abs / base) in if abs == 0 then [] else abs % base ∷ rest

-- `while (--i >= 0) putchar(xx[i]);`: the characters in the order in which they are put.
pub backwards : List ℕ → List ℕ → List ℕ
backwards [] chars = chars
backwards (d ∷ ds) chars = backwards ds (digit_char d ∷ chars)

-- The characters that `_int` puts. A pattern of 32 bits has 32 digits at most.
pub int_chars : ℕ → Bool → ℕ → List ℕ
int_chars x sign base =
    let chars = backwards (digits_of 32 base (abs_of x sign)) [] in
    if x == 0 then 48 ∷ [] else if sign && negative x then 45 ∷ chars else chars

-- The result of `_int`, which leaves the minus out.
pub int_count : ℕ → Bool → ℕ → ℕ
int_count x sign base = if x == 0 then 1 else length (digits_of 32 base (abs_of x sign))

put_all : List ℕ → Screen → Option Screen
put_all [] v = some v
put_all (c ∷ chars) v = elim (putchar c v) [ none ↦ none | some w ↦ put_all chars w ]

pub print_int : ℕ → Bool → ℕ → Screen → Option (ℕ × Screen)
print_int x sign base v = elim (put_all (int_chars x sign base) v) [
  | none ↦ none
  | some w ↦ some (int_count x sign base, w)
]
