-- ===== src/Text.antt =====
-- The string helpers of grab/util.c. A string is the array of bytes behind a `char *`, its
-- terminating zero included, as a list; `none` stands for a read past the end of the array.
pub mod Compare
pub mod Memory
mod Tests
use model_lib.Base.{
  ℕ, zero, suc, ◌+◌, ◌-◌, ◌*◌, ◌/◌, ◌%◌, Bool, true, false, not, ◌==◌, ◌&&◌, ◌||◌, ltb, leb,
  if◌then◌else◌, Option, none, some, List, [], ◌∷◌, u32, update,
}
use model_lib.Fs.Layout.{Bytes}

-- The results -1, 0 and 1 of a comparison.
pub data Sign : Type 0 where
  less equal greater : Sign

-- `a < b` on `char`, which is signed.
abbrev pub char_lt : ℕ → ℕ → Bool
char_lt a b = ltb ((a + 128) % 256) ((b + 128) % 256)

-- The tests after the loop of `strcmp`, where one of the strings has ended.
abbrev pub end_sign : ℕ → ℕ → Sign
end_sign a b = if a == b then equal else if not (a == 0) then greater else less

pub strcmp : List ℕ → List ℕ → Option Sign
strcmp [] t = none
strcmp (a ∷ s) [] = none
strcmp (a ∷ s) (b ∷ t) =
    if a == 0 || b == 0
    then some (end_sign a b)
    else if char_lt a b
    then some less
    else if char_lt b a
    then some greater
    else strcmp s t

-- The loop of `strncmp`, whose counter `i` is the same in every round, and the tests after it.
strncmp_loop : ℕ → ℕ → List ℕ → List ℕ → Option Sign
strncmp_loop i n [] t = if leb n i then some equal else none
strncmp_loop i n (a ∷ s) [] = if leb n i then some equal else none
strncmp_loop i n (a ∷ s) (b ∷ t) =
    let rest = strncmp_loop i n s t in
    if ltb i n && not (a == 0) && not (b == 0)
    then (if char_lt a b then some less else if char_lt b a then some greater else rest)
    else if i == n
    then some equal
    else some (end_sign a b)

pub strncmp : List ℕ → List ℕ → ℕ → Option Sign
unfolding strncmp_loop
strncmp s t n = strncmp_loop 0 n s t

unfoldable pub strlen : List ℕ → Option ℕ
strlen [] = none
strlen (a ∷ s) = if a == 0 then some 0 else elim (strlen s) [ none ↦ none | some n ↦ some (n + 1) ]

-- `rounds` of the loop are left.
unfoldable pub strnlen : List ℕ → ℕ → Option ℕ
strnlen s zero = some 0
strnlen [] (suc rounds) = none
strnlen (a ∷ s) (suc rounds) =
    if a == 0 then some 0 else elim (strnlen s rounds) [ none ↦ none | some n ↦ some (n + 1) ]

-- `strncpy(dest, src, n)` into the array `d` from offset `o` on: the source is not passed beyond its
-- terminating zero, so the rest is filled with zeros.
unfoldable pub strncpy : Bytes → ℕ → List ℕ → ℕ → Option Bytes
strncpy d o s zero = some d
strncpy d o [] (suc n) = none
strncpy d o (a ∷ s) (suc n) =
    let stay = strncpy (update d o a) (o + 1) (a ∷ s) n in
    let go = strncpy (update d o a) (o + 1) s n in if a == 0 then stay else go

abbrev pub isdigit : ℕ → Bool
isdigit c = leb b'0' c && leb c b'9'

abbrev pub isprint : ℕ → Bool
isprint c = leb 0x20 c && leb c 126

abbrev pub isspace : ℕ → Bool
isspace c = c == 9 || c == 0x20

abbrev more : ℕ → Option (List ℕ) → Option (List ℕ)
more c none = none
more c (some text) = some (c ∷ text)

-- What `printf("%s", s)` prints: the characters before the terminating zero. `none` is a read past the array.
unfoldable pub text_of : List ℕ → Option (List ℕ)
text_of [] = none
text_of (c ∷ s) = let rest = text_of s in if c == 0 then some [] else more c rest

-- With a newline, for `"%s\n"`.
unfoldable pub line_of : List ℕ → Option (List ℕ)
line_of [] = none
line_of (c ∷ s) = let rest = line_of s in if c == 0 then some (10 ∷ []) else more c rest
