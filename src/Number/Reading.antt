-- ===== src/Number/Reading.antt =====
-- `str2uint` of grab/util.c, and that it reads what `_int` of grab/printf.c prints.
use native.Mathlib.Nat.{pow-succ', mul-le-mul_right, pow-le-pow_right}
use model_lib.Base.{
  ℕ, zero, suc, ◌+◌, ◌-◌, ◌*◌, ◌/◌, ◌%◌, ◌^◌, ◌≤◌, ◌<◌, ◌≡◌, refl, arith, ap, ◌∙◌, sym, Bool, true,
  false, not, ◌==◌, ◌&&◌, if◌then◌else◌, u32, inl, inr, Bool-cases, Option, none, some, List, [],
  ◌∷◌, ◌++◌, length,
}
use model_lib.Text.{Sign, less, strncmp}
use model_lib.Number.{digit_char, digits_of, backwards, int_chars}
use model_lib.Number.Digits.{
  char_value, read_number, Small, small_next, digits_of-Small, length-digits_of,
  int_chars-read_number,
}

-- `for (int i = 1; s[i] && i < 10; i++, ndigits++)`, on the characters from `s[1]` on, with `rounds` left.
more_digits : ℕ → List ℕ → Option ℕ
more_digits rounds [] = none
more_digits zero (c ∷ s) = some 0
more_digits (suc rounds) (c ∷ s) = if c == 0 then some 0 else counted (more_digits rounds s)
  where
    counted : Option ℕ → Option ℕ
    counted none = none
    counted (some n) = some (n + 1)

-- `for (…; base /= 10) x += (s[i] - '0') * base;`
sum_digits : ℕ → ℕ → List ℕ → ℕ
sum_digits zero base s = 0
sum_digits (suc rounds) base [] = 0
sum_digits (suc rounds) base (c ∷ s) =
    u32 (u32 (2 ^ 32 + (c + 128) % 256 - 176) * base + sum_digits rounds (base / 10) s)

-- `"4294967295"`
abbrev max_uint : List ℕ
max_uint = 52 ∷ 50 ∷ 57 ∷ 52 ∷ 57 ∷ 54 ∷ 55 ∷ 50 ∷ 57 ∷ 53 ∷ 0 ∷ []

abbrev not_less : Option Sign → Bool
not_less (some less) = false
not_less (some _) = true
not_less none = false

-- The result for a string of `n + 1` digits.
abbrev of_digits : List ℕ → Option ℕ → Option ℕ
of_digits s none = none
of_digits s (some n) =
    if n == 9 && not (not_less (strncmp max_uint s 10))
    then none
    else some (sum_digits (n + 1) (10 ^ n) s)

-- `none` is a failed assertion, or a read past the array.
pub str2uint : List ℕ → Option ℕ
str2uint [] = none
str2uint (c ∷ s) = of_digits (c ∷ s) (more_digits 9 s)

pub data Digits : List ℕ → Type 0 where
  digits_end : Digits []
  digits_next : {c : ℕ} → {s : List ℕ} → (48 ≤ c) → (c ≤ 57) → Digits s → Digits (c ∷ s)

more_digits_lem :
    (rounds : ℕ) (s rest : List ℕ)
    → Digits s
    → length s ≤ rounds
    → more_digits rounds (s ++ (0 ∷ rest)) ≡ some (length s)
unfolding more_digits
more_digits_lem zero [] rest ds h = refl
more_digits_lem (suc rounds) [] rest ds h = refl
more_digits_lem zero (c ∷ s) rest ds h = absurd (omega arith)
more_digits_lem (suc rounds) (c ∷ s) rest (digits_next lo hi ds) h =
    let there : (c == 0) ≡ false = ground arith in
    rw (there, more_digits_lem rounds s rest ds (omega arith)) (ap some (omega arith))

-- Reading goes on from `acc`.
read_number-shift :
    (s : List ℕ) (acc : ℕ) → read_number 10 acc s ≡ acc * 10 ^ length s + read_number 10 0 s
unfolding read_number
read_number-shift [] acc = omega arith
read_number-shift (c ∷ s) acc =
    rw
      (
        read_number-shift s (acc * 10 + char_value c),
        read_number-shift s (0 * 10 + char_value c),
        pow-succ' 10 (length s),
      )
      (grind arith)

digit_value : (c : ℕ) → 48 ≤ c → c ≤ 57 → (char_value c ≡ c - 48) × (c - 48 ≤ 9)
digit_value c lo hi = (ground arith, omega arith)

read_number-lt : (s : List ℕ) → Digits s → read_number 10 0 s < 10 ^ length s
unfolding read_number
read_number-lt [] ds = omega arith
read_number-lt (c ∷ s) (digits_next lo hi ds) =
    let v = digit_value c lo hi in
    rw (read_number-shift s (0 * 10 + char_value c), pow-succ' 10 (length s), v.0)
      (let top = mul-le-mul_right (10 ^ length s) v.1 in omega (arith, top, read_number-lt s ds))

-- One round of the sum does not wrap.
digit_round :
    (c base sum : ℕ)
    → 48 ≤ c
    → c ≤ 57
    → base ≤ 10 ^ 8
    → sum < base
    → u32 (u32 (2 ^ 32 + (c + 128) % 256 - 176) * base + sum) ≡ char_value c * base + sum
digit_round c base sum lo hi small lt =
    let v = digit_value c lo hi in
    let top = mul-le-mul_right base v.1 in
    let word : u32 (2 ^ 32 + (c + 128) % 256 - 176) ≡ c - 48 = omega arith in
    rw (word, v.0) (omega arith)

sum_digits_lem :
    (s rest : List ℕ)
    → Digits s
    → length s ≤ 9
    → sum_digits (length s) (10 ^ length s / 10) (s ++ rest) ≡ read_number 10 0 s
unfolding sum_digits read_number
sum_digits_lem [] rest ds h = refl
sum_digits_lem (c ∷ s) rest (digits_next lo hi ds) h =
    let zero_more : char_value c ≡ 0 * 10 + char_value c = omega arith in
    let base : 10 ^ suc (length s) / 10 ≡ 10 ^ length s =
      rw (pow-succ' 10 (length s)) (omega arith) in
    let small : 10 ^ length s ≤ 10 ^ 8 =
      pow-le-pow_right {n = 10} (omega arith) {i = length s} {j = 8} (omega arith) in
    rw (base, sum_digits_lem s rest ds (omega arith))
      (digit_round c (10 ^ length s) (read_number 10 0 s) lo hi small (read_number-lt s ds)
        ∙ sym (read_number-shift s (char_value c))
        ∙ ap (λ n. read_number 10 n s) zero_more)

str2uint-read_number :
    (s : List ℕ)
    → Digits s
    → 1 ≤ length s
    → length s ≤ 9
    → str2uint (s ++ (0 ∷ [])) ≡ some (read_number 10 0 s)
unfolding str2uint
str2uint-read_number [] ds pos h = absurd (omega arith)
str2uint-read_number (c ∷ s) (digits_next lo hi ds) pos h =
    let base : 10 ^ length s ≡ 10 ^ suc (length s) / 10 =
      rw (pow-succ' 10 (length s)) (omega arith) in
    let short : (length s == 9) ≡ false = ground arith in
    let next : length s + 1 ≡ suc (length s) = omega arith in
    rw (more_digits_lem 9 s [] ds (omega arith), short, next, base)
      (ap some (sum_digits_lem (c ∷ s) (0 ∷ []) (digits_next lo hi ds) h))

backwards-Digits : (ds chars : List ℕ) → Small 10 ds → Digits chars → Digits (backwards ds chars)
unfolding backwards
backwards-Digits [] chars sm cs = cs
backwards-Digits (d ∷ ds) chars (small_next lt sm) cs =
    let e : digit_char d ≡ 48 + d = ground arith in
    backwards-Digits ds (digit_char d ∷ chars) sm
      (rw e (digits_next (omega arith) (omega arith) cs))

length-backwards : (ds chars : List ℕ) → length (backwards ds chars) ≡ length ds + length chars
unfolding backwards
length-backwards [] chars = omega arith
length-backwards (d ∷ ds) chars = length-backwards ds (digit_char d ∷ chars) ∙ omega arith

digits_of-positive : (rounds x : ℕ) → (x == 0) ≡ false → 1 ≤ length (digits_of (suc rounds) 10 x)
unfolding digits_of
digits_of-positive rounds x more = rw more (omega arith)

-- What `_int` puts below 10 ^ 9: one to nine digits.
pub int_chars-Digits :
    (x : ℕ)
    → x < 10 ^ 9
    → Digits (int_chars x false 10)
      × (1 ≤ length (int_chars x false 10))
      × (length (int_chars x false 10) ≤ 9)
unfolding int_chars
int_chars-Digits x h = elim (Bool-cases (x == 0)) [
  | inl done ↦
      rw done (digits_next (omega arith) (omega arith) digits_end, omega arith, omega arith)
  | inr more ↦
      let pos : 1 ≤ length (digits_of 32 10 x) = digits_of-positive 31 x more in
      let count = length-backwards (digits_of 32 10 x) [] in
      let most = length-digits_of 32 9 10 x (inl refl) h in
      rw more (
        backwards-Digits (digits_of 32 10 x) [] (digits_of-Small 32 10 x (inl refl)) digits_end,
        omega (arith, count, pos),
        omega (arith, count, most),
      )
]

-- `str2uint` reads the decimal digits that `_int` prints of a number below 10 ^ 9 as that number.
pub str2uint-int_chars : (x : ℕ) → x < 10 ^ 9 → str2uint (int_chars x false 10 ++ (0 ∷ [])) ≡ some x
str2uint-int_chars x h =
    let d = int_chars-Digits x h in
    str2uint-read_number (int_chars x false 10) d.0 d.1 d.2
    ∙ ap some (int_chars-read_number x 10 (inl refl) (omega arith)).0
