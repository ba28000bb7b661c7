-- ===== src/Number/Digits.antt =====
-- What `_int` prints is read back as the number, and fits the array of digits.
use model_lib.Base.{
  ℕ, zero, suc, ◌+◌, ◌-◌, ◌*◌, ◌/◌, ◌%◌, ◌^◌, ◌≤◌, ◌<◌, ◌≡◌, ◌⊎◌, inl, inr, refl, arith, Bool, true,
  false, ◌==◌, ltb, if◌then◌else◌, List, [], ◌∷◌, length, Bool-cases, ==_iff, ap, ◌∙◌,
}
use native.Mathlib.Numerals.{unary_clauses}
use model_lib.Number.{digit_char, negative, abs_of, digits_of, backwards, int_chars, int_count}

-- Reading a number, the most significant digit first.
abbrev pub char_value : ℕ → ℕ
char_value c = if ltb c 58 then c - 48 else c - 87

unfoldable pub read_number : ℕ → ℕ → List ℕ → ℕ
read_number base acc [] = acc
read_number base acc (c ∷ chars) = read_number base (acc * base + char_value c) chars

-- The number that digits stand for, the least significant digit first.
value : ℕ → List ℕ → ℕ
value base [] = 0
value base (d ∷ ds) = value base ds * base + d

pub data Small (base : ℕ) : List ℕ → Type 0 where
  small_end : Small base []
  small_next : {d : ℕ} → {ds : List ℕ} → (d < base) → Small base ds → Small base (d ∷ ds)

char_value_digit : (d : ℕ) → d < 16 → char_value (digit_char d) ≡ d
char_value_digit d h = ground arith

read_number-backwards :
    (base : ℕ) (ds chars : List ℕ)
    → base ≤ 16
    → Small base ds
    → read_number base 0 (backwards ds chars) ≡ read_number base (value base ds) chars
unfolding read_number backwards value
read_number-backwards base [] chars b sm = refl
read_number-backwards base (d ∷ ds) chars b (small_next lt sm) =
    read_number-backwards base ds (digit_char d ∷ chars) b sm
    ∙ ap (λ n. read_number base (value base ds * base + n) chars) (char_value_digit d (omega arith))

-- A base that `printf` uses.
abbrev pub Base : ℕ → Type 0
Base base = (base ≡ 10) ⊎ (base ≡ 16)

-- One division, in the form that arithmetic reads.
divide :
    (base x : ℕ)
    → Base base
    → (x % base < base) × (x / base * base + x % base ≡ x) × (x / base * 10 ≤ x)
divide base x (inl e) = rw e (omega arith)
divide base x (inr e) = rw e (omega arith)

pub digits_of-Small : (rounds base x : ℕ) → Base base → Small base (digits_of rounds base x)
unfolding digits_of
digits_of-Small zero base x b = small_end
digits_of-Small (suc rounds) base x b = elim (Bool-cases (x == 0)) [
  | inl done ↦ rw done small_end
  | inr more ↦ rw more (small_next (divide base x b).0 (digits_of-Small rounds base (x / base) b))
]

value-digits_of :
    (rounds base x : ℕ) → Base base → x < 2 ^ rounds → value base (digits_of rounds base x) ≡ x
unfolding digits_of value
value-digits_of zero base x b h = omega arith
value-digits_of (suc rounds) base x b h = elim (Bool-cases (x == 0)) [
  | inl done ↦ let e : x ≡ 0 = (==_iff _ _).0 done in rw e
  | inr more ↦
      let h' : x < 2 ^ rounds * 2 = simp unary_clauses at h in
      let smaller : x / base < 2 ^ rounds = omega (arith, divide base x b) in
      rw (more, value-digits_of rounds base (x / base) b smaller) (divide base x b).1
]

pub length-digits_of :
    (rounds k base x : ℕ) → Base base → x < 10 ^ k → length (digits_of rounds base x) ≤ k
unfolding digits_of
length-digits_of zero k base x b h = omega arith
length-digits_of (suc rounds) zero base x b h = let e : x ≡ 0 = omega arith in rw e (omega arith)
length-digits_of (suc rounds) (suc k) base x b h = elim (Bool-cases (x == 0)) [
  | inl done ↦ rw done (omega arith)
  | inr more ↦
      let h' : x < 10 ^ k * 10 = simp unary_clauses at h in
      let smaller : x / base < 10 ^ k = omega (arith, divide base x b) in
      rw more (omega (arith, length-digits_of rounds k base (x / base) b smaller))
]

Base-le : (base : ℕ) → Base base → base ≤ 16
Base-le base (inl e) = omega arith
Base-le base (inr e) = omega arith

read_digits :
    (base x : ℕ)
    → Base base
    → x < 2 ^ 32
    → read_number base 0 (backwards (digits_of 32 base x) []) ≡ x
unfolding read_number
read_digits base x b h =
    read_number-backwards base (digits_of 32 base x) [] (Base-le base b)
      (digits_of-Small 32 base x b)
    ∙ value-digits_of 32 base x b h

abs_of-lt : (x : ℕ) (sign : Bool) → x < 2 ^ 32 → abs_of x sign < 2 ^ 32
abs_of-lt x true h = ground arith
abs_of-lt x false h = h

-- In base 10 or 16, for a pattern of 32 bits: without the sign, what `_int` puts is read as the
-- pattern. With it, a pattern below 2 ^ 31 is read as itself, and any other is a minus and then the
-- distance to 2 ^ 32. There are 10 digits at most, which fit the array, and the result of `_int` is at
-- most 10.
pub int_chars-read_number :
    (x base : ℕ)
    → Base base
    → x < 2 ^ 32
    → (read_number base 0 (int_chars x false base) ≡ x)
      × (x < 2 ^ 31 → int_chars x true base ≡ int_chars x false base)
      × (2 ^ 31 ≤ x
          → (chars : List ℕ) × (int_chars x true base ≡ 45 ∷ chars)
            × (read_number base 0 chars ≡ 2 ^ 32 - x))
      × ((sign : Bool) → length (digits_of 32 base (abs_of x sign)) ≤ 10)
      × ((sign : Bool) → int_count x sign base ≤ 10)
unfolding int_chars int_count
int_chars-read_number x base b h = (
  elim (Bool-cases (x == 0)) [
    | inl none_left ↦
        let e : x ≡ 0 = (==_iff _ _).0 none_left in
        rw (none_left, e) (unfold read_number in omega arith)
    | inr more ↦ rw more (read_digits base x b h)
  ],
  λ small. let plain : negative x ≡ false = ground arith in rw plain refl,
  λ large.
      let minus : negative x ≡ true = ground arith in
      let more : (x == 0) ≡ false = ground arith in
      rw (minus, more) (_, refl, read_digits base (2 ^ 32 - x) b (omega arith)),
  fits,
  λ sign. elim (Bool-cases (x == 0)) [
    | inl none_left ↦ rw none_left (omega arith)
    | inr more ↦ rw more (fits sign)
  ],
)
  where
    fits : (sign : Bool) → length (digits_of 32 base (abs_of x sign)) ≤ 10
    fits sign = length-digits_of 32 10 base (abs_of x sign) b (omega (arith, abs_of-lt x sign h))
