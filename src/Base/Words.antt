-- ===== src/Base/Words.antt =====
-- `|` and `&` on numbers of any width, where the bits of the operands do not meet.
use Prim.Native.Nat.{
  ℕ, zero, suc, ◌+◌, ◌-◌, ◌*◌, ◌/◌, ◌%◌, ◌^◌, ◌≤◌, ◌<◌, min, max, bit_and, bit_or, digits,
  bit_and-bitwise, bit_or-bitwise,
}
use mathlib.Core.Path.{◌≡◌, refl, ◌∙◌}
use native.Mathlib.Nat.{pow-succ'}
use native.Mathlib.Omega.{arith}

-- More steps than the first number has digits change nothing.
module _ (z : ℕ → ℕ) (f : ℕ → ℕ → ℕ) where
  more_steps : (n m a b : ℕ) → a ≤ n → n ≤ m → digits z f m a b ≡ digits z f n a b
  more_steps zero zero zero b h k = refl
  more_steps zero (suc m) zero b h k = refl
  more_steps (suc n) (suc m) zero b h k = refl
  more_steps (suc n) (suc m) (suc a) b h k =
      rw (more_steps n m (suc a / 2) (b / 2) (omega arith) (omega arith)) refl
  more_steps zero m (suc a) b h k = absurd (omega arith)
  more_steps (suc n) zero a b h k = absurd (omega arith)

-- The lowest digit apart.
pub bit_or-digit : (a b : ℕ) → bit_or a b ≡ bit_or (a / 2) (b / 2) * 2 + max (a % 2) (b % 2)
bit_or-digit zero b = omega (arith, bit_or-bitwise 0 b, bit_or-bitwise 0 (b / 2))
bit_or-digit (suc a) b = omega (
  arith,
  bit_or-bitwise (suc a) b,
  bit_or-bitwise (suc a / 2) (b / 2),
  more_steps (λ y. y) max (suc a / 2) a (suc a / 2) (b / 2) (omega arith) (omega arith),
)

pub bit_and-digit : (a b : ℕ) → bit_and a b ≡ bit_and (a / 2) (b / 2) * 2 + min (a % 2) (b % 2)
bit_and-digit zero b = omega (arith, bit_and-bitwise 0 b, bit_and-bitwise 0 (b / 2))
bit_and-digit (suc a) b = omega (
  arith,
  bit_and-bitwise (suc a) b,
  bit_and-bitwise (suc a / 2) (b / 2),
  more_steps (λ y. 0) min (suc a / 2) a (suc a / 2) (b / 2) (omega arith) (omega arith),
)

-- A number of `suc k` binary digits or more, halved.
module _ (k a b : ℕ) where
  twice : a * 2 ^ suc k ≡ a * 2 ^ k * 2
  twice = rw (pow-succ' 2 k) (grind arith)

  half : (a * 2 ^ suc k + b) / 2 ≡ a * 2 ^ k + b / 2
  half = omega (arith, twice)

  lowest : (a * 2 ^ suc k + b) % 2 ≡ b % 2
  lowest = omega (arith, twice)

  shorter : b < 2 ^ suc k → b / 2 < 2 ^ k
  shorter h = omega (arith, pow-succ' 2 k)

none_fuel : (n a : ℕ) → a ≤ n → bit_or a 0 ≡ a
none_fuel n zero h = bit_or-bitwise 0 0
none_fuel zero (suc a) h = absurd (omega arith)
none_fuel (suc n) (suc a) h =
    omega (arith, bit_or-digit (suc a) 0, none_fuel n (suc a / 2) (omega arith))

pub bit_or-none : (a : ℕ) → bit_or a 0 ≡ a
bit_or-none a = none_fuel a a (omega arith)

and_none_fuel : (n a : ℕ) → a ≤ n → bit_and a 0 ≡ 0
and_none_fuel n zero h = bit_and-bitwise 0 0
and_none_fuel zero (suc a) h = absurd (omega arith)
and_none_fuel (suc n) (suc a) h =
    omega (arith, bit_and-digit (suc a) 0, and_none_fuel n (suc a / 2) (omega arith))

pub bit_and-none : (a : ℕ) → bit_and a 0 ≡ 0
bit_and-none a = and_none_fuel a a (omega arith)

-- Fields that do not overlap: `|` is a sum.
pub bit_or-apart : (k a b : ℕ) → b < 2 ^ k → bit_or (a * 2 ^ k) b ≡ a * 2 ^ k + b
bit_or-apart zero a b h =
    let null : b ≡ 0 = omega arith in rw null (bit_or-none (a * 1) ∙ omega arith)
bit_or-apart (suc k) a b h =
    let even : a * 2 ^ suc k / 2 ≡ a * 2 ^ k = omega (arith, twice k a b) in
    let low : a * 2 ^ suc k % 2 ≡ 0 = omega (arith, twice k a b) in
    bit_or-digit (a * 2 ^ suc k) b
    ∙ rw (even, low, bit_or-apart k a (b / 2) (shorter k a b h)) (omega (arith, twice k a b))

pub bit_or-zero : (b : ℕ) → bit_or 0 b ≡ b
bit_or-zero b = bit_or-bitwise 0 b

-- A mask of ones takes the low field out.
pub bit_and-low : (k a b : ℕ) → b < 2 ^ k → bit_and (a * 2 ^ k + b) (2 ^ k - 1) ≡ b
bit_and-low zero a b h = bit_and-none (a * 1 + b) ∙ omega arith
bit_and-low (suc k) a b h =
    let ones : (2 ^ suc k - 1) / 2 ≡ 2 ^ k - 1 = omega (arith, pow-succ' 2 k) in
    let one : (2 ^ suc k - 1) % 2 ≡ 1 = omega (arith, pow-succ' 2 k) in
    bit_and-digit (a * 2 ^ suc k + b) (2 ^ suc k - 1)
    ∙ rw (half k a b, lowest k a b, ones, one, bit_and-low k a (b / 2) (shorter k a b h))
        (ground arith)

-- A mask above the low field drops that field.
pub bit_and-high :
    (k a b m : ℕ) → b < 2 ^ k → bit_and (a * 2 ^ k + b) (m * 2 ^ k) ≡ bit_and a m * 2 ^ k
bit_and-high zero a b m h =
    let e : a * 1 + b ≡ a = omega arith in
    let f : m * 1 ≡ m = omega arith in rw (e, f) (omega arith)
bit_and-high (suc k) a b m h =
    let even : m * 2 ^ suc k / 2 ≡ m * 2 ^ k = omega (arith, twice k m b) in
    let low : m * 2 ^ suc k % 2 ≡ 0 = omega (arith, twice k m b) in
    bit_and-digit (a * 2 ^ suc k + b) (m * 2 ^ suc k)
    ∙ rw (half k a b, lowest k a b, even, low, bit_and-high k a (b / 2) m (shorter k a b h))
        (ground (arith, twice k (bit_and a m) b))

pub bit_or-lt : (k a b : ℕ) → a < 2 ^ k → b < 2 ^ k → bit_or a b < 2 ^ k
bit_or-lt zero a b ha hb =
    let na : a ≡ 0 = omega arith in
    let nb : b ≡ 0 = omega arith in
    let e : bit_or a b ≡ 0 = rw (na, nb) (bit_or-zero 0) in omega arith
bit_or-lt (suc k) a b ha hb = ground (
  arith,
  bit_or-digit a b,
  bit_or-lt k (a / 2) (b / 2) (shorter k a a ha) (shorter k b b hb),
  pow-succ' 2 k,
)

pub bit_or-scale : (k a b : ℕ) → bit_or (a * 2 ^ k) (b * 2 ^ k) ≡ bit_or a b * 2 ^ k
bit_or-scale zero a b =
    let na : a * 1 ≡ a = omega arith in
    let nb : b * 1 ≡ b = omega arith in rw (na, nb) (omega arith)
bit_or-scale (suc k) a b =
    let ea : a * 2 ^ suc k / 2 ≡ a * 2 ^ k = omega (arith, twice k a 0) in
    let eb : b * 2 ^ suc k / 2 ≡ b * 2 ^ k = omega (arith, twice k b 0) in
    let la : a * 2 ^ suc k % 2 ≡ 0 = omega (arith, twice k a 0) in
    let lb : b * 2 ^ suc k % 2 ≡ 0 = omega (arith, twice k b 0) in
    bit_or-digit (a * 2 ^ suc k) (b * 2 ^ suc k)
    ∙ rw (ea, eb, la, lb, bit_or-scale k a b) (omega (arith, twice k (bit_or a b) 0))
