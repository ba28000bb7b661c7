-- ===== src/Base/Bits.antt =====
-- `b |= 1 << k` and `b &= ~(1 << k)` on a byte, by checking every byte and every bit.
use Prim.Native.Nat.{ℕ, zero, suc, ◌-◌, ◌/◌, ◌%◌, ◌^◌, ◌<◌, bit_and, bit_or}
use mathlib.Core.Path.{◌≡◌, refl}
use mathlib.Core.Bool.{Bool, true, ◌&&◌}
use native.Mathlib.Omega.{arith}
use model_lib.Base.Tests.{◌==◌, if◌then◌else◌, ltb, ==_iff}

-- The test holds of every number under the bound.
unfoldable pub all_under : ℕ → (ℕ → Bool) → Bool
all_under zero test = true
all_under (suc bound) test = all_under bound test && test bound

pub all_under_sound :
    (bound : ℕ) (test : ℕ → Bool) (i : ℕ) → all_under bound test ≡ true → i < bound → test i ≡ true
unfolding all_under
all_under_sound (suc bound) test i checked below = ground (arith, all_under_sound bound test i)
all_under_sound zero test i checked below = absurd (omega arith)

-- `(x >> k) & 1`
abbrev pub bit : ℕ → ℕ → ℕ
bit x k = x / 2 ^ k % 2

abbrev pub set_bit : ℕ → ℕ → ℕ
set_bit x k = bit_or x (2 ^ k)

abbrev pub clear_bit : ℕ → ℕ → ℕ
clear_bit x k = bit_and x (255 - 2 ^ k)

abbrev set_ok : ℕ → ℕ → ℕ → Bool
set_ok x k j = bit (set_bit x k) j == (if j == k then 1 else bit x j)

abbrev clear_ok : ℕ → ℕ → ℕ → Bool
clear_ok x k j = bit (clear_bit x k) j == (if j == k then 0 else bit x j)

set_table : all_under 256 (λ x. all_under 8 (λ k. all_under 8 (set_ok x k))) ≡ true
unfolding all_under
set_table = refl

clear_table : all_under 256 (λ x. all_under 8 (λ k. all_under 8 (clear_ok x k))) ≡ true
unfolding all_under
clear_table = refl

size_table :
    all_under 256 (λ x. all_under 8 (λ k. ltb (set_bit x k) 256 && ltb (clear_bit x k) 256)) ≡ true
unfolding all_under
size_table = refl

module _ (x k : ℕ) (hx : x < 256) (hk : k < 8) where
  pub bit-set_bit : (j : ℕ) → j < 8 → bit (set_bit x k) j ≡ (if j == k then 1 else bit x j)
  bit-set_bit j hj = (==_iff _ _).0 (
      all_under_sound 8 (set_ok x k) j
        (all_under_sound 8 _ k (all_under_sound 256 _ x set_table hx) hk) hj)

  pub bit-clear_bit : (j : ℕ) → j < 8 → bit (clear_bit x k) j ≡ (if j == k then 0 else bit x j)
  bit-clear_bit j hj = (==_iff _ _).0 (
      all_under_sound 8 (clear_ok x k) j
        (all_under_sound 8 _ k (all_under_sound 256 _ x clear_table hx) hk) hj)

  size_ok : (ltb (set_bit x k) 256 && ltb (clear_bit x k) 256) ≡ true
  size_ok = all_under_sound 8 _ k (all_under_sound 256 _ x size_table hx) hk

  pub set_bit-lt : set_bit x k < 256
  set_bit-lt = ground (arith, size_ok)

  pub clear_bit-lt : clear_bit x k < 256
  clear_bit-lt = ground (arith, size_ok)
