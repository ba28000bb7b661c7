-- ===== src/Number/Tests.antt =====
-- Runs of the number printing.
use model_lib.Base.{
  ℕ, ◌^◌, ◌≤◌, ◌<◌, ◌≡◌, refl, arith, inl, Bool, true, false, List, [], ◌∷◌, length,
}
use model_lib.Number.{digits_of, backwards, abs_of, int_chars, int_count}
use model_lib.Number.Digits.{read_number, int_chars-read_number}

-- The pattern of -25.
minus_25 : int_chars 4294967271 true 10 ≡ 45 ∷ 50 ∷ 53 ∷ []
unfolding int_chars digits_of backwards
minus_25 = refl

int_chars-read_number_example :
    (read_number 10 0 (int_chars 4294967271 false 10) ≡ 4294967271)
    × (4294967271 < 2 ^ 31 → int_chars 4294967271 true 10 ≡ int_chars 4294967271 false 10)
    × (2 ^ 31 ≤ 4294967271
        → (chars : List ℕ) × (int_chars 4294967271 true 10 ≡ 45 ∷ chars)
          × (read_number 10 0 chars ≡ 25))
    × ((sign : Bool) → length (digits_of 32 10 (abs_of 4294967271 sign)) ≤ 10)
    × ((sign : Bool) → int_count 4294967271 sign 10 ≤ 10)
int_chars-read_number_example = int_chars-read_number 4294967271 10 (inl refl) (omega arith)
