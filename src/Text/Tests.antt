-- ===== src/Text/Tests.antt =====
-- Runs of the string helpers.
use model_lib.Base.{ℕ, ◌≡◌, refl, arith, some, List, [], ◌∷◌}
use model_lib.Text.{less, strcmp, strncmp, strncmp_loop}
use model_lib.Text.Compare.{
  Chars, chars_end, chars_next, terminated, compare_chars, strcmp-compare_chars,
}

abbrev ab : List ℕ
ab = 97 ∷ 98 ∷ []

abbrev abc : List ℕ
abc = 97 ∷ 98 ∷ 99 ∷ []

ab-Chars : Chars ab
ab-Chars = chars_next (omega arith) (omega arith) (chars_next (omega arith) (omega arith) chars_end)

abc-Chars : Chars abc
abc-Chars =
    chars_next (omega arith) (omega arith)
      (chars_next (omega arith) (omega arith) (chars_next (omega arith) (omega arith) chars_end))

strcmp-compare_chars_example :
    strcmp (terminated ab []) (terminated abc (7 ∷ [])) ≡ some (compare_chars ab abc)
strcmp-compare_chars_example = strcmp-compare_chars ab abc [] (7 ∷ []) ab-Chars abc-Chars

-- The first two characters agree, and the result is not 0 all the same.
two_of_three : strncmp (terminated ab []) (terminated abc []) 2 ≡ some less
unfolding strncmp strncmp_loop terminated
two_of_three = refl
