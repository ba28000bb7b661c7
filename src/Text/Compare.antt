-- ===== src/Text/Compare.antt =====
-- `strcmp` and `strncmp` on terminated strings.
use model_lib.Base.{
  ℕ, ◌<◌, ◌≡◌, inl, inr, refl, arith, ◌==◌, if◌then◌else◌, some, List, [], ◌∷◌, Bool-cases, ==_iff,
}
use model_lib.Text.{Sign, less, equal, greater, char_lt, strcmp, strncmp, strncmp_loop}

-- The characters of a string: bytes other than 0.
pub data Chars : List ℕ → Type 0 where
  chars_end : Chars []
  chars_next : {c : ℕ} → {s : List ℕ} → (0 < c) → (c < 256) → Chars s → Chars (c ∷ s)

-- The array that holds a string, with what follows its terminating zero.
unfoldable pub terminated : List ℕ → List ℕ → List ℕ
terminated [] rest = 0 ∷ rest
terminated (c ∷ s) rest = c ∷ terminated s rest

-- Two strings are in order by the first character where they differ, a string before its extensions.
unfoldable pub compare_chars : List ℕ → List ℕ → Sign
compare_chars [] [] = equal
compare_chars [] (b ∷ t) = less
compare_chars (a ∷ s) [] = greater
compare_chars (a ∷ s) (b ∷ t) =
    let rest = compare_chars s t in if char_lt a b then less else if a == b then rest else greater

-- On two terminated strings `strcmp` gives their order, and reads nothing behind either end.
pub strcmp-compare_chars :
    (s t rest rest' : List ℕ)
    → Chars s
    → Chars t
    → strcmp (terminated s rest) (terminated t rest') ≡ some (compare_chars s t)
unfolding strcmp terminated compare_chars
strcmp-compare_chars [] [] rest rest' cs ct = refl
strcmp-compare_chars [] (b ∷ t) rest rest' cs (chars_next pos byte ct) = ground arith
strcmp-compare_chars (a ∷ s) [] rest rest' (chars_next pos byte cs) ct = ground arith
strcmp-compare_chars (a ∷ s) (b ∷ t) rest rest' (chars_next pos byte cs)
      (chars_next pos' byte' ct) =
    ground (arith, strcmp-compare_chars s t rest rest' cs ct)

-- The order is `equal` only for equal strings.
pub compare_chars-equal : (s t : List ℕ) → compare_chars s t ≡ equal → s ≡ t
unfolding compare_chars
compare_chars-equal [] [] e = refl
compare_chars-equal [] (b ∷ t) e = cc
compare_chars-equal (a ∷ s) [] e = cc
compare_chars-equal (a ∷ s) (b ∷ t) e = elim (Bool-cases (char_lt a b)) [
  | inl lo ↦ cc
  | inr hi ↦ elim (Bool-cases (a == b)) [
    | inl same ↦
        let here : a ≡ b = (==_iff _ _).0 same in
        let there : s ≡ t = compare_chars-equal s t (ground (arith, e)) in cc
    | inr other ↦ cc
  ]
]

pub compare_chars_self : (s : List ℕ) → compare_chars s s ≡ equal
unfolding compare_chars
compare_chars_self [] = refl
compare_chars_self (a ∷ s) = ground (arith, compare_chars_self s)

-- `strncmp` with a bound other than 0 compares whole strings, as `strcmp` does: its counter never
-- moves, so the bound is not reached.
pub strncmp-strcmp : (s t : List ℕ) (n : ℕ) → 0 < n → strncmp s t n ≡ strcmp s t
unfolding strncmp strncmp_loop strcmp
strncmp-strcmp [] t n pos = ground arith
strncmp-strcmp (a ∷ s) [] n pos = ground arith
strncmp-strcmp (a ∷ s) (b ∷ t) n pos = ground (arith, strncmp-strcmp s t n pos)
