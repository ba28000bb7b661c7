-- ===== src/Mkfs/Words.antt =====
-- `nextword` of mkfs/mkfs.c takes the words of a line off one by one.
use model_lib.Base.{
  ℕ, ◌≡◌, refl, arith, not, ◌==◌, ◌&&◌, ◌||◌, true, false, Bool, some, List, [], ◌∷◌, ◌++◌,
}
use model_lib.Mkfs.{isspace, skip_spaces, take_word, nextword, two_words}

-- A word: characters that are neither zero nor white space.
abbrev pub Chars : List ℕ → Type 0
Chars [] = Unit {0}
Chars (c ∷ w) = ((not (c == 0) && not (isspace c)) ≡ true) × Chars w

abbrev pub Word : List ℕ → Type 0
Word [] = ⊥
Word (c ∷ w) = Chars (c ∷ w)

-- What follows a word: a zero or white space.
abbrev pub ends : ℕ → Bool
ends c = c == 0 || isspace c

take_word_lem :
    (w : List ℕ) (c : ℕ) (rest : List ℕ)
    → Chars w
    → ends c ≡ true
    → take_word (w ++ (c ∷ rest)) ≡ some (w, c ∷ rest)
unfolding take_word
take_word_lem [] c rest ok end =
    let stop : (not (c == 0) && not (isspace c)) ≡ false = ground arith in rw stop refl
take_word_lem (d ∷ w) c rest (char, chars) end = rw (char, take_word_lem w c rest chars end) refl

skip_spaces_lem : (w rest : List ℕ) → Word w → skip_spaces (w ++ rest) ≡ some (w ++ rest)
unfolding skip_spaces
skip_spaces_lem [] rest word = absurd word
skip_spaces_lem (c ∷ w) rest (char, chars) =
    let stay : (not (c == 0) && isspace c) ≡ false = ground arith in rw stay refl

pub nextword-first :
    (w : List ℕ) (c : ℕ) (rest : List ℕ)
    → Word w
    → ends c ≡ true
    → nextword (w ++ (c ∷ rest)) ≡ some (some (w, c ∷ rest))
unfolding nextword
nextword-first [] c rest word end = absurd word
nextword-first (d ∷ w) c rest word end =
    let (char, chars) : Chars (d ∷ w) = word in
    let there : (d == 0) ≡ false = ground arith in
    rw (skip_spaces_lem (d ∷ w) (c ∷ rest) word, there, take_word_lem (d ∷ w) c rest word end) refl

nextword_space : (s : List ℕ) → nextword (32 ∷ s) ≡ nextword s
unfolding nextword skip_spaces
nextword_space s = refl

-- The two words of the arguments of a command, each behind a space.
pub two_words_lem :
    (first second : List ℕ)
    → Word first
    → Word second
    → two_words (nextword (32 ∷ first ++ (32 ∷ second ++ (0 ∷ [])))) ≡ some (some (first, second))
two_words_lem first second p q =
    rw
      (
        nextword_space (first ++ (32 ∷ second ++ (0 ∷ []))),
        nextword-first first 32 (second ++ (0 ∷ [])) p refl,
        nextword_space (second ++ (0 ∷ [])),
        nextword-first second 0 [] q refl,
      )
      refl
