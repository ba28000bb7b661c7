-- ===== src/Shell/Words.antt =====
-- `nextword` on a command line.
use model_lib.Base.{
  ℕ, ◌≡◌, ◌≢◌, ◌⊎◌, inl, inr, refl, arith, true, false, not, ◌==◌, ◌&&◌, if◌then◌else◌, none, some,
  List, [], ◌∷◌, ◌++◌,
}
use model_lib.Text.{isspace}
use model_lib.Shell.{skip_spaces, take_word, nextword}

-- Characters that are spaces or tabs, and characters of a word.
pub data Spaces : List ℕ → Type 0 where
  spaces_end : Spaces []
  spaces_next : {c : ℕ} → {s : List ℕ} → (isspace c ≡ true) → (c ≢ 0) → Spaces s → Spaces (c ∷ s)

pub data WordChars : List ℕ → Type 0 where
  word_end : WordChars []
  word_next :
      {c : ℕ} → {s : List ℕ} → (isspace c ≡ false) → (c ≢ 0) → WordChars s → WordChars (c ∷ s)

skip_spaces-append :
    (s p q : List ℕ) → Spaces s → skip_spaces p ≡ some q → skip_spaces (s ++ p) ≡ some q
unfolding skip_spaces
skip_spaces-append [] p q sp h = h
skip_spaces-append (c ∷ s) p q (spaces_next space nz sp) h =
    let rest : skip_spaces (s ++ p) ≡ some q = skip_spaces-append s p q sp h in
    let pass : (not (c == 0) && isspace c) ≡ true = ground arith in rw (pass, rest)

take_word-append :
    (w : List ℕ) (c : ℕ) (p : List ℕ)
    → WordChars w
    → (c ≡ 0) ⊎ (isspace c ≡ true)
    → take_word (w ++ (c ∷ p)) ≡ some (w, c ∷ p)
unfolding take_word
take_word-append [] c p ws stop =
    let stops : (not (c == 0) && not (isspace c)) ≡ false = ground arith in rw stops
take_word-append (d ∷ w) c p (word_next plain nz ws) stop =
    let rest : take_word (w ++ (c ∷ p)) ≡ some (w, c ∷ p) = take_word-append w c p ws stop in
    let pass : (not (d == 0) && not (isspace d)) ≡ true = ground arith in rw (pass, rest)

skip_spaces-stop :
    (c : ℕ) (p : List ℕ) → (c ≡ 0) ⊎ (isspace c ≡ false) → skip_spaces (c ∷ p) ≡ some (c ∷ p)
unfolding skip_spaces
skip_spaces-stop c p stop =
    let stops : (not (c == 0) && isspace c) ≡ false = ground arith in rw stops

-- `nextword` passes over spaces and gives the word that follows them, up to a space or the end; it goes
-- on behind that space, or nowhere at the end.
pub nextword-word :
    (s w : List ℕ) (d c : ℕ) (p : List ℕ)
    → Spaces s
    → WordChars (d ∷ w)
    → (c ≡ 0) ⊎ (isspace c ≡ true)
    → nextword (s ++ ((d ∷ w) ++ (c ∷ p))) ≡ some (some (d ∷ w), if c == 0 then none else some p)
unfolding nextword
nextword-word s w d c p sp (word_next plain nz ws) stop =
    let skipped : skip_spaces (s ++ ((d ∷ w) ++ (c ∷ p))) ≡ some ((d ∷ w) ++ (c ∷ p)) =
      skip_spaces-append s ((d ∷ w) ++ (c ∷ p)) _ sp
        (skip_spaces-stop d (w ++ (c ∷ p)) (inr plain)) in
    let taken : take_word ((d ∷ w) ++ (c ∷ p)) ≡ some (d ∷ w, c ∷ p) =
      take_word-append (d ∷ w) c p (word_next plain nz ws) stop in
    let here : (d == 0) ≡ false = ground arith in rw (skipped, taken, here)

-- `nextword` of spaces only gives no word and nothing to go on with.
pub nextword-null : (s p : List ℕ) → Spaces s → nextword (s ++ (0 ∷ p)) ≡ some (none, none)
unfolding nextword take_word
nextword-null s p sp =
    let skipped : skip_spaces (s ++ (0 ∷ p)) ≡ some (0 ∷ p) =
      skip_spaces-append s (0 ∷ p) _ sp (skip_spaces-stop 0 p (inl refl)) in
    rw skipped
