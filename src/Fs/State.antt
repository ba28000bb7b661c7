-- ===== src/Fs/State.antt =====
-- The state of fs/fs.c, with the blocks of the disk behind `fs.disk_read` and `fs.disk_write`, and
-- the outcomes of a call. What `fs.printf` prints is not part of the state.
use model_lib.Base.{ℕ, Bool, true, false, update, Option, none, some, ◌≡◌, refl}
use model_lib.Fs.Layout.{Block, Superblock}

-- The global `fs`. The function pointers are the two commands below.
pub record Fs : Type 0 where
  pub init : Bool
  pub su : Superblock
  pub disk : ℕ → Block

-- A call returns, or sits in the endless loop of `panic`, or leaves an array.
pub data Run (A : Type 0) : Type 0 where
  ok : A → Fs → Run A
  panicked : Run A
  out_of_bounds : Run A

abbrev pub Cmd : Type 0 → Type 0
Cmd A = Fs → Run A

abbrev pub pure : {A : Type 0} → A → Cmd A
pure = ok

module _ {A B : Type 0} where
  abbrev pub and_then : Run A → (A → Cmd B) → Run B
  and_then (ok a s) k = k a s
  and_then panicked k = panicked
  and_then out_of_bounds k = out_of_bounds

  infixl 5 ◌>>=◌ ◌>>◌
  abbrev pub ◌>>=◌ : Cmd A → (A → Cmd B) → Cmd B
  ◌>>=◌ m k s = and_then (m s) k

  abbrev pub ◌>>◌ : Cmd A → Cmd B → Cmd B
  ◌>>◌ m n s = and_then (m s) (λ _. n)

  -- What follows a call matters only at its result and its state.
  pub and_then-cong :
      (r : Run A) (k l : A → Cmd B)
      → ((x : A) (s : Fs) → k x s ≡ l x s)
      → and_then r k ≡ and_then r l
  and_then-cong (ok x s) k l same = same x s
  and_then-cong panicked k l same = refl
  and_then-cong out_of_bounds k l same = refl

abbrev pub get : Cmd Fs
get s = ok s s

abbrev pub disk_read : ℕ → Cmd Block
disk_read n s = ok (s.disk n) s

abbrev pub disk_write : ℕ → Block → Cmd (Unit {0})
disk_write n b s = ok tt (record s { disk = update s.disk n b })

-- `assert(e)` of fs.c: `panic` when the test fails.
abbrev pub assert : Bool → Cmd (Unit {0})
assert true s = ok tt s
assert false s = panicked

-- An index test that the source leaves out: undefined behaviour when it fails.
abbrev pub in_bounds : Bool → Cmd (Unit {0})
in_bounds true s = ok tt s
in_bounds false s = out_of_bounds

-- `none` stands for a read past the end of an array.
abbrev pub inside : {A : Type 0} → Option A → Cmd A
inside (some x) s = ok x s
inside none s = out_of_bounds
