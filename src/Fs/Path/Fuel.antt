-- ===== src/Fs/Path/Fuel.antt =====
-- The fuel of `fs_lookup` is enough for every path.
use model_lib.Base.{
  ℕ, zero, suc, ◌+◌, ◌≤◌, ◌≡◌, ◌≢◌, inl, inr, refl, arith, true, false, ◌==◌, ◌||◌, ltb, leb,
  if◌then◌else◌, Option, none, some, List, [], ◌∷◌, ◌++◌, length, Bool-cases, Option-cases,
}
use model_lib.Fs.Layout.{max_name, null_inum}
use model_lib.Fs.State.{Fs, pure, and_then-cong, Cmd}
use model_lib.Fs.Dir.{dir_lookup}
use model_lib.Fs.Path.{
  NextName, off_path, too_long, next_name, cons_name, copy_name, skip_slashes, lookup_name,
  lookup_loop,
}

-- At most `k` bytes are left behind the name, and behind the slashes after it.
Left : ℕ → Option (List ℕ) → Type 0
Left k none = Unit {0}
Left k (some p) = length p ≤ k

LeftBehind : ℕ → NextName → Type 0
LeftBehind k off_path = Unit {0}
LeftBehind k too_long = Unit {0}
LeftBehind k (next_name name p) = length p ≤ k

Left-weaken : (k l : ℕ) (r : Option (List ℕ)) → Left k r → k ≤ l → Left l r
unfolding Left
Left-weaken k l none h le = tt
Left-weaken k l (some p) h le = omega arith

skip_slashes-Left : (path : List ℕ) → Left (length path) (skip_slashes path)
unfolding skip_slashes
skip_slashes-Left [] = unfold Left in tt
skip_slashes-Left (c ∷ path) = elim (Bool-cases (c == 47)) [
  | inl slash ↦ rw slash (
      Left-weaken (length path) (length (c ∷ path)) (skip_slashes path) (skip_slashes-Left path)
        (omega arith))
  | inr other ↦ rw other (unfold Left in omega arith)
]

cons_name-LeftBehind :
    (c k l : ℕ) (r : NextName) → LeftBehind k r → k ≤ l → LeftBehind l (cons_name c r)
unfolding LeftBehind
cons_name-LeftBehind c k l off_path h le = tt
cons_name-LeftBehind c k l too_long h le = tt
cons_name-LeftBehind c k l (next_name name p) h le = omega arith

copy_name-LeftBehind : (l : ℕ) (path : List ℕ) → LeftBehind (length path) (copy_name l path)
unfolding copy_name
copy_name-LeftBehind l [] = unfold LeftBehind in tt
copy_name-LeftBehind l (c ∷ path) = elim (Bool-cases (c == 0 || c == 47)) [
  | inl stop ↦ rw stop (unfold LeftBehind in omega arith)
  | inr plain ↦ elim (Bool-cases (leb max_name l)) [
    | inl long ↦ rw (plain, long) (unfold LeftBehind in tt)
    | inr fits ↦
        rw (plain, fits)
          (cons_name-LeftBehind c (length path) (length (c ∷ path)) (copy_name (l + 1) path)
            (copy_name-LeftBehind (l + 1) path) (omega arith))
  ]
]

-- What the next round is given has at most `k` bytes.
Next : ℕ → NextName → Type 0
Next k off_path = Unit {0}
Next k too_long = Unit {0}
Next k (next_name name p) = Left k (skip_slashes p)

LeftBehind-Next : (c k : ℕ) (r : NextName) → LeftBehind k r → Next k (cons_name c r)
unfolding LeftBehind Next
LeftBehind-Next c k off_path h = tt
LeftBehind-Next c k too_long h = tt
LeftBehind-Next c k (next_name name p) h =
    Left-weaken (length p) k (skip_slashes p) (skip_slashes-Left p) h

-- A round that does not end at the terminating zero passes one character at least.
copy_name-Next : (c : ℕ) (path : List ℕ) → c ≢ 0 → Next (length path) (copy_name 0 (c ∷ path))
unfolding copy_name
copy_name-Next c path nz = elim (Bool-cases (c == 47)) [
  | inl slash ↦
      let stop : (c == 0 || c == 47) ≡ true = ground arith in
      rw stop (unfold Next skip_slashes in rw slash (skip_slashes-Left path))
  | inr other ↦
      let plain : (c == 0 || c == 47) ≡ false = ground arith in
      rw plain (LeftBehind-Next c (length path) (copy_name 1 path) (copy_name-LeftBehind 1 path))
]

-- Two ways to go on that agree on short paths.
module _ (k : ℕ) (again again' : ℕ → List ℕ → Cmd ℕ)
    (same : (found : ℕ) (p : List ℕ) (t : Fs)
      → length p ≤ k
      → again found p t ≡ again' found p t) where
  next_round :
      (found : ℕ) (p : List ℕ) (t : Fs)
      → length p ≤ k
      → (if found == null_inum then pure null_inum else again found p) t
        ≡ (if found == null_inum then pure null_inum else again' found p) t
  next_round found p t h = elim (Bool-cases (found == null_inum)) [
    | inl missing ↦ rw missing
    | inr there ↦ rw there (same found p t h)
  ]

  lookup_name-cong :
      (inum : ℕ) (r : NextName) (s : Fs)
      → Next k r
      → lookup_name inum again r s ≡ lookup_name inum again' r s
  unfolding lookup_name Next
  lookup_name-cong inum off_path s h = refl
  lookup_name-cong inum too_long s h = refl
  lookup_name-cong inum (next_name name p) s h = elim (Bool-cases (ltb (length name) max_name)) [
    | inl fits ↦ elim (Option-cases (skip_slashes p)) [
      | inl outside ↦ rw (fits, outside)
      | inr (p', found) ↦
          let short : length p' ≤ k = unfold Left in (rw found at h) in
          rw (fits, found)
            (and_then-cong (dir_lookup inum (name ++ (0 ∷ [])) s) _ _
              (λ x t. next_round x.0 p' t short))
    ]
    | inr long ↦ rw long
  ]

-- The loop of `fs_lookup`, on a path of any bytes, gives the same whatever its fuel, if that is at least
-- the length of the path's array, as it is in `fs_lookup`.
pub lookup_loop-enough :
    (fuel fuel' inum : ℕ) (path : List ℕ) (s : Fs)
    → length path ≤ fuel
    → length path ≤ fuel'
    → lookup_loop fuel inum path s ≡ lookup_loop fuel' inum path s
unfolding lookup_loop
lookup_loop-enough fuel fuel' inum [] s h h' = refl
lookup_loop-enough zero fuel' inum (c ∷ path) s h h' = absurd (omega arith)
lookup_loop-enough (suc fuel) zero inum (c ∷ path) s h h' = absurd (omega arith)
lookup_loop-enough (suc fuel) (suc fuel') inum (c ∷ path) s h h' = elim (Bool-cases (c == 0)) [
  | inl ended ↦ rw ended
  | inr more ↦ rw more (
      lookup_name-cong (length path) (lookup_loop fuel) (lookup_loop fuel')
        (λ found p t short. lookup_loop-enough fuel fuel' found p t (omega arith) (omega arith))
        inum (copy_name 0 (c ∷ path)) s (copy_name-Next c path (ground arith)))
]
