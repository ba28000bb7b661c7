-- ===== src/Fs/Path/Names.antt =====
-- The names of a path, and the fuel of `fs_lookup`.
use model_lib.Base.{
  ℕ, zero, suc, ◌+◌, ◌≤◌, ◌<◌, ◌≡◌, ◌≢◌, inl, inr, refl, arith, true, false, ◌==◌, ◌||◌, ltb, leb,
  if◌then◌else◌, some, List, [], ◌∷◌, ◌++◌, length, length-append, Bool-cases,
}
use model_lib.Fs.Layout.{max_path, null_inum, root_inum}
use model_lib.Fs.State.{Fs, out_of_bounds, Cmd}
use model_lib.Text.{strnlen}
use model_lib.Fs.Path.{
  next_name, copy_name, skip_slashes, lookup_name, lookup_loop, lookup_from_root, fs_lookup,
}
use model_lib.Fs.State.{pure, ◌>>=◌, and_then-cong}
use model_lib.Fs.Dir.{dir_lookup}

-- The characters of a name: neither the terminating zero nor a slash.
pub data NameChars : List ℕ → Type 0 where
  name_end : NameChars []
  name_char : {c : ℕ} → {s : List ℕ} → (c ≢ 0) → (c ≢ 47) → NameChars s → NameChars (c ∷ s)

-- A name that `fs_lookup` accepts: 1 to 13 such characters.
pub record IsName (name : List ℕ) : Type 0 where
  pub chars : NameChars name
  pub some_char : 0 < length name
  pub short : length name < 14

pub data Names : List (List ℕ) → Type 0 where
  names_end : Names []
  names_next :
      {name : List ℕ} → {names : List (List ℕ)} → IsName name → Names names → Names (name ∷ names)

-- The array of a path after its first slash: the names with a slash between each two.
abbrev pub separated : List (List ℕ) → List ℕ
separated [] = 0 ∷ []
separated (name ∷ names) = 47 ∷ (name ++ separated names)

abbrev pub joined : List (List ℕ) → List ℕ
joined [] = 0 ∷ []
joined (name ∷ names) = name ++ separated names

-- The names looked up one after the other, each in the directory that the one before gives.
unfoldable pub walk : ℕ → List (List ℕ) → Cmd ℕ
walk inum [] = pure inum
walk inum (name ∷ names) = dir_lookup inum (name ++ (0 ∷ [])) >>= λ (found, _).
    if found == null_inum then pure null_inum else walk found names

copy_name-append :
    (name rest : List ℕ) (l : ℕ)
    → NameChars name
    → l + length name ≤ 14
    → copy_name (l + length name) rest ≡ next_name [] rest
    → copy_name l (name ++ rest) ≡ next_name name rest
unfolding copy_name
copy_name-append [] rest l cs small stop = let e : l + 0 ≡ l = omega arith in rw e at stop
copy_name-append (c ∷ name) rest l (name_char z sl cs) small stop =
    let e : l + suc (length name) ≡ l + 1 + length name = omega arith in
    let tail : copy_name (l + 1) (name ++ rest) ≡ next_name name rest =
      copy_name-append name rest (l + 1) cs (omega arith) (rw e at stop) in
    let plain : (c == 0 || c == 47) ≡ false = ground arith in
    let fits : leb 14 l ≡ false = ground arith in rw (plain, fits, tail)

separated_stop :
    (names : List (List ℕ)) (l : ℕ) → copy_name l (separated names) ≡ next_name [] (separated names)
unfolding copy_name
separated_stop [] l = refl
separated_stop (name ∷ names) l = refl

head_char : {c : ℕ} {s : List ℕ} → NameChars (c ∷ s) → (c ≢ 0) × (c ≢ 47)
head_char (name_char z sl cs) = (z, sl)

skip_slashes-separated :
    (names : List (List ℕ)) → Names names → skip_slashes (separated names) ≡ some (joined names)
unfolding skip_slashes
skip_slashes-separated [] ns = refl
skip_slashes-separated ((c ∷ name) ∷ names) (names_next n ns) =
    let (_, plain) = head_char n.chars in ground arith
skip_slashes-separated ([] ∷ names) (names_next n ns) = absurd (omega (arith, n.some_char))

length-separated :
    (name : List ℕ) (names : List (List ℕ))
    → 0 < length name
    → length (joined names) < length (name ++ separated names)
length-separated name [] pos = omega (arith, length-append name (separated []))
length-separated name (n ∷ names) pos = omega (arith, length-append name (separated (n ∷ names)))

lookup_loop-walk :
    (names : List (List ℕ)) (fuel inum : ℕ) (s : Fs)
    → Names names
    → length (joined names) ≤ fuel
    → lookup_loop fuel inum (joined names) s ≡ walk inum names s
unfolding lookup_loop walk lookup_name
lookup_loop-walk [] zero inum s ns enough = absurd (omega arith)
lookup_loop-walk [] (suc fuel) inum s ns enough = refl
lookup_loop-walk ([] ∷ names) fuel inum s (names_next n ns) enough =
    absurd (omega (arith, n.some_char))
lookup_loop-walk ((c ∷ name) ∷ names) zero inum s (names_next n ns) enough = absurd (omega arith)
lookup_loop-walk ((c ∷ name) ∷ names) (suc fuel) inum s (names_next n ns) enough =
    let here : (c == 0) ≡ false = ground (arith, (head_char n.chars).0) in
    let copied : copy_name 0 ((c ∷ name) ++ separated names)
        ≡ next_name (c ∷ name) (separated names) =
      copy_name-append (c ∷ name) (separated names) 0 n.chars (omega (arith, n.short))
        (separated_stop names _) in
    let fits : ltb (length (c ∷ name)) 14 ≡ true = ground (arith, n.short) in
    let skipped : skip_slashes (separated names) ≡ some (joined names) =
      skip_slashes-separated names ns in
    rw (here, copied, fits, skipped)
      (and_then-cong (dir_lookup inum ((c ∷ name) ++ (0 ∷ [])) s) _ _ (λ r t. next r.0 t (
        lookup_loop-walk names fuel r.0 t ns
          (omega (arith, enough, length-separated (c ∷ name) names (omega arith))))))
  where
    next :
        (found : ℕ) (t : Fs)
        → lookup_loop fuel found (joined names) t ≡ walk found names t
        → (if found == null_inum then pure null_inum else lookup_loop fuel found (joined names)) t
          ≡ (if found == null_inum then pure null_inum else walk found names) t
    next found t same = elim (Bool-cases (found == null_inum)) [
      | inl zero_inum ↦ rw zero_inum
      | inr other ↦ rw other same
    ]

-- `fs_lookup` of a path `/a/b/...` whose array has its terminating zero within 64 characters, and whose
-- names have 1 to 13 characters, is the lookup of the names one after the other from the root,
-- stopped at the first that is not found.
pub fs_lookup-walk :
    (names : List (List ℕ)) (s : Fs) (l : ℕ)
    → Names names
    → strnlen (47 ∷ joined names) max_path ≡ some l
    → l < max_path
    → fs_lookup (47 ∷ joined names) s ≡ walk root_inum names s
unfolding fs_lookup lookup_from_root
fs_lookup-walk names s l ns len short =
    let fits : ltb 63 l ≡ false = ground arith in
    rw (len, fits) (lookup_loop-walk names (length (joined names)) root_inum s ns (omega arith))

lookup_loop-overflow :
    (name : List ℕ) (names : List (List ℕ)) (fuel inum : ℕ) (s : Fs)
    → NameChars name
    → length name ≡ 14
    → lookup_loop (suc fuel) inum (name ++ separated names) s ≡ out_of_bounds
unfolding lookup_loop lookup_name
lookup_loop-overflow [] names fuel inum s cs exact = absurd (omega arith)
lookup_loop-overflow (c ∷ name) names fuel inum s cs exact =
    let here : (c == 0) ≡ false = ground (arith, (head_char cs).0) in
    let copied : copy_name 0 ((c ∷ name) ++ separated names)
        ≡ next_name (c ∷ name) (separated names) =
      copy_name-append (c ∷ name) (separated names) 0 cs (omega (arith, exact))
        (separated_stop names _) in
    let long : ltb (length (c ∷ name)) 14 ≡ false = ground (arith, exact) in rw (here, copied, long)

-- A path `/name` or `/name/...` whose first name has 14 characters, and whose array has its terminating
-- zero within 64 characters, makes `fs_lookup` write past its array of 14 characters.
pub fs_lookup-overflow :
    (name : List ℕ) (names : List (List ℕ)) (s : Fs) (l : ℕ)
    → NameChars name
    → length name ≡ 14
    → strnlen (47 ∷ (name ++ separated names)) max_path ≡ some l
    → l < max_path
    → fs_lookup (47 ∷ (name ++ separated names)) s ≡ out_of_bounds
unfolding fs_lookup lookup_from_root
fs_lookup-overflow [] names s l cs exact len short = absurd (omega arith)
fs_lookup-overflow (c ∷ name) names s l cs exact len short =
    let fits : ltb 63 l ≡ false = ground arith in
    rw (len, fits)
      (lookup_loop-overflow (c ∷ name) names (length (name ++ separated names)) root_inum s cs
        exact)
