-- ===== src/Fs/Path/Searched.antt =====
-- `dir_lookup` in a directory before and after an entry is added.
use model_lib.Base.{
  ℕ, ◌+◌, ◌*◌, ◌/◌, ◌<◌, ◌≡◌, ◌≢◌, refl, arith, if◌then◌else◌, ltb, false, Bool-cases, inl, inr, ap,
  ◌∙◌, none, some, List, [], ◌∷◌, ◌++◌,
}
use model_lib.Fs.State.{Fs, ok}
use model_lib.Fs.Inode.Access.{inode_at, Mounted}
use model_lib.Fs.Rw.Read.{AllBytes}
use model_lib.Fs.Dir.{entry_inum, dir_lookup}
use model_lib.Fs.Dir.Lookup.{Directory, entry_at, dir_lookup-Found}
use model_lib.Text.Compare.{Chars, terminated}

-- The names with one more behind them.
abbrev pub with_name : (ℕ → List ℕ) → ℕ → List ℕ → ℕ → List ℕ
with_name names count name j = if ltb j count then names j else name

terminated-append : (name : List ℕ) → name ++ (0 ∷ []) ≡ terminated name []
unfolding terminated
terminated-append [] = refl
terminated-append (c ∷ name) = ap (λ l. c ∷ l) (terminated-append name)

-- `dir_lookup` of a name that no entry has.
pub dir_lookup-absent :
    (s : Fs) (n : ℕ) (names : ℕ → List ℕ) (name : List ℕ)
    → Mounted s
    → AllBytes s
    → Directory s n names
    → Chars name
    → ((j : ℕ) → j < (inode_at s n).size / 16 → names j ≢ name)
    → dir_lookup n (name ++ (0 ∷ [])) s ≡ ok (0, none) s
dir_lookup-absent s n names name m bytes d cs fresh =
    let (r, run, found) = dir_lookup-Found s n names name m bytes d cs in
    rw (terminated-append name) (
      run
      ∙ ap (λ x. ok x s)
          (elim found [ inl f ↦ absurd (fresh f.index f.below f.same) | inr a ↦ a.result ]))

-- `dir_lookup` of the name of the last entry.
pub dir_lookup-entered :
    (u : Fs) (n : ℕ) (names : ℕ → List ℕ) (count : ℕ) (name : List ℕ) (k : ℕ)
    → Mounted u
    → AllBytes u
    → Directory u n (with_name names count name)
    → (inode_at u n).size ≡ 16 * (count + 1)
    → entry_inum (entry_at u n count) ≡ k
    → Chars name
    → ((j : ℕ) → j < count → names j ≢ name)
    → dir_lookup n (name ++ (0 ∷ [])) u ≡ ok (k, some (16 * count)) u
dir_lookup-entered u n names count name k m bytes d size new cs fresh =
    let (r, run, found) = dir_lookup-Found u n (with_name names count name) name m bytes d cs in
    let last : ltb count count ≡ false = ground arith in
    rw (terminated-append name) (
      run
      ∙ ap (λ x. ok x u)
          (elim found [
            | inl f ↦ elim (Bool-cases (ltb f.index count)) [
              | inl old ↦ absurd (fresh f.index (ground arith) (rw old at f.same))
              | inr new_one ↦
                  let e : f.index ≡ count = ground (arith, f.below, size) in
                  f.result
                  ∙ ap (λ i. (entry_inum (entry_at u n i), some (16 * i))) e
                  ∙ ap (λ x. (x, some (16 * count))) new
            ]
            | inr a ↦ absurd (a.absent count (omega arith) (omega (arith, size)) (rw last refl))
          ]))
