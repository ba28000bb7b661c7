-- ===== src/Fs/Path/Getname.antt =====
-- `getname` splits a path at its last slash.
use mathlib.Core.List.{append_assoc}
use model_lib.Base.{
  ℕ, zero, suc, ◌+◌, ◌-◌, ◌<◌, ◌≤◌, ◌≡◌, refl, arith, ◌==◌, ltb, true, false, ap, sym, ◌∙◌, some,
  List, [], ◌∷◌, ◌++◌, length, length-append, get_or, take, drop,
}
use model_lib.Fs.State.{Fs, ok}
use model_lib.Fs.Path.{slash, back_over_slashes, back_over_name, split_path, getname_of, getname}
use model_lib.Text.{strlen}
use model_lib.Text.Compare.{Chars, chars_next}
use model_lib.Fs.Path.Names.{NameChars, name_char}

pub strlen-Chars : (s rest : List ℕ) → Chars s → strlen (s ++ (0 ∷ rest)) ≡ some (length s)
unfolding strlen
strlen-Chars [] rest cs = refl
strlen-Chars (c ∷ s) rest (chars_next lo hi cs) =
    let there : (c == 0) ≡ false = ground arith in
    rw (there, strlen-Chars s rest cs) (ap some (omega arith))

pub Chars-append : (s t : List ℕ) → Chars s → Chars t → Chars (s ++ t)
Chars-append [] t cs ct = ct
Chars-append (c ∷ s) t (chars_next lo hi cs) ct = chars_next lo hi (Chars-append s t cs ct)

get_or-behind : (q r : List ℕ) (i : ℕ) → get_or (q ++ r) (length q + i) 0 ≡ get_or r i 0
get_or-behind [] r i = ap (λ j. get_or r j 0) (omega arith)
get_or-behind (c ∷ q) r i =
    let e : suc (length q) + i ≡ suc (length q + i) = omega arith in
    ap (λ j. get_or (c ∷ (q ++ r)) j 0) e ∙ get_or-behind q r i

take-front : (q r : List ℕ) → take (length q) (q ++ r) ≡ q
take-front [] r = refl
take-front (c ∷ q) r = ap (λ l. c ∷ l) (take-front q r)

drop-front : (q r : List ℕ) → drop (length q) (q ++ r) ≡ r
drop-front [] r = refl
drop-front (c ∷ q) r = drop-front q r

name-slash :
    (name rest : List ℕ) (j : ℕ)
    → NameChars name
    → j < length name
    → (get_or (name ++ rest) j 0 == slash) ≡ false
name-slash [] rest j nc h = absurd (omega arith)
name-slash (c ∷ name) rest zero (name_char nz ns nc) h = ground arith
name-slash (c ∷ name) rest (suc j) (name_char nz ns nc) h = name-slash name rest j nc (omega arith)

-- The path `q/name`.
module _ (q name : List ℕ) where
  abbrev path : List ℕ
  path = q ++ (slash ∷ (name ++ (0 ∷ [])))

  -- Character `j` of the name.
  char_lem : (j : ℕ) → get_or path (suc (length q + j)) 0 ≡ get_or (name ++ (0 ∷ [])) j 0
  char_lem j =
      let e : suc (length q + j) ≡ length q + suc j = omega arith in
      ap (λ i. get_or path i 0) e ∙ get_or-behind q (slash ∷ (name ++ (0 ∷ []))) (suc j)

  slash_lem : get_or path (length q) 0 ≡ slash
  slash_lem =
      let e : length q ≡ length q + 0 = omega arith in
      ap (λ i. get_or path i 0) e ∙ get_or-behind q (slash ∷ (name ++ (0 ∷ []))) 0

  start_lem : (l : ℕ) → get_or path l 0 ≡ slash → back_over_name path l ≡ l
  unfolding back_over_name
  start_lem zero e = refl
  start_lem (suc l) e = rw e refl

  back_over_name_lem :
      (j : ℕ) → NameChars name → j ≤ length name → back_over_name path (length q + j) ≡ length q
  unfolding back_over_name
  back_over_name_lem zero nc h =
      let e : length q + 0 ≡ length q = omega arith in rw e (start_lem (length q) slash_lem)
  back_over_name_lem (suc j) nc h =
      let e : length q + suc j ≡ suc (length q + j) = omega arith in
      rw (e, char_lem j, name-slash name (0 ∷ []) j nc (omega arith))
        (back_over_name_lem j nc (omega arith))

  split_lem :
      length name ≤ 13
      → split_path path (length q + length name) (length q + 1) ≡ some (name, q ++ (slash ∷ []))
  unfolding split_path
  split_lem short =
      let len : length q + length name + 1 - (length q + 1) ≡ length name = omega arith in
      let ok : ltb 13 (length name) ≡ false = ground arith in
      let before : length q + 1 ≡ length (q ++ (slash ∷ [])) =
        omega (arith, length-append q (slash ∷ [])) in
      let path_lem : path ≡ (q ++ (slash ∷ [])) ++ (name ++ (0 ∷ [])) =
        sym (append_assoc q (slash ∷ []) (name ++ (0 ∷ []))) in
      rw (len, ok, before, path_lem)
        (rw
          (
            drop-front (q ++ (slash ∷ [])) (name ++ (0 ∷ [])),
            take-front name (0 ∷ []),
            take-front (q ++ (slash ∷ [])) (name ++ (0 ∷ [])),
          )
          refl)

  last_lem :
      (j : ℕ)
      → NameChars name
      → length name ≡ suc j
      → back_over_slashes path (length q + length name) ≡ length q + length name
  unfolding back_over_slashes
  last_lem j nc e =
      let next : length q + length name ≡ suc (length q + j) = omega arith in
      rw (next, char_lem j, name-slash name (0 ∷ []) j nc (omega arith)) refl

  getname_of_lem :
      (j : ℕ)
      → NameChars name
      → length name ≡ suc j
      → length name ≤ 13
      → getname_of path (suc (length q + length name)) ≡ some (name, q ++ (slash ∷ []))
  unfolding getname_of
  getname_of_lem j nc e short =
      let some_name : (length q + length name == 0) ≡ false = ground arith in
      rw
        (
          last_lem j nc e,
          back_over_name_lem (length name) nc (omega arith),
          some_name,
          slash_lem,
          split_lem short,
        )
        refl

-- `getname` of a path `q/name` gives the name and `q/`.
pub getname-split :
    (q name : List ℕ) (s : Fs)
    → Chars q
    → Chars name
    → NameChars name
    → 1 ≤ length name
    → length name ≤ 13
    → length q < 63
    → getname (q ++ (slash ∷ (name ++ (0 ∷ [])))) s ≡ ok (some (name, q ++ (slash ∷ []))) s
unfolding getname
getname-split q name s cq cn nc pos short small =
    let j : ℕ = length name - 1 in
    let e : length name ≡ suc j = omega arith in
    let whole : q ++ (slash ∷ (name ++ (0 ∷ []))) ≡ (q ++ (slash ∷ name)) ++ (0 ∷ []) =
      sym (append_assoc q (slash ∷ name) (0 ∷ [])) in
    let run : strlen (q ++ (slash ∷ (name ++ (0 ∷ [])))) ≡ some (suc (length q + length name)) =
      ap strlen whole
      ∙ strlen-Chars (q ++ (slash ∷ name)) []
          (Chars-append q (slash ∷ name) cq (chars_next (omega arith) (omega arith) cn))
      ∙ ap some (omega (arith, length-append q (slash ∷ name))) in
    let room : ltb (length (q ++ (slash ∷ []))) 64 ≡ true =
      ground (arith, length-append q (slash ∷ [])) in
    rw (run, getname_of_lem q name j nc e short, room) refl
