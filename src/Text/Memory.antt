-- ===== src/Text/Memory.antt =====
-- `memset`, `memcpy` and `strcpy` of grab/util.c on a memory of bytes, and `isalpha`. The file system
-- and the screen use the first two as `splice`, which the lemmas here justify.
use model_lib.Base.{
  ℕ, zero, suc, ◌+◌, ◌-◌, ◌≤◌, ◌<◌, ◌≡◌, ◌⊎◌, refl, arith, Bool, Bool-cases, true, false, inl, inr,
  ◌==◌, ◌&&◌, ltb, leb, if◌then◌else◌, Option, none, some, List, [], ◌∷◌, u8, update, ap, ◌∙◌,
}
use model_lib.Fs.Layout.{Bytes, splice}

-- `for (int i = 0; i < len; i++) pp[i] = c;` with `rounds` left
memset_loop : ℕ → Bytes → ℕ → ℕ → ℕ → Bytes
memset_loop zero m p c i = m
memset_loop (suc rounds) m p c i = memset_loop rounds (update m (p + i) (u8 c)) p c (i + 1)

memset : Bytes → ℕ → ℕ → ℕ → Bytes
unfolding memset_loop
memset m p c len = memset_loop len m p c 0

-- `for (int i = 0; i < n; i++) d[i] = s[i];` with `rounds` left. The two may overlap.
memcpy_loop : ℕ → Bytes → ℕ → ℕ → ℕ → Bytes
memcpy_loop zero m d s i = m
memcpy_loop (suc rounds) m d s i = memcpy_loop rounds (update m (d + i) (m (s + i))) d s (i + 1)

memcpy : Bytes → ℕ → ℕ → ℕ → Bytes
unfolding memcpy_loop
memcpy m d s n = memcpy_loop n m d s 0

-- `strcpy` of the array `s` to `d`
strcpy : Bytes → ℕ → List ℕ → Option Bytes
strcpy m d [] = none
strcpy m d (a ∷ s) =
    let rest = strcpy (update m d a) (d + 1) s in if a == 0 then some (update m d 0) else rest

isalpha : ℕ → Bool
isalpha c = leb 97 c && leb c 122

memset_loop-byte :
    (rounds : ℕ) (m : Bytes) (p c i j : ℕ)
    → memset_loop rounds m p c i j ≡ (if leb (p + i) j && ltb j (p + i + rounds) then u8 c else m j)
unfolding memset_loop
memset_loop-byte zero m p c i j = ground arith
memset_loop-byte (suc rounds) m p c i j =
    memset_loop-byte rounds (update m (p + i) (u8 c)) p c (i + 1) j ∙ ground arith

memset-splice : (m : Bytes) (p c len j : ℕ) → memset m p c len j ≡ splice m p len (λ i. u8 c) j
unfolding memset splice
memset-splice m p c len j = memset_loop-byte len m p c 0 j ∙ ground arith

-- A copy to a lower address, or between ranges that do not overlap, gives the bytes as they were.
module _ (m : Bytes) (d s n : ℕ) (apart : (d ≤ s) ⊎ (s + n ≤ d)) where
  abbrev copied : ℕ → ℕ → ℕ
  copied i j = if leb d j && ltb j (d + i) then m (s + (j - d)) else m j

  source_kept : (i : ℕ) → i < n → copied i (s + i) ≡ m (s + i)
  source_kept i h =
      let miss : (leb d (s + i) && ltb (s + i) (d + i)) ≡ false = elim apart [
        | inl below ↦ ground arith
        | inr behind ↦ ground arith
      ] in
      rw miss refl

  memcpy_loop-byte :
      (rounds i : ℕ) (t : Bytes)
      → i + rounds ≡ n
      → ((j : ℕ) → t j ≡ copied i j)
      → (j : ℕ) → memcpy_loop rounds t d s i j ≡ copied n j
  unfolding memcpy_loop
  memcpy_loop-byte zero i t e same j =
      let all : i ≡ n = omega arith in same j ∙ ap (λ k. copied k j) all
  memcpy_loop-byte (suc rounds) i t e same j =
      memcpy_loop-byte rounds (i + 1) (update t (d + i) (t (s + i))) (omega arith) next j
    where
      next : (j : ℕ) → update t (d + i) (t (s + i)) j ≡ copied (i + 1) j
      next j = elim (Bool-cases (j == d + i)) [
        | inl here ↦
            let hit : (leb d j && ltb j (d + (i + 1))) ≡ true = ground arith in
            let index : s + (j - d) ≡ s + i = ground arith in
            rw (here, hit, index) (same (s + i) ∙ source_kept i (omega arith))
        | inr other ↦
            let test : (leb d j && ltb j (d + (i + 1))) ≡ (leb d j && ltb j (d + i)) =
              ground arith in
            rw (other, test) (same j)
      ]

  memcpy-splice : (j : ℕ) → memcpy m d s n j ≡ splice m d n (λ i. m (s + i)) j
  unfolding memcpy splice
  memcpy-splice j =
      memcpy_loop-byte n 0 m (omega arith)
        (λ i. let none_yet : (leb d i && ltb i (d + 0)) ≡ false = ground arith in rw none_yet refl)
        j
