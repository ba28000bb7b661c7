-- ===== src/Fs/Bitmap/Fresh.antt =====
-- Consecutive calls of `bitmap_alloc`, and the bits that a change of one byte leaves alone.
use model_lib.Base.{
  ℕ, ◌+◌, ◌/◌, ◌%◌, ◌^◌, ◌≤◌, ◌<◌, ◌≡◌, ◌≢◌, ap, false, ◌==◌, if◌then◌else◌, update, bit, set_bit,
  clear_bit, bit-set_bit, bit-clear_bit, arith, Bool-cases, ==_iff, ==_refl, inl, inr, ◌∙◌,
  set_bit-lt,
}
use model_lib.Fs.Layout.{Block, Superblock}
use model_lib.Fs.State.{Fs, Run, ok}
use model_lib.Fs.Bitmap.{bitmap_alloc}
use model_lib.Fs.Bitmap.Alloc.{IsBytes, bit_at, Taken, Allocated, bitmap_alloc-Allocated}

-- Replacing the byte of bit `k` by one that differs from it in that bit alone.
bit_at-update :
    (b : Block) (k x v : ℕ)
    → ((j : ℕ) → j < 8 → bit x j ≡ (if j == k % 8 then v else bit (b (k / 8)) j))
    → (j : ℕ) → bit_at (update b (k / 8) x) j ≡ (if j == k then v else bit_at b j)
bit_at-update b k x v h j = elim (Bool-cases (j / 8 == k / 8)) [
  | inl here ↦
      let e : j / 8 ≡ k / 8 = (==_iff _ _).0 here in
      let same : (j % 8 == k % 8) ≡ (j == k) = ground arith in
      rw here (rw (h (j % 8) (omega arith), same) (rw e))
  | inr away ↦ let other : (j == k) ≡ false = ground arith in rw (away, other)
]

module _ (b : Block) (bytes : IsBytes b) (k : ℕ) where
  pub bit_at-set_bit :
      (j : ℕ)
      → bit_at (update b (k / 8) (set_bit (b (k / 8)) (k % 8))) j
        ≡ (if j == k then 1 else bit_at b j)
  bit_at-set_bit =
      bit_at-update b k _ 1 (bit-set_bit (b (k / 8)) (k % 8) (bytes (k / 8)) (omega arith))

  pub bit_at-clear_bit :
      (j : ℕ)
      → bit_at (update b (k / 8) (clear_bit (b (k / 8)) (k % 8))) j
        ≡ (if j == k then 0 else bit_at b j)
  bit_at-clear_bit =
      bit_at-update b k _ 0 (bit-clear_bit (b (k / 8)) (k % 8) (bytes (k / 8)) (omega arith))

  pub set_bit-IsBytes : IsBytes (update b (k / 8) (set_bit (b (k / 8)) (k % 8)))
  set_bit-IsBytes i =
      ground (arith, bytes i, set_bit-lt (b (k / 8)) (k % 8) (bytes (k / 8)) (omega arith))

-- The bitmap block of a state.
abbrev pub bitmap : Fs → Block
bitmap s = s.disk s.su.sbitmap

pub ok-injective :
    {A : Type 0} {a b : A} {s t : Fs} → ◌≡◌ {A = Run A} (ok a s) (ok b t) → (a ≡ b) × (s ≡ t)
ok-injective h = (cc, cc)

-- What an allocation that took bit `k` leaves behind.
Taken-effect :
    (s : Fs) {t : Fs} {n k : ℕ}
    → IsBytes (bitmap s)
    → s.su.sdata + s.su.nblock_dat < 2 ^ 32
    → Taken s (bitmap s) k (ok n t)
    → (n ≡ s.su.sdata + k)
      × (t.su ≡ s.su)
      × IsBytes (bitmap t)
      × ((j : ℕ) → bit_at (bitmap t) j ≡ (if j == k then 1 else bit_at (bitmap s) j))
Taken-effect s {t} {n} {k} bytes small a = (
  omega (arith, (ok-injective a.result).0, a.in_range),
  ap (λ (x : Fs). x.su) state,
  rw bits (set_bit-IsBytes (bitmap s) bytes k),
  rw bits (bit_at-set_bit (bitmap s) bytes k),
)
  where
    state : t ≡ record s {
      disk =
          update s.disk s.su.sbitmap
            (update (bitmap s) (k / 8) (set_bit (bitmap s (k / 8)) (k % 8)));
    }
    state = (ok-injective a.result).1

    bits : bitmap t ≡ update (bitmap s) (k / 8) (set_bit (bitmap s (k / 8)) (k % 8))
    bits = ap bitmap state ∙ rw (==_refl s.su.sbitmap)

-- An allocation that returns other than 0 took a bit.
Allocated-Taken :
    {s t : Fs} {b : Block} {n : ℕ} → Allocated s b (ok n t) → n ≢ 0 → (k : ℕ) × Taken s b k (ok n t)
Allocated-Taken (inl h) ne = h
Allocated-Taken (inr h) ne = absurd (ne (ok-injective h.result).0)

module _ (s : Fs) {t : Fs} {n : ℕ} (bytes : IsBytes (bitmap s)) (covered : s.su.nblock_dat ≤ 4096)
    (small : s.su.sdata + s.su.nblock_dat < 2 ^ 32) (first : bitmap_alloc s ≡ ok n t)
    (got : n ≢ 0) where
  bitmap_alloc-Taken : (k : ℕ) × Taken s (bitmap s) k (ok n t)
  bitmap_alloc-Taken = Allocated-Taken (rw first at (bitmap_alloc-Allocated s bytes covered)) got

  -- With a bitmap block that covers the data section, whose block numbers do not wrap: a block that
  -- `bitmap_alloc` hands out lies in the data section, and the next call that succeeds
  -- hands out another one.
  pub bitmap_alloc-fresh :
      {u : Fs} {m : ℕ}
      → bitmap_alloc t ≡ ok m u
      → m ≢ 0
      → (s.su.sdata ≤ n) × (n < s.su.sdata + s.su.nblock_dat) × (n ≢ m)
  bitmap_alloc-fresh {u} {m} second got' = (
    omega (arith, effect.0),
    omega (arith, effect.0, a.in_range),
    λ same. ground (
      arith,
      effect.0,
      effect'.0,
      effect.1,
      effect.3 l,
      b.clear,
      ap (λ (x : Superblock). x.sdata) effect.1,
    ),
  )
    where
      k : ℕ
      k = bitmap_alloc-Taken.0

      a : Taken s (bitmap s) k (ok n t)
      a = bitmap_alloc-Taken.1

      effect :
          (n ≡ s.su.sdata + k)
          × (t.su ≡ s.su)
          × IsBytes (bitmap t)
          × ((j : ℕ) → bit_at (bitmap t) j ≡ (if j == k then 1 else bit_at (bitmap s) j))
      effect = Taken-effect s bytes small a

      covered' : t.su.nblock_dat ≤ 4096
      covered' = rw effect.1 covered

      small' : t.su.sdata + t.su.nblock_dat < 2 ^ 32
      small' = rw effect.1 small

      next : (l : ℕ) × Taken t (bitmap t) l (ok m u)
      next = Allocated-Taken (rw second at (bitmap_alloc-Allocated t effect.2 covered')) got'

      l : ℕ
      l = next.0

      b : Taken t (bitmap t) l (ok m u)
      b = next.1

      effect' :
          (m ≡ t.su.sdata + l)
          × (u.su ≡ t.su)
          × IsBytes (bitmap u)
          × ((j : ℕ) → bit_at (bitmap u) j ≡ (if j == l then 1 else bit_at (bitmap t) j))
      effect' = Taken-effect t effect.2 small' b
