-- ===== src/Fs/Bitmap/Free.antt =====
-- What `bitmap_free` does to the bitmap.
use model_lib.Base.{
  ℕ, ◌+◌, ◌/◌, ◌%◌, ◌≤◌, ◌<◌, ◌≡◌, ◌≢◌, ◌⊎◌, ap, true, false, ◌==◌, leb, ltb, ◌||◌, if◌then◌else◌,
  u32, update, bit, clear_bit, arith, Bool-cases, ==_refl, Bool, inl, inr, ◌∙◌,
}
use model_lib.Fs.State.{Fs, ok}
use model_lib.Fs.Bitmap.{bitmap_free}
use model_lib.Fs.Bitmap.Alloc.{IsBytes, bit_at}
use model_lib.Fs.Bitmap.Fresh.{bitmap, bit_at-clear_bit}

-- The state after bit `n` is cleared.
abbrev pub cleared : Fs → ℕ → Fs
cleared s n = record s {
  disk =
      update s.disk s.su.sbitmap (update (bitmap s) (n / 8) (clear_bit (bitmap s (n / 8)) (n % 8)));
}

module _ (n : ℕ) (s : Fs) where
  -- Each outcome of a call that returns.
  pub free_cases :
      {r : Bool} {t : Fs}
      → bitmap_free n s ≡ ok r t
      → ((r ≡ false) × (t ≡ s))
        ⊎ ((r ≡ true)
            × (t ≡ cleared s n)
            × (s.su.sdata ≤ n)
            × (n < u32 (s.su.sdata + s.su.nblock_dat))
            × (n < 4096)
            × (bit_at (bitmap s) n ≢ 0))
  unfolding bitmap_free
  free_cases h =
      elim (Bool-cases (ltb n s.su.sdata || leb (u32 (s.su.sdata + s.su.nblock_dat)) n)) [
        | inl outside ↦ inl (ground arith, ground arith)
        | inr inside ↦ elim (Bool-cases (ltb (n / 8) 512)) [
          | inl fits ↦ elim (Bool-cases (bit (bitmap s (n / 8)) (n % 8) == 0)) [
            | inl free ↦ inl (ground arith, ground arith)
            | inr used ↦
                inr (
                  ground arith,
                  ground arith,
                  ground arith,
                  ground arith,
                  ground arith,
                  ground arith,
                )
          ]
          | inr beyond ↦ absurd (ground arith)
        ]
      ]

-- A block of the data section whose bit is set is freed.
pub bitmap_free-ok :
    (n : ℕ) (s : Fs)
    → s.su.sdata ≤ n
    → n < u32 (s.su.sdata + s.su.nblock_dat)
    → n < 4096
    → bit_at (bitmap s) n ≢ 0
    → bitmap_free n s ≡ ok true (cleared s n)
unfolding bitmap_free
bitmap_free-ok n s low high fits used = ground arith

cleared_bits :
    (s : Fs) (n : ℕ)
    → IsBytes (bitmap s)
    → (j : ℕ) → bit_at (bitmap (cleared s n)) j ≡ (if j == n then 0 else bit_at (bitmap s) j)
cleared_bits s n bytes j = rw (==_refl s.su.sbitmap) (bit_at-clear_bit (bitmap s) bytes n j)

-- On a bitmap of bytes: a `bitmap_free` that returns 0 was given a block of the data section whose bit, counted from the
-- start of the disk, was set. It clears that bit, and no other bit and no other block changes. One
-- that returns -1 changes nothing.
pub bitmap_free-clears :
    (n : ℕ) (s : Fs) {r : Bool} {t : Fs}
    → IsBytes (bitmap s)
    → bitmap_free n s ≡ ok r t
    → ((r ≡ false) × (t ≡ s))
      ⊎ ((r ≡ true)
          × (s.su.sdata ≤ n)
          × (n < u32 (s.su.sdata + s.su.nblock_dat))
          × (bit_at (bitmap s) n ≢ 0)
          × ((j : ℕ) → bit_at (bitmap t) j ≡ (if j == n then 0 else bit_at (bitmap s) j))
          × ((m : ℕ) → m ≢ s.su.sbitmap → t.disk m ≡ s.disk m))
bitmap_free-clears n s bytes h = elim (free_cases n s h) [
  | inl same ↦ inl same
  | inr (freed, state, low, high, fits, used) ↦ inr (
    freed,
    low,
    high,
    used,
    λ j. rw state (cleared_bits s n bytes j),
    λ m ne. rw state (ground arith),
  )
]

-- On a bitmap of bytes, in a file system whose data section does not start at block 0: a
-- `bitmap_free` of block `sdata + k`, the block that `bitmap_alloc` hands out for bit `k`, leaves
-- bit `k` as it was if it returns.
pub bitmap_free-misses :
    (k : ℕ) (s : Fs) {r : Bool} {t : Fs}
    → IsBytes (bitmap s)
    → 0 < s.su.sdata
    → bitmap_free (s.su.sdata + k) s ≡ ok r t
    → bit_at (bitmap t) k ≡ bit_at (bitmap s) k
bitmap_free-misses k s bytes pos h = elim (free_cases (s.su.sdata + k) s h) [
  | inl (_, same) ↦ ap (λ x. bit_at (bitmap x) k) same
  | inr (_, state, _, _, _, _) ↦
      let apart : (k == s.su.sdata + k) ≡ false = ground arith in
      rw state (cleared_bits s (s.su.sdata + k) bytes k ∙ rw apart)
]
