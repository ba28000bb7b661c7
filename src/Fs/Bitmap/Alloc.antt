-- ===== src/Fs/Bitmap/Alloc.antt =====
-- What `bitmap_alloc` does to the bitmap: the lowest clear bit is taken, and nothing else changes.
use model_lib.Base.{
  ℕ, zero, suc, ◌+◌, ◌*◌, ◌/◌, ◌%◌, ◌≤◌, ◌<◌, ◌≡◌, ◌≢◌, ◌⊎◌, refl, true, false, ◌==◌, ltb, u32,
  update, bit, set_bit, arith, Bool-cases, all_under, all_under_sound, ==_iff, ltb→lt, Bool, inl,
  inr, ◌&&◌,
}
use native.Mathlib.Numerals.{add-one}
use model_lib.Fs.Layout.{Block}
use model_lib.Fs.State.{Fs, Run, ok}
use model_lib.Fs.Bitmap.{first_zero, take_bit, alloc_loop, bitmap_alloc}

-- Every cell of the block holds a byte.
abbrev pub IsBytes : Block → Type 0
IsBytes b = (i : ℕ) → b i < 256

-- Bit `k` of a block.
abbrev pub bit_at : Block → ℕ → ℕ
bit_at b k = bit (b (k / 8)) (k % 8)

-- `off` is the lowest clear bit of the byte `x`.
abbrev is_lowest : ℕ → ℕ → Bool
is_lowest x off = ltb off 8 && (bit x off == 0) && all_under off (λ j. bit x j == 1)

lowest_table : all_under 255 (λ x. is_lowest x (first_zero 8 x 0)) ≡ true
unfolding all_under first_zero
lowest_table = refl

first_zero-lowest : (x : ℕ) → x < 255 → is_lowest x (first_zero 8 x 0) ≡ true
first_zero-lowest x h = all_under_sound 255 _ x lowest_table h

module _ (x : ℕ) (h : x < 255) where
  first_zero-lt : first_zero 8 x 0 < 8
  first_zero-lt = ground (arith, first_zero-lowest x h)

  first_zero-clear : bit x (first_zero 8 x 0) ≡ 0
  first_zero-clear = ground (arith, first_zero-lowest x h)

  first_zero-below : all_under (first_zero 8 x 0) (λ j. bit x j == 1) ≡ true
  first_zero-below = ground (arith, first_zero-lowest x h)

  first_zero-least : (j : ℕ) → j < first_zero 8 x 0 → bit x j ≡ 1
  first_zero-least j hj = (==_iff _ _).0 (all_under_sound _ _ j first_zero-below hj)

full_table : all_under 8 (λ j. bit 255 j == 1) ≡ true
unfolding all_under
full_table = refl

bit_full : (j : ℕ) → j < 8 → bit 255 j ≡ 1
bit_full j h = (==_iff _ _).0 (all_under_sound 8 _ j full_table h)

-- The outcome of an allocation that starts in state `s` with the bitmap block `b`: the bit `k` is
-- the lowest clear one, and is set; or all bits up to `limit` are set and nothing happens.
pub record Taken (s : Fs) (b : Block) (k : ℕ) (r : Run ℕ) : Type 0 where
  pub in_range : k < s.su.nblock_dat / 8 * 8
  pub clear : bit_at b k ≡ 0
  pub least : (j : ℕ) → j < k → bit_at b j ≡ 1
  pub result :
      r
      ≡ ok (u32 (k + s.su.sdata)) (record s {
        disk = update s.disk s.su.sbitmap (update b (k / 8) (set_bit (b (k / 8)) (k % 8)));
      })

pub record Full (s : Fs) (b : Block) (r : Run ℕ) : Type 0 where
  pub full : (j : ℕ) → j < s.su.nblock_dat / 8 * 8 → bit_at b j ≡ 1
  pub result : r ≡ ok 0 s

abbrev pub Allocated : Fs → Block → Run ℕ → Type 0
Allocated s b r = ((k : ℕ) × Taken s b k r) ⊎ Full s b r

module _ (s : Fs) (b : Block) (bytes : IsBytes b) where
  lt_255 : (i : ℕ) → b i ≢ 255 → b i < 255
  lt_255 i ne = omega (arith, bytes i)

  take_bit-Taken :
      (i : ℕ)
      → b i ≢ 255
      → i < s.su.nblock_dat / 8
      → ((j : ℕ) → j < i * 8 → bit_at b j ≡ 1)
      → (k : ℕ) × Taken s b k (take_bit b i s)
  unfolding take_bit
  take_bit-Taken i ne hi below = (
    off + i * 8,
    record {
      in_range = omega (arith, small);
      clear = rw (div, rem) (first_zero-clear (b i) (lt_255 i ne));
      least = λ j hj. elim (Bool-cases (ltb j (i * 8))) [
        | inl lo ↦ below j (ltb→lt _ _ lo)
        | inr hi ↦
            rw (quotient j hj hi) (first_zero-least (b i) (lt_255 i ne) (j % 8) (ground arith))
      ];
      result = rw (div, rem) (ground (arith, small));
    },
  )
    where
      off : ℕ
      off = first_zero 8 (b i) 0

      small : off < 8
      small = first_zero-lt (b i) (lt_255 i ne)

      div : (off + i * 8) / 8 ≡ i
      div = omega (arith, small)

      rem : (off + i * 8) % 8 ≡ off
      rem = omega (arith, small)

      quotient : (j : ℕ) → j < off + i * 8 → ltb j (i * 8) ≡ false → j / 8 ≡ i
      quotient j hj hi = ground (arith, small)

  -- A full byte adds eight set bits.
  below_next :
      (i : ℕ)
      → b i ≡ 255
      → ((j : ℕ) → j < i * 8 → bit_at b j ≡ 1)
      → (j : ℕ) → j < suc i * 8
      → bit_at b j ≡ 1
  below_next i e below j hj = elim (Bool-cases (ltb j (i * 8))) [
    | inl lo ↦ below j (ltb→lt _ _ lo)
    | inr hi ↦ let q : j / 8 ≡ i = ground arith in rw (q, e) (bit_full (j % 8) (omega arith))
  ]

  alloc_loop-Allocated :
      (rounds i : ℕ)
      → rounds + i ≡ s.su.nblock_dat / 8
      → s.su.nblock_dat ≤ 4096
      → ((j : ℕ) → j < i * 8 → bit_at b j ≡ 1)
      → Allocated s b (alloc_loop rounds b i s)
  unfolding alloc_loop
  alloc_loop-Allocated zero i e small below =
      inr (record { full = λ j hj. below j (omega arith); result = refl })
  alloc_loop-Allocated (suc rounds) i e small below = rw inside (elim (Bool-cases (b i == 255)) [
    | inl hit ↦ rw hit (
        alloc_loop-Allocated rounds (i + 1) (omega arith) small
          (rw add-one (below_next i ((==_iff _ _).0 hit) below)))
    | inr miss ↦ rw miss (inl (take_bit-Taken i (λ e. ground arith) (omega arith) below))
  ])
    where
      inside : ltb i 512 ≡ true
      inside = ground arith

-- `bitmap_alloc` on a bitmap block that covers the data blocks returns. It takes the lowest clear
-- bit among the whole bytes of the bitmap and sets it, touching no other bit and no other block, and
-- returns the number of the data block; or all those bits are set, it returns 0 and changes nothing.
pub bitmap_alloc-Allocated :
    (s : Fs)
    → IsBytes (s.disk s.su.sbitmap)
    → s.su.nblock_dat ≤ 4096
    → Allocated s (s.disk s.su.sbitmap) (bitmap_alloc s)
unfolding bitmap_alloc
bitmap_alloc-Allocated s bytes small =
    alloc_loop-Allocated s _ bytes (s.su.nblock_dat / 8) 0 (omega arith) small
      (λ j hj. absurd (omega arith))
