-- ===== src/Fs/Rw/View.antt =====
-- What a file holds: the data block behind each block offset, and the byte at each offset. This is
-- the reading of the pointer tree that kernel/include/fs.h describes, with no traversal state.
use model_lib.Base.{
  ℕ, zero, suc, ◌+◌, ◌-◌, ◌*◌, ◌/◌, ◌%◌, ◌≤◌, ◌<◌, ◌≡◌, refl, arith, ◌==◌, ltb, leb, if◌then◌else◌,
  true, false, Bool-cases, ◌⊎◌, inl, inr, ltb→lt,
}
use model_lib.Fs.Layout.{Dinode, get_u32}
use model_lib.Fs.State.{Fs}
use model_lib.Fs.Inode.{get_ilevel}
use model_lib.Fs.Rw.{span}

-- The data block number `k` below the pointer `p` of a level; 0 for a hole.
unfoldable pub block_of : Fs → ℕ → ℕ → ℕ → ℕ
block_of s zero p k = p
block_of s (suc l) p k =
    if p == 0 then 0 else block_of s l (get_u32 (s.disk p) (4 * (k / span l))) (k % span l)

-- The data block number `n` of a file.
unfoldable pub file_block : Fs → Dinode → ℕ → ℕ
unfolding block_of
file_block s di n =
    if ltb n 10
    then di.ptrs n
    else if ltb n 266
    then block_of s 1 (di.ptrs (10 + (n - 10) / 128)) ((n - 10) % 128)
    else block_of s 2 (di.ptrs 12) (n - 266)

-- The byte at offset `o` of a file with a given block map.
abbrev pub byte_at : Fs → (ℕ → ℕ) → ℕ → ℕ
byte_at s file o = if file (o / 512) == 0 then 0 else s.disk (file (o / 512)) (o % 512)

abbrev pub content : Fs → Dinode → ℕ → ℕ
content s di = byte_at s (file_block s di)

-- The first block offset behind pointer `i` of an inode.
abbrev pub base : ℕ → ℕ
base i = if leb i 10 then i else if i == 11 then 138 else if i == 12 then 266 else 16650

abbrev pub max_blocks : ℕ
max_blocks = 16650

pub span-suc : (l : ℕ) → l < 2 → span (suc l) ≡ 128 * span l
unfolding span
span-suc zero h = refl
span-suc (suc zero) h = refl
span-suc (suc (suc l)) h = absurd (omega arith)

pub span-le : (l : ℕ) → span l ≤ 16384
unfolding span
span-le zero = omega arith
span-le (suc zero) = omega arith
span-le (suc (suc zero)) = omega arith
span-le (suc (suc (suc l))) = omega arith

pub block_of_zero : (s : Fs) (l k : ℕ) → block_of s l 0 k ≡ 0
unfolding block_of
block_of_zero s zero k = refl
block_of_zero s (suc l) k = refl

pub span_pos : (l : ℕ) → l ≤ 2 → 1 ≤ span l
unfolding span
span_pos zero h = omega arith
span_pos (suc zero) h = omega arith
span_pos (suc (suc zero)) h = omega arith
span_pos (suc (suc (suc l))) h = absurd (omega arith)

-- Block `k` below child `i` is block `i * span l + k` below the parent.
pub block_of_child :
    (s : Fs) (l p i k : ℕ)
    → l < 2
    → k < span l
    → (p == 0) ≡ false
    → block_of s (suc l) p (i * span l + k) ≡ block_of s l (get_u32 (s.disk p) (4 * i)) k
unfolding block_of span
block_of_child s zero p i k h hk ne = let q : (i * 1 + k) / 1 ≡ i = omega arith in rw (ne, q)
block_of_child s (suc zero) p i k h hk ne =
    let q : (i * 128 + k) / 128 ≡ i = omega arith in
    let r : (i * 128 + k) % 128 ≡ k = omega arith in rw (ne, q, r)
block_of_child s (suc (suc l)) p i k h hk ne = absurd (omega arith)

pub base_next : (i : ℕ) → i < 13 → base (i + 1) ≡ base i + span (get_ilevel i)
unfolding get_ilevel span
base_next i h = elim (Bool-cases (ltb i 10)) [
  | inl lo ↦ rw lo (ground arith)
  | inr hi ↦ elim (Bool-cases (ltb i 12)) [
    | inl lo ↦ rw (hi, lo) (ground arith)
    | inr up ↦ rw (hi, up) (ground arith)
  ]
]

module _ (s : Fs) (di : Dinode) where
  direct : (i k : ℕ) → i < 10 → k < 1 → file_block s di (i + k) ≡ di.ptrs i
  unfolding file_block
  direct i k h hk =
      let e : i + k ≡ i = omega arith in let lo : ltb i 10 ≡ true = ground arith in rw (e, lo)

  single :
      (i k : ℕ)
      → (i ≡ 10) ⊎ (i ≡ 11)
      → k < 128
      → file_block s di (10 + (i - 10) * 128 + k) ≡ block_of s 1 (di.ptrs i) k
  unfolding file_block
  single i k h hk =
      let lo : ltb (10 + (i - 10) * 128 + k) 10 ≡ false = ground arith in
      let hi : ltb (10 + (i - 10) * 128 + k) 266 ≡ true = ground arith in
      let q : 10 + (10 + (i - 10) * 128 + k - 10) / 128 ≡ i = omega arith in
      let r : (10 + (i - 10) * 128 + k - 10) % 128 ≡ k = omega arith in rw (lo, hi) (rw (q, r))

  double : (k : ℕ) → file_block s di (266 + k) ≡ block_of s 2 (di.ptrs 12) k
  unfolding file_block
  double k =
      let lo : ltb (266 + k) 10 ≡ false = ground arith in
      let hi : ltb (266 + k) 266 ≡ false = ground arith in
      let q : 266 + k - 266 ≡ k = omega arith in rw (lo, hi) (rw q)

  -- Pointer `i` of the inode covers the blocks from `base i` on.
  pub file_block-base :
      (i k : ℕ)
      → i < 13
      → k < span (get_ilevel i)
      → file_block s di (base i + k) ≡ block_of s (get_ilevel i) (di.ptrs i) k
  unfolding get_ilevel span block_of
  file_block-base i k h hk = elim (Bool-cases (ltb i 10)) [
    | inl lo ↦
        let b : base i ≡ i = ground arith in
        let e : k < 1 = rw lo at hk in rw (lo, b) (direct i k (ltb→lt _ _ lo) e)
    | inr hi ↦ elim (Bool-cases (ltb i 12)) [
      | inl lo ↦
          let b : base i ≡ 10 + (i - 10) * 128 = ground arith in
          let e : k < 128 = rw (hi, lo) at hk in rw (hi, lo, b) (single i k (ground arith) e)
      | inr up ↦
          let b : base i ≡ 266 = ground arith in
          let t : i ≡ 12 = ground arith in rw (hi, up, b, t) (double k)
    ]
  ]
