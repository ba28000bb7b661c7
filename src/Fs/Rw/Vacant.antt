-- ===== src/Fs/Rw/Vacant.antt =====
-- The bit that an allocation takes, and that a write to another block leaves it to be taken.
use model_lib.Base.{
  ℕ, ◌+◌, ◌*◌, ◌/◌, ◌%◌, ◌≤◌, ◌<◌, ◌≡◌, ◌≢◌, refl, arith, ltb, ◌==◌, u32, false, Bool-cases, inl,
  inr, ap, fun_ext, update, set_bit, ==_iff,
}
use mathlib.Core.Path.{subst}
use model_lib.Fs.State.{Fs, ok}
use model_lib.Fs.Bitmap.{bitmap_alloc}
use model_lib.Fs.Bitmap.Alloc.{IsBytes, bit_at, bitmap_alloc-Allocated}
use model_lib.Fs.Bitmap.Fresh.{bitmap}
use model_lib.Fs.Rw.{Share, store}

-- Bit `c` of the bitmap is the first that is clear, and the bitmap covers the data section.
pub record Vacant (s : Fs) (c : ℕ) : Type 0 where
  pub bytes : IsBytes (bitmap s)
  pub covered : s.su.nblock_dat ≤ 4096
  pub in_range : c < s.su.nblock_dat / 8 * 8
  pub clear : bit_at (bitmap s) c ≡ 0
  pub least : (j : ℕ) → j < c → bit_at (bitmap s) j ≡ 1

-- With bit `c` set.
abbrev pub marked : Fs → ℕ → Fs
marked s c = record s {
  disk =
      update s.disk s.su.sbitmap (update (bitmap s) (c / 8) (set_bit (bitmap s (c / 8)) (c % 8)));
}

-- The block of bit `c`.
abbrev pub block_at : Fs → ℕ → ℕ
block_at s c = u32 (c + s.su.sdata)

pub bitmap_alloc-marked :
    (s : Fs) (c : ℕ) → Vacant s c → bitmap_alloc s ≡ ok (block_at s c) (marked s c)
bitmap_alloc-marked s c v = elim (bitmap_alloc-Allocated s v.bytes v.covered) [
  | inl (k, a) ↦
      let same : k ≡ c = elim (Bool-cases (ltb k c)) [
        | inl before ↦ absurd (ground (arith, v.least k (ground arith), a.clear))
        | inr behind ↦ elim (Bool-cases (ltb c k)) [
          | inl lower ↦ absurd (ground (arith, a.least c (ground arith), v.clear))
          | inr e ↦ ground arith
        ]
      ] in
      subst (λ n. bitmap_alloc s ≡ ok (block_at s n) (marked s n)) same a.result
  | inr f ↦ absurd (ground (arith, f.full c v.in_range, v.clear))
]

-- The state after block `q` is written by a transfer.
abbrev pub stored : Fs → ℕ → Share → Fs
stored t q sa = record t { disk = update t.disk q (store sa (t.disk q)) }

pub stored-bitmap :
    (t : Fs) (q : ℕ) (sa : Share) → q ≢ t.su.sbitmap → bitmap (stored t q sa) ≡ bitmap t
stored-bitmap t q sa ne = let miss : (t.su.sbitmap == q) ≡ false = ground arith in rw miss refl

pub stored-Vacant :
    (t : Fs) (q c : ℕ) (sa : Share) → q ≢ t.su.sbitmap → Vacant t c → Vacant (stored t q sa) c
stored-Vacant t q c sa ne v =
    let same = stored-bitmap t q sa ne in
    record {
      bytes = rw same v.bytes;
      covered = v.covered;
      in_range = v.in_range;
      clear = rw same v.clear;
      least = rw same v.least;
    }

-- The two writes are to different blocks.
pub stored-marked :
    (t : Fs) (q c : ℕ) (sa : Share)
    → q ≢ t.su.sbitmap
    → stored (marked t c) q sa ≡ marked (stored t q sa) c
stored-marked t q c sa ne =
    let miss : (q == t.su.sbitmap) ≡ false = ground arith in
    rw (miss, stored-bitmap t q sa ne)
      (ap (λ d. record t { disk = d })
        (fun_ext λ m. elim (Bool-cases (m == q)) [
          | inl hit ↦
              let e : m ≡ q = (==_iff _ _).0 hit in
              let other : (m == t.su.sbitmap) ≡ false = ground arith in rw (hit, other)
          | inr other ↦ rw other
        ]))
