-- ===== src/Fs/Rw/Allocate/Tests.antt =====
-- A run of `fs_write` across the end of the only block of a file.
use model_lib.Base.{
  ℕ, zero, suc, ◌+◌, ◌-◌, ◌/◌, ◌%◌, ◌<◌, ◌≡◌, ◌≢◌, refl, arith, ◌==◌, ltb, if◌then◌else◌, ◌∙◌, true,
  false, some, Bool-cases, inl, inr, sym,
}
use mathlib.Core.Path.{subst}
use model_lib.Fs.Layout.{Bytes, Dinode, zeros, put_inode}
use model_lib.Fs.Layout.Views.{SameInode, Fits, get_inode-put_inode_self}
use model_lib.Fs.State.{Fs, ok}
use model_lib.Fs.Samples.{super}
use model_lib.Fs.Inode.{get_ilevel}
use model_lib.Fs.Inode.Access.{inode_at, Mounted}
use model_lib.Fs.Rw.{fs_write}
use model_lib.Fs.Rw.View.{file_block, block_of}
use model_lib.Fs.Rw.Read.{AllBytes}
use model_lib.Fs.Rw.Kept.{Pointers, file_block-ptrs}
use model_lib.Fs.Rw.Vacant.{Vacant}
use model_lib.Fs.Bitmap.Alloc.{bit_at}
use model_lib.Fs.Bitmap.Fresh.{bitmap}
use model_lib.Fs.Rw.FileWrite.{put_inode-bytes}
use model_lib.Fs.Rw.Grows.{Used, Grows, Grown}
use model_lib.Fs.Rw.Allocate.{fs_write-Grown}

-- Inode 1 has the data block 60. The bitmap says that the blocks 57 to 60 are in use.
abbrev one_block : Dinode
one_block = record {
  type = 1;
  major = 0;
  minor = 0;
  linkcnt = 1;
  size = 512;
  ptrs = λ i. if i == 0 then 60 else 0;
}

abbrev growing : Fs
growing = record {
  init = true;
  su = super;
  disk = λ n.
      if n == 31
      then put_inode zeros 1 one_block
      else if n == 56
      then (λ i. if i == 0 then 15 else 0)
      else if n == 61
      then (λ i. 9)
      else zeros;
}

growing-Mounted : Mounted growing
growing-Mounted = record { init = refl; no_wrap = omega arith }

growing-AllBytes : AllBytes growing
growing-AllBytes n i = elim (Bool-cases (n == 31)) [
  | inl hit ↦ rw hit (put_inode-bytes zeros 1 one_block (λ _. omega arith) i)
  | inr miss ↦ rw miss (ground arith)
]

one_block-Fits : Fits one_block
one_block-Fits = record {
  type = omega arith;
  major = omega arith;
  minor = omega arith;
  linkcnt = omega arith;
  size = omega arith;
  ptrs = λ i h. ground arith;
}

inode : SameInode (inode_at growing 1) one_block
inode = get_inode-put_inode_self zeros 1 one_block one_block-Fits

file_lem :
    (k : ℕ) → k < 16650 → file_block growing (inode_at growing 1) k ≡ (if k == 0 then 60 else 0)
unfolding file_block block_of
file_lem k h =
    file_block-ptrs growing (inode_at growing 1) one_block k h (λ i hi. inode.ptrs i hi) ∙ own
  where
    own : file_block growing one_block k ≡ (if k == 0 then 60 else 0)
    own = elim (Bool-cases (ltb k 10)) [
      | inl direct ↦ rw direct
      | inr far ↦
          let other : (k == 0) ≡ false = ground arith in
          elim (Bool-cases (ltb k 266)) [
            | inl single ↦
                let null : (10 + (k - 10) / 128 == 0) ≡ false = ground arith in
                rw (far, single, other, null) refl
            | inr double ↦ rw (far, double, other) refl
          ]
    ]

module _ (P : ℕ → Type 0) where
  null_tree : (l : ℕ) → Pointers growing P l 0
  unfolding Pointers
  null_tree zero = tt
  null_tree (suc l) = λ ne. absurd (ne refl)

  trees : (i : ℕ) → i < 13 → Pointers growing P (get_ilevel i) (one_block.ptrs i)
  unfolding Pointers get_ilevel
  trees zero h = tt
  trees (suc i) h =
      let other : (suc i == 0) ≡ false = ground arith in rw other (null_tree (get_ilevel (suc i)))

set_bits : (j : ℕ) → j < 4 → bit_at (bitmap growing) j ≡ 1
set_bits zero h = refl
set_bits (suc zero) h = refl
set_bits (suc (suc zero)) h = refl
set_bits (suc (suc (suc zero))) h = refl
set_bits (suc (suc (suc (suc j)))) h = absurd (omega arith)

vacant : Vacant growing 4
vacant = record {
  bytes = λ i. growing-AllBytes 56 i;
  covered = omega arith;
  in_range = omega arith;
  clear = refl;
  least = set_bits;
}

abbrev five : Bytes
five i = i % 5

block_60 : Used growing 60
block_60 = record { low = omega arith; set = refl }

used :
    (j : ℕ)
    → j < 16650
    → file_block growing (inode_at growing 1) j ≢ 0
    → Used growing (file_block growing (inode_at growing 1) j)
used j h ne = elim (Bool-cases (j == 0)) [
  | inl first ↦
      let e : file_block growing (inode_at growing 1) j ≡ 60 = file_lem j h ∙ rw first refl in
      subst (Used growing) (sym e) block_60
  | inr other ↦ absurd (ne (file_lem j h ∙ rw other refl))
]

grows : Grows growing 1 five 5 510 1 4
grows = record {
  direct = omega arith;
  in_range = record { low = omega arith; high = omega arith };
  null = file_lem 1 (omega arith);
  vacant = vacant;
  no_wrap = omega arith;
  inode_low = omega arith;
  inode_high = omega arith;
  bitmap_high = omega arith;
  present = λ j h ne. rw (file_lem j (omega (arith, h.high))) (ground (arith, h.high));
  apart = λ i j h ni hj ne.
      rw (file_lem i (omega (arith, h.high)), file_lem j hj) (ground (arith, h.high));
  used = used;
  pointers = λ i hi. rw (inode.ptrs i hi) (trees _ i hi);
}

fs_write-Grown_example :
    (u : Fs) × (fs_write 1 five 5 510 growing ≡ ok (some (5, five)) u)
    × Grown growing 1 five 5 510 1 4 u
fs_write-Grown_example =
    fs_write-Grown growing 1 five 5 510 1 4 growing-Mounted growing-AllBytes (omega arith)
      (omega arith) (λ i. omega arith) grows
