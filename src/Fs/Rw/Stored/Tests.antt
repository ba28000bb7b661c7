-- ===== src/Fs/Rw/Stored/Tests.antt =====
-- A run of `fs_write`, across the end of a block, and the `fs_read` of what it wrote.
use model_lib.Base.{
  ℕ, zero, suc, ◌+◌, ◌-◌, ◌/◌, ◌%◌, ◌<◌, ◌≡◌, ◌≢◌, refl, arith, ◌==◌, ltb, if◌then◌else◌, ◌∙◌, true,
  false, some, Bool-cases, inl, inr,
}
use model_lib.Fs.Layout.{Bytes, Dinode, zeros, put_inode, splice, dinode_byte}
use model_lib.Fs.Layout.Views.{SameInode, Fits, get_inode-put_inode_self}
use model_lib.Fs.State.{Fs, ok}
use model_lib.Fs.Samples.{super}
use model_lib.Fs.Inode.{get_ilevel}
use model_lib.Fs.Inode.Access.{inode_at, Mounted}
use model_lib.Fs.Rw.{fs_write, fs_read}
use model_lib.Fs.Rw.View.{file_block, block_of}
use model_lib.Fs.Rw.Read.{AllBytes}
use model_lib.Fs.Rw.Kept.{Pointers, file_block-ptrs}
use model_lib.Fs.Rw.Written.{InRange}
use model_lib.Fs.Rw.Room.{Room, Stored, asked}
use model_lib.Fs.Rw.Stored.{fs_write-content, fs_write-fs_read}

-- Inode 1 has the data blocks 60 to 69, and the blocks 70 to 72 of null pointers.
abbrev ten_blocks : Dinode
ten_blocks = record { type = 1; major = 0; minor = 0; linkcnt = 1; size = 3; ptrs = λ i. 60 + i }

abbrev one_inode : Fs
one_inode = record {
  init = true;
  su = super;
  disk = λ n. if n == 31 then put_inode zeros 1 ten_blocks else zeros;
}

one_inode-Mounted : Mounted one_inode
one_inode-Mounted = record { init = refl; no_wrap = omega arith }

one_inode-AllBytes : AllBytes one_inode
unfolding put_inode splice dinode_byte
one_inode-AllBytes n i = ground arith

ten_blocks-Fits : Fits ten_blocks
ten_blocks-Fits = record {
  type = omega arith;
  major = omega arith;
  minor = omega arith;
  linkcnt = omega arith;
  size = omega arith;
  ptrs = λ i h. omega (arith, h);
}

inode : SameInode (inode_at one_inode 1) ten_blocks
inode = get_inode-put_inode_self zeros 1 ten_blocks ten_blocks-Fits

null_below : (p k : ℕ) → p ≢ 31 → block_of one_inode 1 p k ≡ 0
unfolding block_of
null_below p k ne = elim (Bool-cases (p == 0)) [
  | inl null ↦ rw null
  | inr there ↦ let other : (p == 31) ≡ false = ground arith in rw (there, other)
]

file_lem :
    (k : ℕ)
    → k < 16650
    → file_block one_inode (inode_at one_inode 1) k ≡ (if ltb k 10 then 60 + k else 0)
unfolding file_block block_of
file_lem k h =
    file_block-ptrs one_inode (inode_at one_inode 1) ten_blocks k h (λ i hi. inode.ptrs i hi) ∙ own
  where
    own : file_block one_inode ten_blocks k ≡ (if ltb k 10 then 60 + k else 0)
    own = elim (Bool-cases (ltb k 10)) [
      | inl direct ↦ rw direct
      | inr far ↦ elim (Bool-cases (ltb k 266)) [
        | inl single ↦
            rw (far, single)
              (null_below (60 + (10 + (k - 10) / 128)) ((k - 10) % 128) (ground arith))
        | inr double ↦ rw (far, double)
      ]
    ]

-- The request enters the blocks 0 and 1.
abbrev five : Bytes
five i = i % 5

abbrev Away : ℕ → Type 0
Away p =
    (31 ≢ p)
    × ((k : ℕ)
        → InRange (asked one_inode 1 five 5 510) k
        → file_block one_inode (inode_at one_inode 1) k ≢ p)

null_tree : (l : ℕ) → Pointers one_inode Away l 0
unfolding Pointers
null_tree zero = tt
null_tree (suc l) = λ ne. absurd (ne refl)

tree : (l p : ℕ) → 61 < p → Pointers one_inode Away l p
unfolding Pointers
tree zero p h = tt
tree (suc l) p h = λ ne. (
  (omega arith, λ k ik. rw (file_lem k (omega (arith, ik.high))) (ground (arith, ik.high))),
  λ j hj. let other : (p == 31) ≡ false = ground arith in rw other (null_tree l),
)

trees : (i : ℕ) → i < 13 → Pointers one_inode Away (get_ilevel i) (60 + i)
trees i h = elim (Bool-cases (ltb i 10)) [
  | inl direct ↦
      let level : get_ilevel i ≡ 0 = unfold get_ilevel in rw direct in
      rw level (unfold Pointers in tt)
  | inr far ↦ tree (get_ilevel i) (60 + i) (ground arith)
]

room : Room one_inode 1 (asked one_inode 1 five 5 510)
room = record {
  present = λ k ik. rw (file_lem k (omega (arith, ik.high))) (ground (arith, ik.high));
  apart = λ j k ij hk ne.
      rw (file_lem j (omega (arith, ij.high)), file_lem k hk) (ground (arith, ij.high, ne));
  not_inodes = λ k hk. rw (file_lem k hk) (ground arith);
  pointers = λ i hi. rw (inode.ptrs i hi) (trees i hi);
}

fs_write-content_example :
    (u : Fs) × (fs_write 1 five 5 510 one_inode ≡ ok (some (5, five)) u)
    × Stored one_inode 1 five 5 510 u
fs_write-content_example =
    fs_write-content one_inode 1 five 5 510 one_inode-Mounted one_inode-AllBytes (omega arith)
      (omega arith) (λ i. omega arith) room

fs_write-fs_read_example :
    (u : Fs) × (out : Bytes) × (fs_write 1 five 5 510 one_inode ≡ ok (some (5, five)) u)
    × (fs_read 1 zeros 5 510 u ≡ ok (some (5, out)) u)
    × ((i : ℕ) → out i ≡ (if ltb i 5 then five i else zeros i))
fs_write-fs_read_example =
    fs_write-fs_read one_inode 1 five zeros 5 510 one_inode-Mounted one_inode-AllBytes (omega arith)
      (omega arith) (λ i. omega arith) room (omega (arith, inode.size))
