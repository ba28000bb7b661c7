-- ===== src/Fs/Path/Samples.antt =====
-- The directory of two entries has room for another, and inode 2 is free.
use model_lib.Base.{
  ℕ, zero, suc, ◌+◌, ◌-◌, ◌/◌, ◌<◌, ◌≡◌, ◌≢◌, refl, arith, ◌==◌, if◌then◌else◌, ltb, false,
  Bool-cases, inl, inr, ◌∙◌,
}
use model_lib.Fs.Layout.{zeros, get_inode, put_inode, splice, dinode_byte}
use model_lib.Fs.Layout.Views.{SameInode, Fits, get_inode-put_inode_self}
use model_lib.Fs.Inode.{new_inode, get_ilevel}
use model_lib.Fs.Inode.Access.{inode_at}
use model_lib.Fs.Rw.View.{file_block, block_of}
use model_lib.Fs.Rw.Kept.{Pointers, file_block-ptrs}
use model_lib.Fs.Dir.Samples.{two_entries, directory_inode, names, two_entries-Directory}
use model_lib.Fs.Path.Linked.{Parent, Spare}

pub directory_inode-Fits : Fits directory_inode
directory_inode-Fits = record {
  type = omega arith;
  major = omega arith;
  minor = omega arith;
  linkcnt = omega arith;
  size = omega arith;
  ptrs = λ i h. ground arith;
}

pub inode : SameInode (inode_at two_entries 1) directory_inode
inode =
    get_inode-put_inode_self (put_inode zeros 0 (new_inode 2)) 1 directory_inode
      directory_inode-Fits

-- The directory has one block.
pub file_lem :
    (k : ℕ)
    → k < 16650
    → file_block two_entries (inode_at two_entries 1) k ≡ (if k == 0 then 60 else 0)
unfolding file_block block_of
file_lem k h =
    file_block-ptrs two_entries (inode_at two_entries 1) directory_inode k h
      (λ i hi. inode.ptrs i hi)
    ∙ own
  where
    own : file_block two_entries directory_inode k ≡ (if k == 0 then 60 else 0)
    own = elim (Bool-cases (ltb k 10)) [
      | inl direct ↦ rw direct
      | inr far ↦
          let other : (k == 0) ≡ false = ground arith in
          elim (Bool-cases (ltb k 266)) [
            | inl single ↦
                let null : (10 + (k - 10) / 128 == 0) ≡ false = ground arith in
                rw (far, single, other, null) refl
            | inr double ↦ rw (far, double, other) refl
          ]
    ]

module _ (P : ℕ → Type 0) where
  null_tree : (l : ℕ) → Pointers two_entries P l 0
  unfolding Pointers
  null_tree zero = tt
  null_tree (suc l) = λ ne. absurd (ne refl)

  pub trees : (i : ℕ) → i < 13 → Pointers two_entries P (get_ilevel i) (directory_inode.ptrs i)
  unfolding Pointers get_ilevel
  trees zero h = tt
  trees (suc i) h =
      let other : (suc i == 0) ≡ false = ground arith in rw other (null_tree (get_ilevel (suc i)))

pub parent : Parent two_entries 1 names 2
parent = record {
  dir = two_entries-Directory;
  whole = inode.size;
  end = omega (arith, inode.size);
  present = λ k e.
      rw (file_lem k (omega (arith, e.high, inode.size))) (ground (arith, e.high, inode.size));
  apart = λ j k e hk ne.
      rw (file_lem j (omega (arith, e.high, inode.size)), file_lem k hk)
        (ground (arith, e.high, inode.size));
  blocks = λ k hk j hj. rw (file_lem k hk) (ground arith);
  pointers = λ i hi. rw (inode.ptrs i hi) (trees _ i hi);
}

used : (j : ℕ) → j < 2 → (inode_at two_entries j).type ≢ 0
unfolding get_inode put_inode splice dinode_byte
used zero h = omega arith
used (suc zero) h = omega arith
used (suc (suc j)) h = absurd (omega arith)

pub spare : Spare two_entries 2
unfolding get_inode put_inode splice dinode_byte
spare = record {
  inodes = refl;
  small = omega arith;
  in_range = omega arith;
  some_inode = omega arith;
  free = refl;
  least = used;
}
