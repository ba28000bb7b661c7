-- ===== src/Fs/Dir/Kept.antt =====
-- A directory whose inode and blocks are left as they were.
use model_lib.Base.{
  ℕ, ◌+◌, ◌*◌, ◌/◌, ◌%◌, ◌<◌, ◌≡◌, ◌≢◌, refl, arith, ap, ◌∙◌, ◌==◌, Bool-cases, inl, inr, List,
}
use model_lib.Fs.Layout.Views.{SameInode}
use model_lib.Fs.State.{Fs}
use model_lib.Fs.Inode.Access.{inode_at}
use model_lib.Fs.Rw.View.{file_block, content}
use model_lib.Fs.Rw.Kept.{InodePointers, file_block-kept, file_block-ptrs}
use model_lib.Fs.Dir.{entry_inum}
use model_lib.Fs.Dir.Lookup.{Directory, entry_at, field_bytes-cong}

-- The blocks for which `P` holds are those of `s` in `t`.
module _ (s t : Fs) (n : ℕ) (P : ℕ → Type 0) (kept : (p : ℕ) → P p → t.disk p ≡ s.disk p)
    (su : t.su ≡ s.su) (same : SameInode (inode_at t n) (inode_at s n))
    (blocks : (k : ℕ)
      → k < 16650
      → file_block s (inode_at s n) k ≢ 0
      → P (file_block s (inode_at s n) k))
    (pointers : InodePointers s P (inode_at s n)) where
  pub file_block-elsewhere :
      (k : ℕ) → k < 16650 → file_block t (inode_at t n) k ≡ file_block s (inode_at s n) k
  file_block-elsewhere k h =
      file_block-ptrs t (inode_at t n) (inode_at s n) k h (λ i hi. same.ptrs i hi)
      ∙ file_block-kept s t P kept (inode_at s n) k h pointers

  content-elsewhere :
      (o : ℕ) → o < 8524800 → content t (inode_at t n) o ≡ content s (inode_at s n) o
  content-elsewhere o h =
      rw (file_block-elsewhere (o / 512) (omega arith))
        (elim (Bool-cases (file_block s (inode_at s n) (o / 512) == 0)) [
          | inl hole ↦ rw hole refl
          | inr there ↦
              rw there
                (ap (λ b. b (o % 512)) (kept _ (blocks (o / 512) (omega arith) (ground arith))))
        ])

  module _ (names : ℕ → List ℕ) (d : Directory s n names) where
    entry_at-elsewhere :
        (j i : ℕ) → j < (inode_at s n).size / 16 → i < 16 → entry_at t n j i ≡ entry_at s n j i
    entry_at-elsewhere j i hj hi = content-elsewhere (16 * j + i) (omega (arith, d.small))

    pub entry_inum-elsewhere :
        (j : ℕ)
        → j < (inode_at s n).size / 16
        → entry_inum (entry_at t n j) ≡ entry_inum (entry_at s n j)
    entry_inum-elsewhere j h =
        omega
          (arith, entry_at-elsewhere j 0 h (omega arith), entry_at-elsewhere j 1 h (omega arith))

    pub Directory-elsewhere : Directory t n names
    Directory-elsewhere =
        let size : (inode_at t n).size ≡ (inode_at s n).size = same.size in
        record {
          in_range = rw su d.in_range;
          type = same.type ∙ d.type;
          small = omega (arith, size, d.small);
          mapped = λ o h.
              rw (file_block-elsewhere (o / 512) (omega (arith, size, d.small)))
                (d.mapped o (omega (arith, size)));
          pad = d.pad;
          named = λ j h.
              let below : j < (inode_at s n).size / 16 = omega (arith, size) in
              field_bytes-cong (entry_at t n j) (entry_at s n j) 2 14
                (λ i hi. entry_at-elsewhere j i below (omega arith))
              ∙ d.named j below;
          chars = λ j h. d.chars j (omega (arith, size));
        }
