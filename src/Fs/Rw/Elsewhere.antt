-- ===== src/Fs/Rw/Elsewhere.antt =====
-- An inode that is written leaves the other files as they were.
use model_lib.Base.{ℕ, ◌/◌, ◌<◌, ◌≡◌, ◌≢◌, refl, arith, ◌==◌, false, ◌∙◌}
use model_lib.Fs.Layout.{Dinode}
use model_lib.Fs.Layout.Views.{SameInode}
use model_lib.Fs.State.{Fs}
use model_lib.Fs.Inode.{inode_block}
use model_lib.Fs.Inode.Access.{inode_at, Mounted, with_inode, inode_at-with_ne}
use model_lib.Fs.Rw.View.{file_block, content}
use model_lib.Fs.Rw.Kept.{InodePointers, InodePointers-turned, file_block-kept, file_block-ptrs}

-- No block of a file, and none of its blocks of pointers, holds inodes.
pub record Outside (s : Fs) (n : ℕ) : Type 0 where
  pub blocks :
      (k : ℕ)
      → k < 16650
      → (j : ℕ) → j < s.su.ninodes
      → file_block s (inode_at s n) k ≢ inode_block s j
  pub pointers :
      InodePointers s (λ p. (j : ℕ) → j < s.su.ninodes → inode_block s j ≢ p) (inode_at s n)

module _ (s : Fs) (k : ℕ) (d : Dinode) (n : ℕ) (m : Mounted s) (hk : k < s.su.ninodes)
    (hn : n < s.su.ninodes) (ne : n ≢ k) (out : Outside s n) where
  abbrev u : Fs
  u = with_inode s k d

  pub elsewhere-inode : SameInode (inode_at u n) (inode_at s n)
  elsewhere-inode = inode_at-with_ne s k d n m.no_wrap hk hn ne

  pub elsewhere-disk : (p : ℕ) → inode_block s k ≢ p → u.disk p ≡ s.disk p
  elsewhere-disk p away = let miss : (p == inode_block s k) ≡ false = ground arith in rw miss refl

  pub elsewhere-blocks :
      (b : ℕ) → b < 16650 → file_block u (inode_at u n) b ≡ file_block s (inode_at s n) b
  elsewhere-blocks b h =
      file_block-ptrs u (inode_at u n) (inode_at s n) b h (λ i hi. elsewhere-inode.ptrs i hi)
      ∙ file_block-kept s u (λ p. (j : ℕ) → j < s.su.ninodes → inode_block s j ≢ p)
          (λ p away. elsewhere-disk p (away k hk)) (inode_at s n) b h out.pointers

  pub elsewhere-content :
      (o : ℕ) → o < 8524800 → content u (inode_at u n) o ≡ content s (inode_at s n) o
  elsewhere-content o h =
      let b : ℕ = file_block s (inode_at s n) (o / 512) in
      let apart : inode_block s k ≢ b =
        let ne : b ≢ inode_block s k = out.blocks (o / 512) (omega arith) k hk in ground arith in
      rw (elsewhere-blocks (o / 512) (omega arith), elsewhere-disk b apart) refl

  pub elsewhere-pointers :
      (P Q : ℕ → Type 0)
      → ((p : ℕ) → P p → Q p)
      → ((p : ℕ) → P p → inode_block s k ≢ p)
      → InodePointers s P (inode_at s n)
      → InodePointers u Q (inode_at u n)
  elsewhere-pointers P Q weaker away ps =
      InodePointers-turned s u P Q (λ p h. (weaker p h, elsewhere-disk p (away p h))) (inode_at s n)
        (inode_at u n) (λ i hi. elsewhere-inode.ptrs i hi) ps
