-- ===== src/Fs/Path/Linked.antt =====
-- `make_node` of `fs_mknod`: the states after the inode is taken and after the entry is written.
use model_lib.Base.{ℕ, ◌+◌, ◌*◌, ◌<◌, ◌≤◌, ◌≡◌, ◌≢◌, refl, arith, ap, List}
use model_lib.Fs.Layout.{Bytes, zeros, t_dev}
use model_lib.Fs.Layout.Views.{SameInode, Fits}
use model_lib.Fs.State.{Fs, ok}
use model_lib.Fs.Inode.{inode_block, alloc_inode, new_inode}
use model_lib.Fs.Inode.Access.{inode_at, Mounted, with_inode}
use model_lib.Fs.Inode.Alloc.{alloc_inode-first}
use model_lib.Fs.Rw.View.{file_block, content}
use model_lib.Fs.Rw.Read.{AllBytes}
use model_lib.Fs.Rw.Kept.{InodePointers, InodePointers-turned}
use model_lib.Fs.Rw.Written.{InRange}
use model_lib.Fs.Rw.FileWrite.{with_inode-bytes}
use model_lib.Fs.Rw.Room.{asked, Room}
use model_lib.Fs.Rw.Elsewhere.{
  Outside, elsewhere-inode, elsewhere-blocks, elsewhere-content, elsewhere-pointers,
}
use model_lib.Fs.Dir.Lookup.{Directory}

-- The write of an entry behind the others.
abbrev pub Enters : Fs → ℕ → ℕ → Type 0
Enters s n = InRange (asked s n zeros 16 (inode_at s n).size)

-- A directory of `count` entries with room for one more in its last block. Its blocks and its blocks of
-- pointers hold no inodes, and the last block belongs to one place of it only.
pub record Parent (s : Fs) (n : ℕ) (names : ℕ → List ℕ) (count : ℕ) : Type 0 where
  pub dir : Directory s n names
  pub whole : (inode_at s n).size ≡ 16 * count
  pub end : (inode_at s n).size + 16 < 8524800
  pub present : (k : ℕ) → Enters s n k → file_block s (inode_at s n) k ≢ 0
  pub apart :
      (j k : ℕ)
      → Enters s n j
      → k < 16650
      → j ≢ k
      → file_block s (inode_at s n) j ≢ file_block s (inode_at s n) k
  pub blocks :
      (k : ℕ)
      → k < 16650
      → (j : ℕ) → j < s.su.ninodes
      → file_block s (inode_at s n) k ≢ inode_block s j
  pub pointers :
      InodePointers s
        (λ p.
          ((j : ℕ) → j < s.su.ninodes → inode_block s j ≢ p)
          × ((k : ℕ) → Enters s n k → file_block s (inode_at s n) k ≢ p))
        (inode_at s n)

-- Inode `k` is the first with type 0, and is not the null one.
pub record Spare (s : Fs) (k : ℕ) : Type 0 where
  pub inodes : s.su.ninodes ≡ s.su.nblock_inode * 8
  pub small : s.su.ninodes ≤ 65536
  pub in_range : k < s.su.ninodes
  pub some_inode : k ≢ 0
  pub free : (inode_at s k).type ≡ 0
  pub least : (j : ℕ) → j < k → (inode_at s j).type ≢ 0

pub new_inode-Fits : (type : ℕ) → type ≤ t_dev → Fits (new_inode type)
new_inode-Fits type h = record {
  type = omega arith;
  major = omega arith;
  minor = omega arith;
  linkcnt = omega arith;
  size = omega arith;
  ptrs = λ i h. omega arith;
}

module _ (s : Fs) (n : ℕ) (names : ℕ → List ℕ) (count type k : ℕ) (m : Mounted s)
    (bytes : AllBytes s) (p : Parent s n names count) (spare : Spare s k)
    (valid : type ≤ t_dev) where
  abbrev size : ℕ
  size = (inode_at s n).size

  pub other_inode : n ≢ k
  other_inode e =
      let two : (inode_at s n).type ≡ 2 = p.dir.type in
      let zero : (inode_at s k).type ≡ 0 = spare.free in
      let same : (inode_at s n).type ≡ (inode_at s k).type = ap (λ j. (inode_at s j).type) e in
      absurd (omega arith)

  -- After `alloc_inode`.
  abbrev pub taken : Fs
  taken = with_inode s k (new_inode type)

  pub taken-run : alloc_inode type s ≡ ok k taken
  taken-run =
      alloc_inode-first s type k valid (omega (arith, spare.in_range, spare.inodes))
        (omega (arith, spare.in_range, spare.small)) spare.free spare.least

  pub taken-Mounted : Mounted taken
  taken-Mounted = record { init = m.init; no_wrap = m.no_wrap }

  pub taken-AllBytes : AllBytes taken
  taken-AllBytes = with_inode-bytes s k (new_inode type) bytes

  pub outside : Outside s n
  outside = record {
    blocks = p.blocks;
    pointers =
        InodePointers-turned s s _ _ (λ q h. (h.0, refl)) (inode_at s n) (inode_at s n)
          (λ i hi. refl) p.pointers;
  }

  pub taken-inode : SameInode (inode_at taken n) (inode_at s n)
  taken-inode =
      elsewhere-inode s k (new_inode type) n m spare.in_range p.dir.in_range other_inode outside

  pub taken-blocks :
      (b : ℕ) → b < 16650 → file_block taken (inode_at taken n) b ≡ file_block s (inode_at s n) b
  taken-blocks b h =
      elsewhere-blocks s k (new_inode type) n m spare.in_range p.dir.in_range other_inode outside b
        h

  pub taken-content :
      (o : ℕ) → o < 8524800 → content taken (inode_at taken n) o ≡ content s (inode_at s n) o
  taken-content o h =
      elsewhere-content s k (new_inode type) n m spare.in_range p.dir.in_range other_inode outside o
        h

  pub near : (b : ℕ) → Enters s n b → b < 16650
  near b h = omega (arith, h.high, p.end)

  -- There is room for the entry on the disk where the inode is taken.
  pub taken-Room : (de : Bytes) → Room taken n (asked taken n de 16 size)
  taken-Room de = record {
    present = λ b h.
        let e : Enters s n b = record { low = h.low; high = h.high } in
        rw (taken-blocks b (near b e)) (p.present b e);
    apart = λ a b h hb ne.
        let e : Enters s n a = record { low = h.low; high = h.high } in
        rw (taken-blocks a (near a e), taken-blocks b hb) (p.apart a b e hb ne);
    not_inodes = λ b hb. rw (taken-blocks b hb) (p.blocks b hb n p.dir.in_range);
    pointers =
        elsewhere-pointers s k (new_inode type) n m spare.in_range p.dir.in_range other_inode
          outside _ _
          (λ q h. (
            h.0 n p.dir.in_range,
            λ b hb.
                let e : Enters s n b = record { low = hb.low; high = hb.high } in
                rw (taken-blocks b (near b e)) (h.1 b e),
          ))
          (λ q h. h.0 k spare.in_range) p.pointers;
  }
