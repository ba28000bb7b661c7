-- ===== src/Fs/Rw/Grows.antt =====
-- A write that allocates a block of the file: what it asks of the disk, and what it leaves.
use model_lib.Base.{
  ℕ, ◌+◌, ◌-◌, ◌/◌, ◌%◌, ◌^◌, ◌≤◌, ◌<◌, ◌≡◌, ◌≢◌, ltb, leb, ◌==◌, ◌&&◌, if◌then◌else◌, update,
}
use model_lib.Fs.Layout.{Bytes, Dinode}
use model_lib.Fs.Layout.Views.{SameInode}
use model_lib.Fs.State.{Fs}
use model_lib.Fs.Bitmap.Alloc.{bit_at}
use model_lib.Fs.Bitmap.Fresh.{bitmap}
use model_lib.Fs.Inode.{inode_block}
use model_lib.Fs.Inode.Access.{inode_at, Mounted}
use model_lib.Fs.Rw.View.{file_block, content}
use model_lib.Fs.Rw.Read.{AllBytes}
use model_lib.Fs.Rw.Kept.{InodePointers}
use model_lib.Fs.Rw.Written.{InRange}
use model_lib.Fs.Rw.FileWrite.{wider}
use model_lib.Fs.Rw.Room.{asked}
use model_lib.Fs.Rw.Vacant.{Vacant, block_at}

-- Block `p` is in the data section and its bit is set.
pub record Used (s : Fs) (p : ℕ) : Type 0 where
  pub low : s.su.sdata ≤ p
  pub set : bit_at (bitmap s) (p - s.su.sdata) ≡ 1

abbrev pub with_block : Dinode → ℕ → ℕ → Dinode
with_block di k b = record di { ptrs = update di.ptrs k b }

-- The request enters the direct block `k` of the file, which is not there, and else blocks that are
-- there, each of which belongs to one place of this file only. The blocks of the file and its blocks of
-- pointers are in use by the bitmap, in which `c` is the first bit that is clear.
pub record Grows (s : Fs) (inum : ℕ) (buf : Bytes) (sz off k c : ℕ) : Type 0 where
  pub direct : k < 10
  pub in_range : InRange (asked s inum buf sz off) k
  pub null : file_block s (inode_at s inum) k ≡ 0
  pub vacant : Vacant s c
  pub no_wrap : s.su.sdata + s.su.nblock_dat < 2 ^ 32
  pub inode_low : 0 < inode_block s inum
  pub inode_high : inode_block s inum < s.su.sbitmap
  pub bitmap_high : s.su.sbitmap < s.su.sdata
  pub present :
      (j : ℕ) → InRange (asked s inum buf sz off) j → j ≢ k → file_block s (inode_at s inum) j ≢ 0
  pub apart :
      (i j : ℕ)
      → InRange (asked s inum buf sz off) i
      → i ≢ k
      → j < 16650
      → i ≢ j
      → file_block s (inode_at s inum) i ≢ file_block s (inode_at s inum) j
  pub used :
      (j : ℕ)
      → j < 16650
      → file_block s (inode_at s inum) j ≢ 0
      → Used s (file_block s (inode_at s inum) j)
  pub pointers :
      InodePointers s
        (λ p.
          Used s p
          × ((j : ℕ) → InRange (asked s inum buf sz off) j → file_block s (inode_at s inum) j ≢ p))
        (inode_at s inum)

-- Block `k` of the file is the block of bit `c`, which is set. A byte of that block outside of the
-- request is the one that it held before.
pub record Grown (s : Fs) (inum : ℕ) (buf : Bytes) (sz off k c : ℕ) (u : Fs) : Type 0 where
  pub mounted : Mounted u
  pub bytes : AllBytes u
  pub su : u.su ≡ s.su
  pub inode :
      SameInode (inode_at u inum) (wider (with_block (inode_at s inum) k (block_at s c)) (off + sz))
  pub bits : (j : ℕ) → bit_at (bitmap u) j ≡ (if j == c then 1 else bit_at (bitmap s) j)
  pub blocks :
      (j : ℕ)
      → j < 16650
      → file_block u (inode_at u inum) j
        ≡ (if j == k then block_at s c else file_block s (inode_at s inum) j)
  pub content :
      (o : ℕ)
      → o < 8524800
      → content u (inode_at u inum) o ≡ (
          if leb off o && ltb o (off + sz)
          then buf (o - off)
          else if o / 512 == k
          then s.disk (block_at s c) (o % 512)
          else content s (inode_at s inum) o)
  pub spared :
      (p : ℕ)
      → p ≢ inode_block s inum
      → p ≢ s.su.sbitmap
      → p ≢ block_at s c
      → ((j : ℕ)
          → InRange (asked s inum buf sz off) j
          → j ≢ k
          → file_block s (inode_at s inum) j ≢ p)
      → u.disk p ≡ s.disk p
  pub others :
      (j : ℕ)
      → j < s.su.ninodes
      → j ≢ inum
      → inode_block s j < s.su.sbitmap
      → SameInode (inode_at u j) (inode_at s j)
