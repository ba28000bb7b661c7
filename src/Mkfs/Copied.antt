-- ===== src/Mkfs/Copied.antt =====
-- How far the loop of `do_migrate` has come when `n` bytes are copied into an empty file.
pub mod Round
use mathlib.Core.Path.{subst}
use model_lib.Base.{
  ℕ, zero, suc, ◌+◌, ◌-◌, ◌*◌, ◌/◌, ◌%◌, ◌^◌, ◌≤◌, ◌<◌, ◌≡◌, ◌≢◌, refl, arith, ltb, leb, ◌==◌, ◌&&◌,
  ◌||◌, u32, if◌then◌else◌, true, false, Bool, Bool-cases, inl, inr, ap, sym, ◌∙◌, some, update,
}
use model_lib.Fs.Layout.{Bytes, Dinode}
use model_lib.Fs.Layout.Views.{SameInode}
use model_lib.Fs.State.{Fs, ok}
use model_lib.Fs.Bitmap.Alloc.{bit_at}
use model_lib.Fs.Bitmap.Fresh.{bitmap}
use model_lib.Fs.Inode.{inode_block, get_ilevel}
use model_lib.Fs.Inode.Access.{SameInode-refl, inode_at, Mounted}
use model_lib.Fs.Rw.{fs_write}
use model_lib.Fs.Rw.View.{file_block, content, block_of_zero}
use model_lib.Fs.Rw.Read.{AllBytes}
use model_lib.Fs.Rw.Kept.{Pointers, InodePointers}
use model_lib.Fs.Rw.Written.{InRange}
use model_lib.Fs.Rw.Room.{asked, Room, Stored}
use model_lib.Fs.Rw.Vacant.{Vacant, block_at}
use model_lib.Fs.Rw.Grows.{Used, Grows, Grown}
use model_lib.Fs.Rw.Stored.{fs_write-content}
use model_lib.Fs.Rw.Allocate.{fs_write-Grown}

-- The number of blocks of the file when `n` bytes are copied, one at a time.
abbrev pub blocks_of : ℕ → ℕ
blocks_of n = if n == 0 then 0 else n / 512 + 1

-- Inode `inum` is an empty file. The bits of the bitmap below `c` are set, and the next ten are clear.
-- The inodes, the bitmap and the data section follow each other on the disk.
pub record Empty (s : Fs) (inum c : ℕ) : Type 0 where
  pub in_range : inum < s.su.ninodes
  pub inode_low : 0 < inode_block s inum
  pub inode_high : inode_block s inum < s.su.sbitmap
  pub bitmap_high : s.su.sbitmap < s.su.sdata
  pub no_wrap : s.su.sdata + s.su.nblock_dat < 2 ^ 32
  pub covered : s.su.nblock_dat ≤ 4096
  pub enough : c + 10 ≤ s.su.nblock_dat / 8 * 8
  pub set : (j : ℕ) → j < c → bit_at (bitmap s) j ≡ 1
  pub clear : (j : ℕ) → c ≤ j → j < c + 10 → bit_at (bitmap s) j ≡ 0
  pub size : (inode_at s inum).size ≡ 0
  pub ptrs : (i : ℕ) → i < 13 → (inode_at s inum).ptrs i ≡ 0

-- The first `n` bytes of `source` are in the file, in the blocks of the bits from `c` on. Other blocks
-- and other inodes are as before.
pub record Copied (s : Fs) (inum c : ℕ) (source : ℕ → ℕ) (n : ℕ) (t : Fs) : Type 0 where
  pub mounted : Mounted t
  pub bytes : AllBytes t
  pub su : t.su ≡ s.su
  pub ptrs :
      (i : ℕ)
      → i < 13
      → (inode_at t inum).ptrs i ≡ (if ltb i (blocks_of n) then block_at s (c + i) else 0)
  pub bits : (j : ℕ) → j < c + 10 → bit_at (bitmap t) j ≡ (if ltb j (c + blocks_of n) then 1 else 0)
  pub size : (inode_at t inum).size ≡ n
  pub content : (o : ℕ) → o < n → content t (inode_at t inum) o ≡ source o
  pub spared :
      (p : ℕ)
      → p ≢ inode_block s inum
      → p ≢ s.su.sbitmap
      → ((i : ℕ) → i < 10 → p ≢ block_at s (c + i))
      → t.disk p ≡ s.disk p
  pub others :
      (j : ℕ)
      → j < s.su.ninodes
      → j ≢ inum
      → inode_block s j < s.su.sbitmap
      → SameInode (inode_at t j) (inode_at s j)

module _ (s : Fs) (inum c : ℕ) (source : ℕ → ℕ) (e : Empty s inum c) where
  pub start-Copied : Mounted s → AllBytes s → Copied s inum c source 0 s
  start-Copied m bytes = record {
    mounted = m;
    bytes = bytes;
    su = refl;
    ptrs = λ i h. let none : ltb i 0 ≡ false = ground arith in rw none (e.ptrs i h);
    bits = λ j h. elim (Bool-cases (ltb j c)) [
      | inl lo ↦
          let below : ltb j (c + 0) ≡ true = ground arith in rw below (e.set j (ground arith))
      | inr hi ↦
          let behind : ltb j (c + 0) ≡ false = ground arith in
          rw behind (e.clear j (ground arith) h)
    ];
    size = e.size;
    content = λ o h. absurd (omega arith);
    spared = λ p ni nb nf. refl;
    others = λ j h ne low. SameInode-refl (inode_at s j);
  }
