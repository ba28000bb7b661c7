-- ===== src/Fs/Format/Super.antt =====
-- The super block on the disk, and the layout that `fs_format` chooses.
use model_lib.Base.{◌+◌, ◌*◌, ◌^◌, ◌≤◌, ◌<◌, ◌≡◌, arith}
use model_lib.Fs.Layout.{Block, Superblock, Partition, get_super, put_super, splice, get_u32}
use model_lib.Fs.Format.{layout}

-- Every field fits its 32 bits.
pub record Fits (s : Superblock) : Type 0 where
  pub start : s.start < 2 ^ 32
  pub ninodes : s.ninodes < 2 ^ 32
  pub nblock_tot : s.nblock_tot < 2 ^ 32
  pub nblock_log : s.nblock_log < 2 ^ 32
  pub nblock_dat : s.nblock_dat < 2 ^ 32
  pub nblock_inode : s.nblock_inode < 2 ^ 32
  pub slog : s.slog < 2 ^ 32
  pub sinode : s.sinode < 2 ^ 32
  pub sbitmap : s.sbitmap < 2 ^ 32
  pub sdata : s.sdata < 2 ^ 32
  pub magic : s.magic < 2 ^ 32

-- Each field is read back from its own four bytes.
module _ (b : Block) (s : Superblock) (f : Fits s) where
  read_start : get_u32 (put_super b s) 0 ≡ s.start
  unfolding put_super splice
  read_start = omega (arith, f.start)

  read_ninodes : get_u32 (put_super b s) 4 ≡ s.ninodes
  unfolding put_super splice
  read_ninodes = omega (arith, f.ninodes)

  read_nblock_tot : get_u32 (put_super b s) 8 ≡ s.nblock_tot
  unfolding put_super splice
  read_nblock_tot = omega (arith, f.nblock_tot)

  read_nblock_log : get_u32 (put_super b s) 12 ≡ s.nblock_log
  unfolding put_super splice
  read_nblock_log = omega (arith, f.nblock_log)

  read_nblock_dat : get_u32 (put_super b s) 16 ≡ s.nblock_dat
  unfolding put_super splice
  read_nblock_dat = omega (arith, f.nblock_dat)

  read_nblock_inode : get_u32 (put_super b s) 20 ≡ s.nblock_inode
  unfolding put_super splice
  read_nblock_inode = omega (arith, f.nblock_inode)

  read_slog : get_u32 (put_super b s) 24 ≡ s.slog
  unfolding put_super splice
  read_slog = omega (arith, f.slog)

  read_sinode : get_u32 (put_super b s) 28 ≡ s.sinode
  unfolding put_super splice
  read_sinode = omega (arith, f.sinode)

  read_sbitmap : get_u32 (put_super b s) 32 ≡ s.sbitmap
  unfolding put_super splice
  read_sbitmap = omega (arith, f.sbitmap)

  read_sdata : get_u32 (put_super b s) 36 ≡ s.sdata
  unfolding put_super splice
  read_sdata = omega (arith, f.sdata)

  read_magic : get_u32 (put_super b s) 40 ≡ s.magic
  unfolding put_super splice
  read_magic = omega (arith, f.magic)

-- A super block that is written to a block is read back.
pub get_super-put_super : (b : Block) (s : Superblock) → Fits s → get_super (put_super b s) ≡ s
unfolding get_super
get_super-put_super b s f = λ i. record {
  start = read_start b s f i;
  ninodes = read_ninodes b s f i;
  nblock_tot = read_nblock_tot b s f i;
  nblock_log = read_nblock_log b s f i;
  nblock_dat = read_nblock_dat b s f i;
  nblock_inode = read_nblock_inode b s f i;
  slog = read_slog b s f i;
  sinode = read_sinode b s f i;
  sbitmap = read_sbitmap b s f i;
  sdata = read_sdata b s f i;
  magic = read_magic b s f i;
}

-- The partition is below 2 ^ 32, and holds at least the sections before the data.
pub record Roomy (p : Partition) : Type 0 where
  pub below : p.startlba + p.nsectors < 2 ^ 32
  pub room : 57 ≤ p.nsectors

pub layout-Fits : (p : Partition) → Roomy p → Fits (layout p)
unfolding layout
layout-Fits p r = omega arith

-- The sections follow one another from the start of the partition to its end, with no gap: the
-- super block, the log, the inode blocks, which hold all the inodes, the bitmap and the data.
pub layout_sections :
    (p : Partition)
    → Roomy p
    → let s = layout p in
      (s.slog ≡ s.start + 1)
      × (s.sinode ≡ s.slog + s.nblock_log)
      × (s.sbitmap ≡ s.sinode + s.nblock_inode)
      × (s.sdata ≡ s.sbitmap + 1)
      × (s.sdata + s.nblock_dat ≡ p.startlba + p.nsectors)
      × (s.ninodes ≡ s.nblock_inode * 8)
unfolding layout
layout_sections p r = omega arith
