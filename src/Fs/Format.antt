-- ===== src/Fs/Format.antt =====
-- `fs_init` and `fs_format` of fs/fs.c. The tests for null function pointers are left out: the disk
-- is part of the state.
pub mod Super
pub mod Mount
pub mod Root
mod Tests
use model_lib.Base.{
  ℕ, zero, suc, ◌+◌, ◌-◌, ◌/◌, ◌%◌, ◌^◌, Bool, true, false, ◌==◌, if◌then◌else◌, u32,
}
use model_lib.Fs.Layout.{
  Superblock, Partition, Block, zeros, get_super, put_super, fsmagic, nblocks_log, ninodes_max,
  ninodes_per_block, t_dir,
}
use model_lib.Fs.State.{Fs, Run, ok, Cmd, pure, ◌>>=◌, ◌>>◌, get, disk_read, disk_write}
use model_lib.Fs.Inode.{alloc_inode}

pub set_super : Superblock → Bool → Cmd (Unit {0})
set_super su init s = ok tt (record s { su = su; init = init })

-- The super block is kept in both cases.
pub fs_init : Partition → Cmd Bool
fs_init p = do
  s ← get
  b ← disk_read p.startlba
  if (get_super b).magic == fsmagic
      then set_super (get_super b) true >> pure true
      else set_super (get_super b) s.init >> pure false

-- `for (int i = 0; i < fs.su.nblock_tot; i++) fs.disk_write(fs.su.start + i, &b);`
pub zero_loop : ℕ → ℕ → Cmd (Unit {0})
zero_loop zero i = pure tt
zero_loop (suc rounds) i = do
  s ← get
  disk_write (u32 (s.su.start + i)) zeros
  zero_loop rounds (i + 1)

-- The super block of a new file system.
pub layout : Partition → Superblock
layout p =
    let nblock_inode = ninodes_max / ninodes_per_block in
    let slog = u32 (p.startlba + 1) in
    let sinode = u32 (slog + nblocks_log) in
    let sbitmap = u32 (sinode + nblock_inode) in
    record {
      start = p.startlba;
      ninodes = ninodes_max;
      nblock_tot = p.nsectors;
      nblock_log = nblocks_log;
      nblock_dat = u32 (2 ^ 32 + p.nsectors - (nblocks_log + nblock_inode + 1 + 1));
      nblock_inode = nblock_inode;
      slog = slog;
      sinode = sinode;
      sbitmap = sbitmap;
      sdata = u32 (sbitmap + 1);
      magic = fsmagic;
    }

pub fs_format : Partition → Cmd Bool
fs_format p = do
  s ← get
  zero_loop s.su.nblock_tot 0
  disk_write p.startlba (put_super zeros (layout p))
  set_super (layout p) s.init
  alloc_inode t_dir
  alloc_inode t_dir
  pure true
