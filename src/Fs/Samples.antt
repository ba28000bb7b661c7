-- ===== src/Fs/Samples.antt =====
-- Small disks for the runs of the file system of fs/fs.c.
use model_lib.Base.{refl, arith, true, if◌then◌else◌, ◌==◌}
use model_lib.Fs.Layout.{Superblock, zeros, put_inode, Dinode, t_dir}
use model_lib.Fs.Layout.Views.{Fits}
use model_lib.Fs.State.{Fs, Run, ok}
use model_lib.Fs.Inode.{new_inode}
use model_lib.Fs.Inode.Access.{Mounted}

abbrev pub super : Superblock
super = record {
  start = 0;
  ninodes = 200;
  nblock_tot = 200;
  nblock_log = 30;
  nblock_dat = 143;
  nblock_inode = 25;
  slog = 1;
  sinode = 31;
  sbitmap = 56;
  sdata = 57;
  magic = 0xdeadbeef;
}

-- A mounted file system, all zeros but for the super block in memory.
abbrev pub mounted : Fs
mounted = record { init = true; su = super; disk = λ _. zeros }

abbrev pub mounted-Mounted : Mounted mounted
mounted-Mounted = record { init = refl; no_wrap = omega arith }

-- Inode 1 is a file of three bytes whose pointers all lead to block 60, and the bitmap says that
-- block 60 is in use.
abbrev pub three_bytes : Dinode
three_bytes = record { type = 1; major = 0; minor = 0; linkcnt = 1; size = 3; ptrs = λ i. 60 }

abbrev pub one_file : Fs
one_file = record {
  init = true;
  su = super;
  disk = λ n.
      if n == 31
      then put_inode zeros 1 three_bytes
      else if n == 60
      then (λ i. 7)
      else if n == 56
      then (λ i. 255)
      else zeros;
}

abbrev pub one_file-Mounted : Mounted one_file
one_file-Mounted = record { init = refl; no_wrap = omega arith }

-- The state in which a call returns.
abbrev pub state_of : {A : Type 0} → Run A → Fs
state_of (ok a s) = s
state_of _ = mounted

abbrev pub directory-Fits : Fits (new_inode t_dir)
directory-Fits = record {
  type = omega arith;
  major = omega arith;
  minor = omega arith;
  linkcnt = omega arith;
  size = omega arith;
  ptrs = λ i h. omega arith;
}
