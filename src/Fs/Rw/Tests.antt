-- ===== src/Fs/Rw/Tests.antt =====
-- Runs of `fs_read`, `fs_write` and what they call.
use model_lib.Base.{
  ℕ, ◌+◌, ◌-◌, ◌/◌, ◌≤◌, ◌<◌, ◌≡◌, ◌≢◌, refl, arith, true, false, Bool, some, if◌then◌else◌, ltb,
  min,
}
use model_lib.Fs.Layout.{Bytes, zeros, splice, get_inode, put_inode, dinode_byte}
use model_lib.Fs.State.{ok}
use model_lib.Fs.Samples.{mounted, one_file, one_file-Mounted}
use model_lib.Fs.Inode.Access.{inode_at}
use model_lib.Fs.Rw.{Share, recursive_rw, start_of, fs_read}
use model_lib.Fs.Rw.View.{file_block, content}
use model_lib.Fs.Rw.Read.{AllBytes}
use model_lib.Fs.Rw.FileRead.{fs_read-content}
use model_lib.Fs.Rw.Blocks.{hole-overruns}

one_file-AllBytes : AllBytes one_file
unfolding put_inode splice dinode_byte
one_file-AllBytes n i = ground arith

one_file_mapped :
    (o : ℕ)
    → 1 ≤ o
    → o < 1 + 5
    → o < (inode_at one_file 1).size
    → file_block one_file (inode_at one_file 1) (o / 512) ≢ 0
unfolding get_inode put_inode splice dinode_byte file_block
one_file_mapped o lo hi inside = let e : o / 512 ≡ 0 = omega arith in rw e (omega arith)

fs_read-content_example :
    (out : Bytes) × (fs_read 1 zeros 5 1 one_file
      ≡ ok (some (min 5 ((inode_at one_file 1).size - 1), out)) one_file)
    × ((i : ℕ)
        → out i ≡ (
            if ltb i (min 5 ((inode_at one_file 1).size - 1))
            then content one_file (inode_at one_file 1) (1 + i)
            else zeros i))
unfolding get_inode put_inode splice dinode_byte
fs_read-content_example =
    fs_read-content one_file 1 5 1 zeros one_file-Mounted one_file-AllBytes (omega arith)
      (omega arith) (omega arith) (omega arith) one_file_mapped

-- A share of a request that starts in the middle of block 0.
abbrev middle : Bool → Share
middle w = record {
  boff = 0;
  sblock = 0;
  eblock = 1;
  off = 500;
  pos = 0;
  left = 600;
  buf = λ i. 9;
  w = w;
}

hole-overruns_example :
    (sb : Share) × (recursive_rw 0 0 (middle false) mounted ≡ ok (true, 0, sb) mounted)
    × (sb.pos ≡ 0 + 512)
    × (start_of sb ≡ start_of (middle false))
    × ((i : ℕ) → i < 512 → sb.buf (0 + i) ≡ 0)
hole-overruns_example =
    hole-overruns mounted (middle false) refl (omega arith) (omega arith) (omega arith)
      (omega arith)
