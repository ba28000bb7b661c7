-- ===== src/Fs/Inode/Tests.antt =====
-- Runs of the inode operations.
use model_lib.Base.{ℕ, ◌<◌, ◌≡◌, arith, Option, some, if◌then◌else◌, ◌==◌}
use model_lib.Fs.Layout.{splice, get_inode, put_inode, dinode_byte, Dinode, t_dir}
use model_lib.Fs.Layout.Views.{SameInode}
use model_lib.Fs.State.{Fs, ok, panicked}
use model_lib.Fs.Samples.{mounted, mounted-Mounted, one_file, one_file-Mounted, directory-Fits}
use model_lib.Fs.Bitmap.Free.{cleared, bitmap_free-ok}
use model_lib.Fs.Inode.{new_inode, alloc_inode, read_inode, write_inode, free_inode}
use model_lib.Fs.Inode.Access.{inode_at, write_inode-read_inode}
use model_lib.Fs.Inode.Alloc.{Outcome, alloc_inode-Outcome}
use model_lib.Fs.Inode.Free.{free_inode-panicked}

alloc_inode-Outcome_example : Outcome mounted t_dir (alloc_inode t_dir mounted)
alloc_inode-Outcome_example = alloc_inode-Outcome mounted t_dir (omega arith)

write_inode-read_inode_example :
    (t : Fs) × (r : Option Dinode) × (write_inode 3 (new_inode t_dir) mounted ≡ ok r t)
    × ((j : ℕ)
        → j < 200
        → (e : Dinode) × (read_inode j t ≡ ok (some e) t)
          × SameInode e (if j == 3 then new_inode t_dir else inode_at mounted j))
write_inode-read_inode_example =
    write_inode-read_inode mounted 3 (new_inode t_dir) mounted-Mounted directory-Fits (omega arith)

free_inode-panicked_example : free_inode 1 one_file ≡ panicked
unfolding get_inode put_inode splice dinode_byte
free_inode-panicked_example =
    free_inode-panicked one_file 1 0 (cleared one_file 60) one_file-Mounted (omega arith)
      (omega arith) (λ j h. absurd (omega arith)) (omega arith)
      (bitmap_free-ok 60 one_file (omega arith) (omega arith) (omega arith) (omega arith))
