-- ===== src/Mkfs/Tests.antt =====
-- A run of `retrieve` for the file of three bytes behind the root, and a start on an image.
use model_lib.Base.{
  ℕ, ◌+◌, ◌/◌, ◌<◌, ◌≡◌, ◌≢◌, refl, arith, true, false, some, none, if◌then◌else◌, ◌==◌, [], ◌∷◌,
  ◌++◌,
}
use model_lib.Fs.Layout.{Block, zeros, put_inode, get_inode, splice, dinode_byte}
use model_lib.Fs.State.{Fs, ok}
use model_lib.Fs.Samples.{super, one_file, one_file-Mounted}
use model_lib.Fs.Inode.Access.{inode_at}
use model_lib.Fs.Rw.View.{file_block}
use model_lib.Fs.Rw.Read.{AllBytes}
use model_lib.Fs.Path.{fs_lookup}
use model_lib.Fs.Path.Names.{names_end, fs_lookup-walk, walk}
use model_lib.Text.{strnlen}
use model_lib.Mkfs.{Host, set_file, string}
use model_lib.Mkfs.Retrieve.{file_bytes}
use model_lib.Mkfs.Choice.{Stale, retrieve_name, command, command-retrieve}
use model_lib.Fs.Layout.{Partition}
use model_lib.Mkfs.Image.{Opened, open_partition, open_partition-Opened}

abbrev empty_host : Host
empty_host = record { files = λ name. none; may_create = λ name. true; printed = [] }

bytes : AllBytes one_file
unfolding put_inode splice dinode_byte
bytes n i = ground arith

mapped :
    (o : ℕ)
    → o < (inode_at one_file 1).size
    → file_block one_file (inode_at one_file 1) (o / 512) ≢ 0
unfolding get_inode put_inode splice dinode_byte file_block
mapped o h = let e : o / 512 ≡ 0 = omega arith in rw e (omega arith)

root : fs_lookup (string (47 ∷ [])) one_file ≡ ok 1 one_file
unfolding strnlen walk
root = fs_lookup-walk [] one_file 1 names_end refl (omega arith)

abbrev nothing : Stale
nothing = record { buf = zeros; path = [] }

command-retrieve_example :
    command
      ((inode_at one_file 1).size + 1)
      nothing
      (retrieve_name ++ (32 ∷ (47 ∷ []) ++ (32 ∷ (97 ∷ []) ++ (0 ∷ []))))
      empty_host
      one_file
    ≡ ok (some (set_file empty_host (97 ∷ []) (file_bytes one_file 1))) one_file
unfolding get_inode put_inode splice dinode_byte
command-retrieve_example =
    command-retrieve one_file empty_host nothing (47 ∷ []) (97 ∷ []) 1 one_file-Mounted bytes
      (refl, tt) (refl, tt) root (omega arith) (omega arith) (omega arith) mapped refl

-- A boot record whose first entry is a partition of 500 sectors from sector 63 on.
abbrev boot_record : Block
boot_record i =
    if i == 450
    then 1
    else if i == 454
    then 63
    else if i == 458
    then 244
    else if i == 459
    then 1
    else if i == 510
    then 0x55
    else if i == 511
    then 0xaa
    else 0

abbrev image : Fs
image = record { init = false; su = super; disk = λ n. if n == 0 then boot_record else zeros }

abbrev image_partition : Partition
image_partition = record { startlba = 63; nsectors = 500 }

open_partition-Opened_example :
    (t : Fs) × (open_partition 1 image ≡ ok (some tt) t) × Opened image_partition image t
open_partition-Opened_example =
    open_partition-Opened 1 63 500 image (omega arith) (omega arith) refl refl (omega arith) refl
      refl (record { below = omega arith; room = omega arith })
