-- ===== src/Shell/Commands/PrintTests.antt =====
-- Runs of `ls` on a directory and of `cat` on a file.
use model_lib.Base.{ℕ, ◌/◌, ◌<◌, ◌≡◌, ◌≢◌, refl, arith, false, none, some, [], ◌∷◌}
use model_lib.Fs.Layout.{zeros, get_inode, put_inode, splice, dinode_byte}
use model_lib.Fs.State.{ok}
use model_lib.Fs.Samples.{one_file, one_file-Mounted}
use model_lib.Fs.Inode.Access.{inode_at}
use model_lib.Fs.Rw.View.{file_block, content}
use model_lib.Fs.Rw.Read.{AllBytes}
use model_lib.Fs.Dir.{field_bytes}
use model_lib.Fs.Dir.Samples.{
  two_entries, names, two_entries-Mounted, two_entries-AllBytes, two_entries-Directory,
}
use model_lib.Fs.Path.{fs_lookup}
use model_lib.Fs.Path.Names.{names_end, fs_lookup-walk, walk}
use model_lib.Text.{strnlen}
use model_lib.Shell.{skip_spaces, take_word, nextword}
use model_lib.Shell.Commands.{Grab, string, ls_path, cat}
use model_lib.Shell.Commands.Names.{name_lines, ls_path-names}
use model_lib.Shell.Commands.Printing.{cat-text}

abbrev grab : Grab
grab = record {
  ide = record {
    drives = λ d. record {
      exist = false;
      msdos = false;
      max_c = 0;
      max_h = 0;
      partitions = λ i. record { startlba = 0; nsectors = 0 };
    };
    drive_sel = 0;
  };
  blocks = λ d n. zeros;
  rootdrive = some 0;
  rootpartition = some 0;
  printed = [];
}

directory_root : fs_lookup (47 ∷ 0 ∷ []) two_entries ≡ ok 1 two_entries
unfolding strnlen walk
directory_root = fs_lookup-walk [] two_entries 1 names_end refl (omega arith)

ls_path-names_example :
    ls_path 3 (47 ∷ 0 ∷ []) grab two_entries
    ≡ ok (record grab { printed = name_lines two_entries 1 names 0 2 }) two_entries
unfolding get_inode put_inode splice dinode_byte
ls_path-names_example =
    ls_path-names two_entries (47 ∷ 0 ∷ []) 1 names 2 grab two_entries-Mounted two_entries-AllBytes
      two_entries-Directory directory_root (omega arith) (omega arith)

-- Both entries are in use.
two_lines : name_lines two_entries 1 names 0 2 ≡ 97 ∷ 98 ∷ 10 ∷ 99 ∷ 10 ∷ []
unfolding name_lines file_block get_inode put_inode splice dinode_byte
two_lines = refl

file_root : fs_lookup (string (47 ∷ [])) one_file ≡ ok 1 one_file
unfolding strnlen walk
file_root = fs_lookup-walk [] one_file 1 names_end refl (omega arith)

file_bytes : AllBytes one_file
unfolding put_inode splice dinode_byte
file_bytes n i = ground arith

mapped :
    (o : ℕ)
    → o < (inode_at one_file 1).size
    → file_block one_file (inode_at one_file 1) (o / 512) ≢ 0
unfolding get_inode put_inode splice dinode_byte file_block
mapped o h = let e : o / 512 ≡ 0 = omega arith in rw e (omega arith)

printable : (o : ℕ) → o < (inode_at one_file 1).size → content one_file (inode_at one_file 1) o ≢ 0
unfolding get_inode put_inode splice dinode_byte file_block
printable o h = let e : o / 512 ≡ 0 = omega arith in rw e (omega arith)

word : nextword (47 ∷ 0 ∷ []) ≡ some (some (47 ∷ []), none)
unfolding nextword skip_spaces take_word
word = refl

cat-text_example :
    cat 2 (some (47 ∷ 0 ∷ [])) grab one_file
    ≡ ok
        (record grab {
          printed =
              field_bytes (content one_file (inode_at one_file 1)) 0 (inode_at one_file 1).size;
        })
        one_file
unfolding get_inode put_inode splice dinode_byte
cat-text_example =
    cat-text one_file (47 ∷ 0 ∷ []) (47 ∷ []) none 1 1 grab one_file-Mounted file_bytes refl word
      file_root (omega arith) (omega arith) refl (omega arith) mapped printable (omega arith)
