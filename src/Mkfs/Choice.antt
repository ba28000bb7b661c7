-- ===== src/Mkfs/Choice.antt =====
-- The choice of a command in the loop of `main` of mkfs/mkfs.c.
use model_lib.Base.{
  ℕ, ◌+◌, ◌/◌, ◌≤◌, ◌<◌, ◌≡◌, ◌≢◌, refl, Bool, true, false, ◌==◌, ◌&&◌, if◌then◌else◌, Option, none,
  some, List, [], ◌∷◌, ◌++◌,
}
use model_lib.Fs.Layout.{Bytes, t_reg, t_dir}
use model_lib.Fs.State.{Fs, Cmd, ok, pure, ◌>>=◌, ◌>>◌, inside}
use model_lib.Fs.Inode.Access.{inode_at, Mounted}
use model_lib.Fs.Rw.View.{file_block}
use model_lib.Fs.Rw.Read.{AllBytes}
use model_lib.Fs.Path.{fs_lookup}
use model_lib.Mkfs.{Host, nextword, string, set_file, do_ls, do_migrate, do_retrieve}
use model_lib.Mkfs.Command.{do_read, make}
use model_lib.Mkfs.Words.{Word, nextword-first}
use model_lib.Mkfs.Retrieve.{file_bytes, do_retrieve-bytes}

-- `!strncmp(name, w, n)`, for a name of `n` characters.
abbrev starts : List ℕ → List ℕ → Bool
starts [] w = true
starts (c ∷ name) [] = false
starts (c ∷ name) (d ∷ w) = c == d && starts name w

-- `ls`, `migrate` and so on, in ASCII.
abbrev ls_name : List ℕ
ls_name = 108 ∷ 115 ∷ []

abbrev migrate_name : List ℕ
migrate_name = 109 ∷ 105 ∷ 103 ∷ 114 ∷ 97 ∷ 116 ∷ 101 ∷ []

abbrev pub retrieve_name : List ℕ
retrieve_name = 114 ∷ 101 ∷ 116 ∷ 114 ∷ 105 ∷ 101 ∷ 118 ∷ 101 ∷ []

abbrev read_name : List ℕ
read_name = 114 ∷ 101 ∷ 97 ∷ 100 ∷ []

abbrev write_name : List ℕ
write_name = 119 ∷ 114 ∷ 105 ∷ 116 ∷ 101 ∷ []

abbrev mkdir_name : List ℕ
mkdir_name = 109 ∷ 107 ∷ 100 ∷ 105 ∷ 114 ∷ []

abbrev touch_name : List ℕ
touch_name = 116 ∷ 111 ∷ 117 ∷ 99 ∷ 104 ∷ []

abbrev quit_name : List ℕ
quit_name = 113 ∷ 117 ∷ 105 ∷ 116 ∷ []

-- What the arrays of the commands hold before they are written.
pub record Stale : Type 0 where
  pub buf : Bytes
  pub path : List ℕ

-- The chain of tests for the word `w` with the rest `p` of the line; `none` is `exit(0)`.
pub choose : ℕ → Stale → Host → List ℕ → List ℕ → Cmd (Option Host)
choose fuel stale h w p =
    if starts ls_name w
    then go (do_ls fuel p h)
    else if starts migrate_name w
    then go (do_migrate p h)
    else if starts retrieve_name w
    then go (do_retrieve fuel p h)
    else if starts read_name w
    then go (do_read p stale.buf false h)
    else if starts write_name w
    then go (do_read p stale.buf true h)
    else if starts mkdir_name w
    then make p stale.path t_dir >> pure (some h)
    else if starts touch_name w
    then make p stale.path t_reg >> pure (some h)
    else if starts quit_name w
    then pure none
    else pure (some h)
  where
    go : Cmd Host → Cmd (Option Host)
    go m = m >>= λ h'. pure (some h')

-- One round of the loop, for the line that `fgets` has read, without its newline.
pub command : ℕ → Stale → List ℕ → Host → Cmd (Option Host)
command fuel stale line h = do
  r ← inside (nextword line)
  elim r [ none ↦ pure (some h) | some (w, p) ↦ choose fuel stale h w p ]

retrieve_name-Word : Word retrieve_name
retrieve_name-Word = (refl, (refl, (refl, (refl, (refl, (refl, (refl, (refl, tt))))))))

-- The line `retrieve`, a path and a name of the host, typed to the tool on a mounted disk of bytes, where the path
-- leads to a file without holes within what the pointers of an inode reach and the host lets the file be created, leaves
-- the bytes of the file, all of them and in order, under that name of the host, and the disk
-- unchanged. It takes one round of reads more than the file has bytes.
pub command-retrieve :
    (s : Fs) (h : Host) (stale : Stale) (path host_path : List ℕ) (inum : ℕ)
    → Mounted s
    → AllBytes s
    → Word path
    → Word host_path
    → fs_lookup (string path) s ≡ ok inum s
    → inum ≢ 0
    → inum < s.su.ninodes
    → (inode_at s inum).size ≤ 8524800
    → ((o : ℕ) → o < (inode_at s inum).size → file_block s (inode_at s inum) (o / 512) ≢ 0)
    → h.may_create host_path ≡ true
    → command
        ((inode_at s inum).size + 1)
        stale
        (retrieve_name ++ (32 ∷ path ++ (32 ∷ host_path ++ (0 ∷ []))))
        h
        s
      ≡ ok (some (set_file h host_path (file_bytes s inum))) s
unfolding command choose
command-retrieve s h stale path host_path inum m bytes wp wh found ne hn small mapped create =
    rw
      (
        nextword-first retrieve_name 32 (path ++ (32 ∷ host_path ++ (0 ∷ []))) retrieve_name-Word
            refl,
        do_retrieve-bytes s h path host_path inum m bytes wp wh found ne hn small mapped create,
      )
      refl
