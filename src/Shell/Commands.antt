-- ===== src/Shell/Commands.antt =====
-- The commands `ls`, `cat` and `set` of grab/shell.c, with `getXY` and `process_command`. They work on
-- the drive that is selected: its blocks are the disk of the file system's state, and those of the other drives are
-- kept here. Messages of failure are left out.
pub mod Setting
pub mod Selecting
pub mod Listing
pub mod Printing
pub mod Names
mod PrintTests
mod Tests
use model_lib.Base.{
  ℕ, zero, suc, ◌+◌, ◌-◌, ◌*◌, ◌/◌, ◌%◌, ◌^◌, Bool, true, false, not, ◌==◌, ◌&&◌, ◌||◌, ltb, leb,
  if◌then◌else◌, u32, Option, none, some, List, [], ◌∷◌, ◌++◌, get_or, update, is_some,
}
use model_lib.Fs.Layout.{
  Block, Bytes, Partition, Dinode, zeros, dirent_size, null_inum, t_reg, t_dir,
}
use model_lib.Fs.State.{Fs, Run, ok, panicked, Cmd, pure, ◌>>=◌, ◌>>◌, assert, inside}
use model_lib.Fs.Inode.{fs_geti}
use model_lib.Fs.Rw.{fs_read}
use model_lib.Fs.Dir.{entry_inum, entry_name, field_bytes}
use model_lib.Fs.Path.{fs_lookup}
use model_lib.Fs.Format.{fs_init}
use model_lib.Ide.Drives.{Drive, Drives, ide_sel, ide_get_partitions}
use model_lib.Text.{isdigit, strlen, text_of, line_of}
use model_lib.Shell.{nextword}

-- The drives, their blocks but for the selected drive, the statics of shell.c, and what has been
-- printed. `none` is -1.
pub record Grab : Type 0 where
  pub ide : Drives
  pub blocks : ℕ → ℕ → Block
  pub rootdrive : Option ℕ
  pub rootpartition : Option ℕ
  pub printed : List ℕ

abbrev print : List ℕ → Grab → Grab
print text g = record g { printed = g.printed ++ text }

-- `ide_sel`, with the blocks of the drive that was selected put away.
abbrev exchanged : Option Drives → Grab → Cmd (Option Grab)
exchanged none g s = ok none s
exchanged (some ide) g s =
    let blocks = update g.blocks g.ide.drive_sel s.disk in
    ok (some (record g { ide = ide; blocks = blocks })) (record s { disk = blocks ide.drive_sel })

pub select : ℕ → Grab → Cmd (Option Grab)
select x g = exchanged (ide_sel x g.ide) g

-- What a command says of a file system: the partition that was mounted, or a failure.
abbrev pub Mounting : Type 0
Mounting = Option (ℕ × ℕ) × Grab

pub mount_entry : ℕ → ℕ → Grab → Partition → Cmd Mounting
mount_entry x y g p =
    if p.nsectors == 0
    then pure (none, g)
    else do mounted ← fs_init p; pure (if mounted then some (x, y) else none, g)

mount_table : ℕ → ℕ → Grab → Option (ℕ → Partition) → Cmd Mounting
mount_table x y g none = pure (none, g)
mount_table x y g (some partitions) = mount_entry x y g (partitions y)

mount_selected : ℕ → ℕ → Grab → Option Grab → Cmd Mounting
mount_selected x y g none = pure (none, g)
mount_selected x y g (some g') = mount_table x y g' (ide_get_partitions g'.ide)

pub mount : ℕ → ℕ → Grab → Cmd Mounting
mount x y g = if leb 4 x || leb 4 y then pure (none, g) else select x g >>= mount_selected x y g

-- `(hdX,Y)`, where the string has seven characters at least.
abbrev is_place : List ℕ → Bool
is_place s =
    get_or s 0 0 == 40
    && get_or s 1 0 == 104
    && get_or s 2 0 == 100
    && isdigit (get_or s 3 0)
    && get_or s 4 0 == 44
    && isdigit (get_or s 5 0)
    && get_or s 6 0 == 41

pub get_xy : List ℕ → Grab → Cmd Mounting
get_xy s g = do
  l ← inside (strlen s)
  if ltb l 7 || not (is_place s)
      then pure (none, g)
      else mount (get_or s 3 0 - 48) (get_or s 5 0 - 48) g

-- `printf("(hd%d,?) ", x)` and `printf("(hd%d,msdos%d) ", x, y)`, for digits.
abbrev no_table_text : ℕ → List ℕ
no_table_text x = 40 ∷ 104 ∷ 100 ∷ (48 + x) ∷ 44 ∷ 63 ∷ 41 ∷ 32 ∷ []

abbrev partition_text : ℕ → ℕ → List ℕ
partition_text x y =
    40 ∷ 104 ∷ 100 ∷ (48 + x) ∷ 44 ∷ 109 ∷ 115 ∷ 100 ∷ 111 ∷ 115 ∷ (48 + y) ∷ 41 ∷ 32 ∷ []

-- The inner loop of `ide_list`, with `rounds` left.
partitions_text : ℕ → ℕ → (ℕ → Partition) → ℕ → List ℕ
partitions_text zero x partitions y = []
partitions_text (suc rounds) x partitions y =
    (if (partitions y).nsectors == 0 then [] else partition_text x y)
    ++ partitions_text rounds x partitions (y + 1)

abbrev drive_text : ℕ → Option (ℕ → Partition) → List ℕ
drive_text x none = no_table_text x
drive_text x (some partitions) = partitions_text 4 x partitions 0

abbrev list_selected : ℕ → Grab → Option Grab → Grab
list_selected x g none = g
list_selected x g (some g') = print (drive_text x (ide_get_partitions g'.ide)) g'

-- The loop of `ide_list`: each drive that exists is selected, the last of them for good.
pub ide_list_loop : ℕ → ℕ → Grab → Cmd Grab
ide_list_loop zero x g = pure (print (10 ∷ []) g)
ide_list_loop (suc rounds) x g = do
  r ← select x g
  ide_list_loop rounds (x + 1) (list_selected x g r)

pub ide_list : Grab → Cmd Grab
unfolding ide_list_loop
ide_list g = ide_list_loop 4 0 g

abbrev listed : Grab → Bytes → Cmd Grab
listed g d =
    if entry_inum d == 0
    then pure g
    else (inside (line_of (entry_name d)) >>= λ line. pure (print line g))

-- The result of `fs_read` that `assert(n >= 0)` lets pass.
abbrev pub counted : Option (ℕ × Bytes) → Cmd (ℕ × Bytes)
counted none s = panicked
counted (some r) s = ok r s

-- The loop of `ls`, on fuel: a loop that goes on beyond it is one that does not end.
pub ls_loop : ℕ → ℕ → ℕ → Bytes → Grab → Cmd Grab
ls_loop zero inum off d g = λ _. panicked
ls_loop (suc fuel) inum off d g = do
  r ← fs_read inum d dirent_size off
  (n, d') ← counted r
  if n == 0 then pure g else listed g d' >>= ls_loop fuel inum (u32 (off + dirent_size)) d'

pub ls_path : ℕ → List ℕ → Grab → Cmd Grab
ls_path fuel path g = do
  inum ← fs_lookup path
  if inum == null_inum then pure g else ls_loop fuel inum 0 zeros g

-- `path += 7`
abbrev behind_place : List ℕ → List ℕ
behind_place (a ∷ b ∷ c ∷ d ∷ e ∷ f ∷ g ∷ path) = path
behind_place path = []

-- A word in its array.
abbrev pub string : List ℕ → List ℕ
string word = word ++ (0 ∷ [])

ls_word : ℕ → Grab → Option (List ℕ) → Cmd Grab
ls_word fuel g none = ide_list g
ls_word fuel g (some word) = do
  (r, g') ← get_xy (string word) g
  if not (is_some r) then pure g' else ls_path fuel (behind_place (string word)) g'

-- The arguments are the null pointer where nothing follows the command.
pub ls : ℕ → Option (List ℕ) → Grab → Cmd Grab
ls fuel args g = do p ← inside args; (word, _) ← inside (nextword p); ls_word fuel g word

-- The loop of `cat`, on fuel. `buf` has 64 characters.
pub cat_loop : ℕ → ℕ → ℕ → Bytes → Grab → Cmd Grab
cat_loop zero inum off buf g = λ _. panicked
cat_loop (suc fuel) inum off buf g = do
  r ← fs_read inum buf 63 off
  (n, buf') ← counted r
  if n == 0 then pure g else do
    text ← inside (text_of (field_bytes buf' 0 n ++ (0 ∷ [])))
    cat_loop fuel inum (u32 (off + n)) (update buf' n 0) (print text g)

cat_file : ℕ → ℕ → Grab → Option Dinode → Cmd Grab
cat_file fuel inum g none = λ _. panicked
cat_file fuel inum g (some di) =
    if not (di.type == t_reg) then pure g else cat_loop fuel inum 0 zeros g

cat_path : ℕ → List ℕ → Grab → Cmd Grab
cat_path fuel path g = do
  inum ← fs_lookup path
  if inum == null_inum then pure g else do r ← fs_geti inum; cat_file fuel inum g r

cat_word : ℕ → Grab → Option (List ℕ) → Cmd Grab
cat_word fuel g none = pure g
cat_word fuel g (some word) = cat_path fuel (string word) g

pub cat : ℕ → Option (List ℕ) → Grab → Cmd Grab
cat fuel args g =
    if not (is_some g.rootdrive)
    then pure g
    else do p ← inside args; (word, _) ← inside (nextword p); cat_word fuel g word
