-- ===== src/Shell/Commands/Setting.antt =====
-- `set` and `process_command` of grab/shell.c. What `boot` does is an argument of `process_command`.
use model_lib.Base.{
  ℕ, Bool, true, false, not, ◌==◌, if◌then◌else◌, Option, none, some, List, [], ◌∷◌,
}
use model_lib.Fs.Layout.{Dinode, null_inum, t_dir}
use model_lib.Fs.State.{Cmd, panicked, pure, ◌>>=◌, inside}
use model_lib.Fs.Inode.{fs_geti}
use model_lib.Fs.Path.{fs_lookup}
use model_lib.Text.{Sign, equal, strncmp}
use model_lib.Shell.{nextword}
use model_lib.Shell.Commands.{Grab, Mounting, get_xy, ls, string}

-- `for (int i = 0; args[i]; i++) if (args[i] == '=') args[i] = ' ';`
abbrev spaced : List ℕ → List ℕ
spaced [] = []
spaced (c ∷ s) = let rest = spaced s in if c == 0 then c ∷ s else (if c == 61 then 32 else c) ∷ rest

abbrev is_equal : Sign → Bool
is_equal equal = true
is_equal _ = false

-- `"/boot"` and the names of the commands and of the variable, in ASCII.
abbrev boot_path : List ℕ
boot_path = 47 ∷ 98 ∷ 111 ∷ 111 ∷ 116 ∷ 0 ∷ []

abbrev root_name : List ℕ
root_name = 114 ∷ 111 ∷ 111 ∷ 116 ∷ 0 ∷ []

abbrev ls_name : List ℕ
ls_name = 108 ∷ 115 ∷ 0 ∷ []

abbrev boot_name : List ℕ
boot_name = 98 ∷ 111 ∷ 111 ∷ 116 ∷ 0 ∷ []

abbrev set_name : List ℕ
set_name = 115 ∷ 101 ∷ 116 ∷ 0 ∷ []

-- `/boot` must be a directory that is not empty.
root_if : ℕ × ℕ → Grab → Option Dinode → Cmd Grab
root_if xy g none = λ _. panicked
root_if (x, y) g (some di) =
    if not (di.type == t_dir)
    then pure g
    else if di.size == 0
    then pure g
    else pure (record g { rootdrive = some x; rootpartition = some y })

set_root : Mounting → Cmd Grab
set_root (none, g) = pure g
set_root (some xy, g) = do
  inum ← fs_lookup boot_path
  if inum == null_inum then pure g else do r ← fs_geti inum; root_if xy g r

set_value : List ℕ → Grab → Option (List ℕ) → Cmd Grab
set_value name g none = pure g
set_value name g (some value) = do
  sign ← inside (strncmp root_name (string name) 4)
  if is_equal sign then get_xy (string value) g >>= set_root else pure g

set_name_and : Grab → Option (List ℕ) → Option (List ℕ) → Cmd Grab
set_name_and g rest none = pure g
set_name_and g rest (some name) = do
  p ← inside rest
  (value, _) ← inside (nextword p)
  set_value name g value

pub set : Option (List ℕ) → Grab → Cmd Grab
set args g = do
  p ← inside args
  (name, rest) ← inside (nextword (spaced p))
  set_name_and g rest name

run_word : ℕ → (Grab → Cmd Grab) → Option (List ℕ) → Grab → Option (List ℕ) → Cmd Grab
run_word fuel boot next g none = pure g
run_word fuel boot next g (some this) = do
  is_ls ← inside (strncmp ls_name (string this) 2)
  if is_equal is_ls then ls fuel next g else do
    is_boot ← inside (strncmp boot_name (string this) 4)
    if is_equal is_boot then boot g else do
      is_set ← inside (strncmp set_name (string this) 3)
      if is_equal is_set then set next g else pure g

pub process_command : ℕ → (Grab → Cmd Grab) → List ℕ → Grab → Cmd Grab
process_command fuel boot cmd g = do
  (this, next) ← inside (nextword cmd)
  run_word fuel boot next g this
