-- ===== src/Fs/Path.antt =====
-- The paths of fs/fs.c: `fs_lookup`, `getname` and `fs_mknod`. A path is the array of bytes behind a
-- `char *`, with its terminating zero, as in `Text`. The tests for null pointers and the diagnostics
-- of `fs.printf` are left out.
pub mod Names
pub mod Entry
pub mod Linked
pub mod Entered
pub mod Searched
pub mod Made
pub mod Mknod
pub mod Getname
pub mod Samples
mod MknodTests
pub mod Fuel
mod Tests
use model_lib.Base.{
  ℕ, zero, suc, ◌+◌, ◌-◌, ◌*◌, ◌/◌, ◌%◌, Bool, true, false, not, ◌==◌, ◌&&◌, ◌||◌, ltb, leb,
  if◌then◌else◌, u32, u16, Option, none, some, is_some, List, [], ◌∷◌, ◌++◌, length, get_or, take,
  drop,
}
use model_lib.Fs.Layout.{
  Bytes, Dinode, zeros, get_u16, byte_of, splice, dirent_size, max_name, max_path, null_inum,
  root_inum, t_dir,
}
use model_lib.Fs.State.{Fs, Run, panicked, Cmd, pure, ◌>>=◌, ◌>>◌, get, assert, in_bounds, inside}
use model_lib.Fs.Inode.{read_inode, write_inode, alloc_inode, free_inode, new_inode}
use model_lib.Fs.Rw.{fs_write}
use model_lib.Fs.Dir.{dir_lookup}
use model_lib.Text.{strlen, strnlen, strncpy}

abbrev pub slash : ℕ
slash = 47

-- What the inner loop of `fs_lookup` leaves: it runs off the array, returns because the name has
-- more than 14 characters, or has the name and the rest of the path.
pub data NextName : Type 0 where
  off_path too_long : NextName
  next_name : List ℕ → List ℕ → NextName

abbrev cons_name : ℕ → NextName → NextName
cons_name c off_path = off_path
cons_name c too_long = too_long
cons_name c (next_name name rest) = next_name (c ∷ name) rest

-- The inner loop, with the length `l` of the name so far.
pub copy_name : ℕ → List ℕ → NextName
copy_name l [] = off_path
copy_name l (c ∷ path) =
    let rest = copy_name (l + 1) path in
    if c == 0 || c == slash
    then next_name [] (c ∷ path)
    else if leb max_name l
    then too_long
    else cons_name c rest

pub skip_slashes : List ℕ → Option (List ℕ)
skip_slashes [] = none
skip_slashes (c ∷ path) =
    let rest = skip_slashes path in if c == slash then rest else some (c ∷ path)

-- One round of the loop of `fs_lookup` after the name is copied; `again` is the next round. The name
-- is terminated in its array of 14 characters.
lookup_name : ℕ → (ℕ → List ℕ → Cmd ℕ) → NextName → Cmd ℕ
lookup_name inum again off_path = inside none
lookup_name inum again too_long = pure null_inum
lookup_name inum again (next_name name path) = do
  in_bounds (ltb (length name) max_name)
  path' ← inside (skip_slashes path)
  (found, _) ← dir_lookup inum (name ++ (0 ∷ []))
  if found == null_inum then pure null_inum else again found path'

-- The loop, on fuel: each round takes a character at least.
pub lookup_loop : ℕ → ℕ → List ℕ → Cmd ℕ
lookup_loop fuel inum [] = inside none
lookup_loop zero inum (c ∷ path) = pure inum
lookup_loop (suc fuel) inum (c ∷ path) =
    if c == 0 then pure inum else lookup_name inum (lookup_loop fuel) (copy_name 0 (c ∷ path))

-- `fs_lookup` once the length is known.
lookup_from_root : List ℕ → Cmd ℕ
lookup_from_root [] = inside none
lookup_from_root (c ∷ path) =
    if c == slash then lookup_loop (length path) root_inum path else pure null_inum

pub fs_lookup : List ℕ → Cmd ℕ
fs_lookup path = do
  l ← inside (strnlen path max_path)
  if ltb (max_path - 1) l then pure null_inum else lookup_from_root path

-- `for (; p != path && p[0] == '/'; p--)`, from the index `p`.
pub back_over_slashes : List ℕ → ℕ → ℕ
back_over_slashes path zero = 0
back_over_slashes path (suc p) =
    let back = back_over_slashes path p in if get_or path (suc p) 0 == slash then back else suc p

-- `for (; p != path && p[0] != '/'; p--)`, from the index `p`.
pub back_over_name : List ℕ → ℕ → ℕ
back_over_name path zero = 0
back_over_name path (suc p) =
    let back = back_over_name path p in if get_or path (suc p) 0 == slash then suc p else back

-- The end of `getname`, for the index `start` of the name and the index `last` of its end: the
-- strings for `name` and for `parent`.
pub split_path : List ℕ → ℕ → ℕ → Option (List ℕ × List ℕ)
split_path path last start =
    if ltb (max_name - 1) (last + 1 - start)
    then none
    else some (take (last + 1 - start) (drop start path), take start path)

-- `getname` of a path of length `len`.
pub getname_of : List ℕ → ℕ → Option (List ℕ × List ℕ)
getname_of path zero = none
getname_of path (suc len) =
    let last = back_over_slashes path len in
    let start = back_over_name path last in
    if last == 0 && not (suc len == 1)
    then none
    else split_path path last (if get_or path start 0 == slash then start + 1 else start)

-- The array for `parent` has `max_path` characters.
abbrev pub parent_fits : Option (List ℕ × List ℕ) → Cmd (Option (List ℕ × List ℕ))
parent_fits none = pure none
parent_fits (some (name, parent)) =
    in_bounds (ltb (length parent) max_path) >> pure (some (name, parent))

-- `none` where the source returns 0.
pub getname : List ℕ → Cmd (Option (List ℕ × List ℕ))
getname path = do len ← inside (strlen path); parent_fits (getname_of path len)

-- `de.inum = inum; strncpy(de.name, name, MAXNAME);`
pub new_entry : ℕ → List ℕ → Cmd Bytes
new_entry inum name =
    inside (strncpy (splice zeros 0 2 (byte_of (u16 inum))) 2 (name ++ (0 ∷ [])) max_name)

abbrev whole_write : Option (ℕ × Bytes) → Bool
whole_write none = false
whole_write (some (n, _)) = n == dirent_size

abbrev inode_or : Dinode → Option Dinode → Dinode
inode_or d none = d
inode_or d (some e) = e

-- The link count of the inode `n` is increased; `di` is what the structure holds before.
pub count_link : ℕ → Dinode → Cmd ℕ
count_link n di = do
  r ← read_inode n
  let d = inode_or di r
  write_inode n (record d { linkcnt = u16 (d.linkcnt + 1) })
  pure n

-- `fs_mknod` once the parent `n` is known to be a directory without the name.
pub make_node : ℕ → Dinode → List ℕ → ℕ → Cmd ℕ
make_node n di name type = do
  inum ← alloc_inode type
  if u16 inum == null_inum then pure null_inum else do
    de ← new_entry inum name
    r ← fs_write n de dirent_size di.size
    if whole_write r then count_link (u16 inum) di else free_inode (u16 inum) >> pure null_inum

-- `fs_mknod` once the parent is found.
pub mknod_in : ℕ → List ℕ → ℕ → Option Dinode → Cmd ℕ
mknod_in n name type none = λ _. panicked
mknod_in n name type (some di) = if not (di.type == t_dir) then pure null_inum else do
  (found, _) ← dir_lookup n (name ++ (0 ∷ []))
  if not (found == null_inum) then pure null_inum else make_node n di name type

pub mknod_named : ℕ → Option (List ℕ × List ℕ) → Cmd ℕ
mknod_named type none = pure null_inum
mknod_named type (some (name, parent)) = do
  n ← fs_lookup (parent ++ (0 ∷ []))
  if n == null_inum then pure null_inum else do r ← read_inode n; mknod_in n name type r

pub fs_mknod : List ℕ → ℕ → Cmd ℕ
fs_mknod path type = do r ← getname path; mknod_named type r
