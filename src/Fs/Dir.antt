-- ===== src/Fs/Dir.antt =====
-- The directories of fs/fs.c: `dir_lookup`, `fs_lookup`, `getname` and `fs_mknod`. A path is the
-- array of bytes behind a `char *`, with its terminating zero, as in `Text`. The tests for null
-- pointers and the diagnostics of `fs.printf` are left out.
pub mod Lookup
pub mod Kept
pub mod Samples
mod Tests
use model_lib.Base.{
  ℕ, zero, suc, ◌+◌, ◌-◌, ◌*◌, ◌/◌, ◌%◌, Bool, true, false, not, ◌==◌, ◌&&◌, ◌||◌, ltb, leb,
  if◌then◌else◌, u32, u16, Option, none, some, is_some, List, [], ◌∷◌, ◌++◌, length, get_or, take,
  drop, min,
}
use model_lib.Fs.Layout.{
  Bytes, Dinode, zeros, get_u16, byte_of, splice, dirent_size, max_name, max_path, null_inum,
  root_inum, t_dir,
}
use model_lib.Fs.State.{Fs, Run, panicked, Cmd, pure, ◌>>=◌, ◌>>◌, get, assert, in_bounds, inside}
use model_lib.Fs.Inode.{read_inode, write_inode, alloc_inode, free_inode}
use model_lib.Fs.Rw.{fs_read, fs_write}
use model_lib.Text.{Sign, less, equal, greater, strcmp, strlen, strnlen, strncpy}

-- The `n` bytes of an array from offset `o` on.
unfoldable pub field_bytes : Bytes → ℕ → ℕ → List ℕ
field_bytes b o zero = []
field_bytes b o (suc n) = b o ∷ field_bytes b (o + 1) n

-- `de.name` and `de.inum` of a `struct dirent`.
abbrev pub entry_name : Bytes → List ℕ
entry_name de = field_bytes de 2 max_name

abbrev pub entry_inum : Bytes → ℕ
entry_inum de = get_u16 de 0

-- Has `fs_read` returned `sizeof de`, and what it left in `de`.
abbrev whole_entry : Option (ℕ × Bytes) → Bool
whole_entry none = false
whole_entry (some (n, de)) = n == dirent_size

abbrev read_entry : Option (ℕ × Bytes) → Bytes
read_entry none = zeros
read_entry (some (n, de)) = de

abbrev is_equal : Sign → Bool
is_equal less = false
is_equal equal = true
is_equal greater = false

-- The loop of `dir_lookup` with `rounds` left: the result, and the offset for `*poff` if it is set.
dir_loop : ℕ → ℕ → List ℕ → ℕ → Cmd (ℕ × Option ℕ)
dir_loop zero inum name off = pure (null_inum, none)
dir_loop (suc rounds) inum name off =
    let rest = dir_loop rounds inum name (u32 (off + dirent_size)) in
    do
      r ← fs_read inum zeros dirent_size off
      assert (whole_entry r)
      sign ← inside (strcmp name (entry_name (read_entry r)))
      if is_equal sign then pure (entry_inum (read_entry r), some off) else rest

-- `dir_lookup` once the inode is read.
dir_lookup_at : ℕ → List ℕ → Option Dinode → Cmd (ℕ × Option ℕ)
dir_lookup_at inum name none = λ _. panicked
dir_lookup_at inum name (some di) =
    if di.type == t_dir
    then dir_loop (di.size / dirent_size) inum name 0
    else pure (null_inum, none)

pub dir_lookup : ℕ → List ℕ → Cmd (ℕ × Option ℕ)
dir_lookup inum name = do r ← read_inode inum; dir_lookup_at inum name r
