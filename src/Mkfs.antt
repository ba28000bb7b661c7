-- ===== src/Mkfs.antt =====
-- The tool mkfs/mkfs.c: the commands on a file system in an image, on top of the model of fs/fs.c.
-- The C library of the host is modelled by what the tool uses of it: the files that `open`, `read`
-- and `write` work on, by name, and what goes to the standard output but for messages of failure.
-- An array of characters is a list with its terminating zero, as in `Text`; a line has at most 63
-- characters, so that each word fits its array.
pub mod Words
pub mod Retrieve
pub mod Command
pub mod Image
pub mod Copied
pub mod Migrate
pub mod RoundTrip
pub mod Choice
mod Tests
use model_lib.Base.{
  ℕ, zero, suc, ◌+◌, ◌-◌, ◌*◌, ◌/◌, ◌%◌, ◌^◌, Bool, true, false, not, ◌==◌, ◌&&◌, ◌||◌, ltb, leb,
  if◌then◌else◌, u8, u32, Option, none, some, List, [], ◌∷◌, ◌++◌, length, min,
}
use model_lib.Fs.Layout.{Bytes, zeros, splice, dirent_size, max_name, null_inum, t_reg, t_dir}
use model_lib.Fs.State.{Run, panicked, Cmd, pure, ◌>>=◌, ◌>>◌, in_bounds, inside}
use model_lib.Fs.Rw.{fs_read, fs_write}
use model_lib.Fs.Dir.{entry_inum, entry_name, field_bytes}
use model_lib.Fs.Path.{fs_lookup, fs_mknod}
use model_lib.Text.{line_of}

-- The files of the host by name, whether `open` may create or truncate a file, and what the tool has
-- printed.
pub record Host : Type 0 where
  pub files : List ℕ → Option (List ℕ)
  pub may_create : List ℕ → Bool
  pub printed : List ℕ

abbrev pub same_name : List ℕ → List ℕ → Bool
same_name [] [] = true
same_name [] (d ∷ ds) = false
same_name (c ∷ cs) [] = false
same_name (c ∷ cs) (d ∷ ds) = c == d && same_name cs ds

abbrev pub set_file : Host → List ℕ → List ℕ → Host
set_file h name bytes = record h { files = λ n. if same_name n name then some bytes else h.files n }

abbrev pub print : List ℕ → Host → Host
print text h = record h { printed = h.printed ++ text }

-- `isspace` and `isprint` of the host.
abbrev pub isspace : ℕ → Bool
isspace c = c == 32 || leb 9 c && leb c 13

abbrev pub isprint : ℕ → Bool
isprint c = leb 32 c && leb c 126

-- `for (; *s && isspace(*s); s++)`
pub skip_spaces : List ℕ → Option (List ℕ)
skip_spaces [] = none
skip_spaces (c ∷ s) =
    let rest = skip_spaces s in if not (c == 0) && isspace c then rest else some (c ∷ s)

abbrev cons_word : ℕ → Option (List ℕ × List ℕ) → Option (List ℕ × List ℕ)
cons_word c none = none
cons_word c (some (word, rest)) = some (c ∷ word, rest)

-- `for (; *s && !isspace(*s); s++, i++)`: the word, and the array behind it.
pub take_word : List ℕ → Option (List ℕ × List ℕ)
take_word [] = none
take_word (c ∷ s) =
    let rest = take_word s in
    if not (c == 0) && not (isspace c) then cons_word c rest else some ([], c ∷ s)

abbrev word_found : Option (List ℕ × List ℕ) → Option (Option (List ℕ × List ℕ))
word_found none = none
word_found (some r) = some (some r)

abbrev next_found : Option (List ℕ) → Option (Option (List ℕ × List ℕ))
next_found none = none
next_found (some []) = none
next_found (some (c ∷ s)) = if c == 0 then some none else word_found (take_word (c ∷ s))

-- The outer `none` is a read past the array, the inner one the null pointer.
pub nextword : List ℕ → Option (Option (List ℕ × List ℕ))
nextword s = next_found (skip_spaces s)

-- A string as a function gets it.
abbrev pub string : List ℕ → List ℕ
string word = word ++ (0 ∷ [])

abbrev listed : Host → Bytes → Cmd Host
listed h d =
    if entry_inum d == 0
    then pure h
    else (inside (line_of (entry_name d)) >>= λ line. pure (print line h))

-- The loop of `do_ls`, on fuel: a loop that goes on beyond it is one that does not end. A read that
-- fails leaves `d` with nothing in it.
ls_loop : ℕ → ℕ → ℕ → Bytes → Host → Cmd Host
ls_loop zero inum off d h = λ _. panicked
ls_loop (suc fuel) inum off d h = do
  r ← fs_read inum d dirent_size off
  (n, d') ← inside r
  if n == 0 then pure h else listed h d' >>= ls_loop fuel inum (u32 (off + dirent_size)) d'

ls_path : ℕ → Host → List ℕ → Cmd Host
ls_path fuel h path = do
  inum ← fs_lookup (string path)
  if inum == null_inum then pure h else ls_loop fuel inum 0 zeros h

pub do_ls : ℕ → List ℕ → Host → Cmd Host
do_ls fuel s h = do
  r ← inside (nextword s)
  elim r [ none ↦ pure h | some (path, _) ↦ ls_path fuel h path ]

-- What is written to the file system must be there: `fs_write` returns 1.
abbrev written_one : Option (ℕ × Bytes) → Bool
written_one none = false
written_one (some (n, _)) = n == 1

-- The loop of `do_migrate`, over the bytes of the host's file. `panic` does not return.
pub migrate_loop : ℕ → ℕ → List ℕ → Cmd (Unit {0})
migrate_loop inum off [] = pure tt
migrate_loop inum off (c ∷ bytes) =
    let rest = migrate_loop inum (u32 (off + 1)) bytes in
    do r ← fs_write inum (λ i. c) 1 off; if written_one r then rest else (λ _. panicked)

pub migrate_file : ℕ → Option (List ℕ) → Cmd (Unit {0})
migrate_file inum none = pure tt
migrate_file inum (some bytes) = migrate_loop inum 0 bytes

-- `do_migrate` with its two words.
migrate : List ℕ → List ℕ → Host → Cmd Host
migrate host_path path h = do
  found ← fs_lookup (string path)
  if not (found == null_inum) then pure h else do
    inum ← fs_mknod (string path) t_reg
    if inum == null_inum then (λ _. panicked) else migrate_file inum (h.files host_path) >> pure h

abbrev two_words : Option (Option (List ℕ × List ℕ)) → Option (Option (List ℕ × List ℕ))
two_words none = none
two_words (some none) = some none
two_words (some (some (first, s))) = paired (nextword s)
  where
    paired : Option (Option (List ℕ × List ℕ)) → Option (Option (List ℕ × List ℕ))
    paired none = none
    paired (some none) = some none
    paired (some (some (second, _))) = some (some (first, second))

pub do_migrate : List ℕ → Host → Cmd Host
do_migrate s h = do
  r ← inside (two_words (nextword s))
  elim r [ none ↦ pure h | some (host_path, path) ↦ migrate host_path path h ]

-- The loop of `do_retrieve`, on fuel: the bytes written to the host's file. A read that fails leaves
-- `c` with nothing in it.
pub retrieve_loop : ℕ → ℕ → ℕ → Bytes → List ℕ → Cmd (List ℕ)
retrieve_loop zero inum off c bytes = λ _. panicked
retrieve_loop (suc fuel) inum off c bytes = do
  r ← fs_read inum c 1 off
  (n, c') ← inside r
  if n == 0 then pure bytes else retrieve_loop fuel inum (u32 (off + 1)) c' (bytes ++ (c' 0 ∷ []))

-- `do_retrieve` with its two words. The file of the host is truncated when it is opened.
pub retrieve : ℕ → List ℕ → List ℕ → Host → Cmd Host
retrieve fuel path host_path h = do
  inum ← fs_lookup (string path)
  if inum == null_inum
      then pure h
      else if not (h.may_create host_path)
      then pure h
      else do bytes ← retrieve_loop fuel inum 0 zeros []; pure (set_file h host_path bytes)

pub do_retrieve : ℕ → List ℕ → Host → Cmd Host
do_retrieve fuel s h = do
  r ← inside (two_words (nextword s))
  elim r [ none ↦ pure h | some (path, host_path) ↦ retrieve fuel path host_path h ]
