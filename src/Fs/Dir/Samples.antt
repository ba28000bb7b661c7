-- ===== src/Fs/Dir/Samples.antt =====
-- A directory of two entries, `ab` with inode 5 and `c` with inode 9. Inode 0 is reserved.
use model_lib.Base.{
  Bool-cases, inl, inr, ℕ, zero, suc, ◌/◌, ◌<◌, ◌≡◌, refl, arith, true, if◌then◌else◌, ◌==◌, List,
  [], ◌∷◌,
}
use model_lib.Fs.Layout.{Dinode, Bytes, zeros, splice, get_inode, put_inode, dinode_byte}
use model_lib.Fs.State.{Fs}
use model_lib.Fs.Samples.{super}
use model_lib.Fs.Inode.{new_inode}
use model_lib.Fs.Inode.Access.{Mounted}
use model_lib.Fs.Rw.View.{file_block}
use model_lib.Fs.Rw.Read.{AllBytes}
use model_lib.Fs.Rw.FileWrite.{put_inode-bytes}
use model_lib.Text.Compare.{Chars, chars_end, chars_next, terminated}
use model_lib.Fs.Dir.{field_bytes, entry_name}
use model_lib.Fs.Dir.Lookup.{Directory, entry_at}

abbrev entries : Bytes
entries i =
    if i == 0
    then 5
    else if i == 2
    then 97
    else if i == 3
    then 98
    else if i == 16
    then 9
    else if i == 18
    then 99
    else 0

-- A bitmap with its first four bits set, which are those of the blocks 57 to 60.
abbrev pub used_blocks : Bytes
used_blocks i = if i == 0 then 15 else 0

abbrev pub directory_inode : Dinode
directory_inode = record {
  type = 2;
  major = 0;
  minor = 0;
  linkcnt = 1;
  size = 32;
  ptrs = λ i. if i == 0 then 60 else 0;
}

abbrev pub two_entries : Fs
two_entries = record {
  init = true;
  su = super;
  disk = λ n.
      if n == 31
      then put_inode (put_inode zeros 0 (new_inode 2)) 1 directory_inode
      else if n == 60
      then entries
      else if n == 56
      then used_blocks
      else zeros;
}

pub two_entries-Mounted : Mounted two_entries
two_entries-Mounted = record { init = refl; no_wrap = omega arith }

pub two_entries-AllBytes : AllBytes two_entries
two_entries-AllBytes n i = elim (Bool-cases (n == 31)) [
  | inl inodes ↦ rw inodes (
      put_inode-bytes (put_inode zeros 0 (new_inode 2)) 1 directory_inode
        (put_inode-bytes zeros 0 (new_inode 2) (λ j. omega arith)) i)
  | inr other ↦ elim (Bool-cases (n == 60)) [
    | inl data_block ↦ rw (other, data_block) (ground arith)
    | inr rest ↦ rw (other, rest) (ground arith)
  ]
]

abbrev pub names : ℕ → List ℕ
names zero = 97 ∷ 98 ∷ []
names (suc k) = 99 ∷ []

abbrev pub pad : ℕ → List ℕ
pad zero = 0 ∷ 0 ∷ 0 ∷ 0 ∷ 0 ∷ 0 ∷ 0 ∷ 0 ∷ 0 ∷ 0 ∷ 0 ∷ []
pad (suc k) = 0 ∷ 0 ∷ 0 ∷ 0 ∷ 0 ∷ 0 ∷ 0 ∷ 0 ∷ 0 ∷ 0 ∷ 0 ∷ 0 ∷ []

pub names-Chars : (k : ℕ) → Chars (names k)
names-Chars zero =
    chars_next (omega arith) (omega arith) (chars_next (omega arith) (omega arith) chars_end)
names-Chars (suc k) = chars_next (omega arith) (omega arith) chars_end

named : (k : ℕ) → k < 2 → entry_name (entry_at two_entries 1 k) ≡ terminated (names k) (pad k)
unfolding field_bytes terminated file_block get_inode put_inode splice dinode_byte
named zero h = refl
named (suc zero) h = refl
named (suc (suc k)) h = absurd (omega arith)

pub two_entries-Directory : Directory two_entries 1 names
unfolding file_block get_inode put_inode splice dinode_byte
two_entries-Directory = record {
  in_range = omega arith;
  type = refl;
  small = omega arith;
  mapped = λ o h. let e : o / 512 ≡ 0 = omega arith in rw e (omega arith);
  pad = pad;
  named = named;
  chars = λ k h. names-Chars k;
}
