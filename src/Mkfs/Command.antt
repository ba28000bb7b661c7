-- ===== src/Mkfs/Command.antt =====
-- The commands `read`, `write`, `mkdir` and `touch` of mkfs/mkfs.c, and the loop of `main` over the
-- lines that are typed. `strtol` and `strncmp` are those of the host.
use model_lib.Base.{
  ℕ, zero, suc, ◌+◌, ◌-◌, ◌*◌, ◌%◌, ◌^◌, Bool, ◌==◌, ◌&&◌, ◌||◌, ltb, leb, if◌then◌else◌, u32,
  Option, none, some, List, [], ◌∷◌, ◌++◌, min,
}
use model_lib.Fs.Layout.{Bytes, zeros, splice, null_inum}
use model_lib.Fs.State.{panicked, Cmd, pure, ◌>>=◌, ◌>>◌, in_bounds, inside}
use model_lib.Fs.Rw.{fs_read, fs_write}
use model_lib.Fs.Path.{fs_lookup, fs_mknod}
use model_lib.Mkfs.{Host, isprint, print, string, nextword}

-- The digits at the start of a string, as a number.
abbrev digits_value : List ℕ → ℕ → ℕ
digits_value [] v = v
digits_value (c ∷ s) v =
    let rest = digits_value s (v * 10 + (c - 48)) in if leb 48 c && leb c 57 then rest else v

-- `(uint32_t)strtol(s, &p, 10)` of a word, with a `long` of 64 bits that saturates. It leaves `p` in
-- the string, so the test for a null pointer that follows does not fail.
abbrev strtol : List ℕ → ℕ
strtol [] = 0
strtol (c ∷ s) =
    if c == 45
    then u32 (2 ^ 32 - min (digits_value s 0) (2 ^ 63) % 2 ^ 32)
    else if c == 43
    then u32 (min (digits_value s 0) (2 ^ 63 - 1))
    else u32 (min (digits_value (c ∷ s) 0) (2 ^ 63 - 1))

-- `min(64, sz)` for the pattern of an `int`.
abbrev at_most_64 : ℕ → ℕ
at_most_64 sz = if ltb sz (2 ^ 31) && ltb 64 sz then 64 else sz

-- The `int` that `fs_read` or `fs_write` returns, as a pattern, and the buffer.
abbrev returned : Bytes → Option (ℕ × Bytes) → ℕ × Bytes
returned buf none = (0xffffffff, buf)
returned buf (some r) = r

-- What the loop over the bytes prints, with `rounds` of them left.
abbrev shown : ℕ → Bytes → ℕ → List ℕ
shown zero buf i = []
shown (suc rounds) buf i =
    (if isprint (buf i) then buf i ∷ [] else 0xfd ∷ 10 ∷ []) ++ shown rounds buf (i + 1)

-- A word in the array `buf`.
abbrev copied : Bytes → List ℕ → ℕ → Bytes
copied buf [] i = splice buf i 1 zeros
copied buf (c ∷ word) i = copied (splice buf i 1 (λ _. c)) word (i + 1)

-- `do_read` once the path, the size and the offset are known: `buf` has 64 bytes.
pub read_or_write : List ℕ → ℕ → ℕ → Bytes → Bool → Host → Cmd Host
read_or_write path sz off buf w h = do
  inum ← fs_lookup (string path)
  if inum == null_inum then pure h else if w then written inum else printed inum
  where
    written : ℕ → Cmd Host
    written inum = do
      r ← fs_write inum buf (at_most_64 sz) off
      if (returned buf r).0 == at_most_64 sz then pure h else (λ _. panicked)

    -- A count that is negative as an `int` ends the loop at once.
    printed : ℕ → Cmd Host
    printed inum = do
      r ← fs_read inum buf (at_most_64 sz) off
      in_bounds (leb (returned buf r).0 64 || leb (2 ^ 31) (returned buf r).0)
      pure (
          print
            (if leb (returned buf r).0 64
              then shown (returned buf r).0 (returned buf r).1 0
              else [])
            h)

-- The words of `do_read`, taken one after the other; a missing word ends the command. `buf` holds
-- what the array holds before.
pub do_read : List ℕ → Bytes → Bool → Host → Cmd Host
do_read s buf w h = do
  first ← inside (nextword s)
  elim first [
    | none ↦ pure h
    | some (path, s') ↦ (do
      second ← inside (nextword s')
      elim second [
        | none ↦ pure h
        | some (size, s'') ↦ (do
          third ← inside (nextword s'')
          elim third [
            | none ↦ pure h
            | some (offset, _) ↦
                read_or_write path (strtol size) (strtol offset)
                  (copied (copied buf size 0) offset 0) w h
          ])
      ])
  ]

-- `do_mkdir` and `do_touch`: without a word, the array `path` keeps what it held, `stale`, and is
-- used all the same.
pub make : List ℕ → List ℕ → ℕ → Cmd (Unit {0})
make s stale type = do
  r ← inside (nextword s)
  fs_mknod (elim r [ none ↦ stale | some (path, _) ↦ string path ]) type
  pure tt
