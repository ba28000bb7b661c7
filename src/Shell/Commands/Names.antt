-- ===== src/Shell/Commands/Names.antt =====
-- `ls` of grab/shell.c prints the names of a directory.
use mathlib.Core.List.{append-nil, append_assoc}
use model_lib.Base.{
  ℕ, zero, suc, ◌+◌, ◌-◌, ◌*◌, ◌/◌, ◌<◌, ◌≡◌, ◌≢◌, refl, arith, ap, ◌∙◌, sym, ◌==◌, false, u32,
  some, List, [], ◌∷◌, ◌++◌, min, if◌then◌else◌, Bool-cases, inl, inr,
}
use model_lib.Fs.Layout.{Bytes, zeros}
use model_lib.Fs.State.{Fs, ok}
use model_lib.Fs.Inode.Access.{inode_at, Mounted}
use model_lib.Fs.Rw.{fs_read}
use model_lib.Fs.Rw.Read.{AllBytes}
use model_lib.Fs.Rw.FileRead.{fs_read-content}
use model_lib.Fs.Dir.{entry_name, entry_inum}
use model_lib.Fs.Dir.Lookup.{Directory, entry_at, field_bytes-cong}
use model_lib.Fs.Path.{fs_lookup}
use model_lib.Text.{line_of}
use model_lib.Text.Compare.{Chars, chars_next, terminated}
use model_lib.Shell.Commands.{Grab, ls_loop, ls_path, listed, print}

line_of-terminated :
    (name pad : List ℕ) → Chars name → line_of (terminated name pad) ≡ some (name ++ (10 ∷ []))
unfolding line_of terminated
line_of-terminated [] pad cs = refl
line_of-terminated (c ∷ name) pad (chars_next lo hi cs) =
    let there : (c == 0) ≡ false = ground arith in rw (there, line_of-terminated name pad cs) refl

ls_loop-round :
    (fuel inum off : ℕ) (c de : Bytes) (g h : Grab) (s : Fs)
    → fs_read inum c 16 off s ≡ ok (some (16, de)) s
    → listed g de s ≡ ok h s
    → ls_loop (suc fuel) inum off c g s ≡ ls_loop fuel inum (u32 (off + 16)) de h s
unfolding ls_loop
ls_loop-round fuel inum off c de g h s run print = rw (run, print) refl

-- The lines for `rounds` entries from entry `k` on: a name for each entry in use.
unfoldable pub name_lines : Fs → ℕ → (ℕ → List ℕ) → ℕ → ℕ → List ℕ
name_lines s inum names k zero = []
name_lines s inum names k (suc rounds) =
    (if entry_inum (entry_at s inum k) == 0 then [] else names k ++ (10 ∷ []))
    ++ name_lines s inum names (k + 1) rounds

module _ (s : Fs) (inum : ℕ) (names : ℕ → List ℕ) (m : Mounted s) (bytes : AllBytes s)
    (d : Directory s inum names) where
  abbrev size : ℕ
  size = (inode_at s inum).size

  -- A round reads entry `k`.
  read_entry :
      (k : ℕ) (c : Bytes)
      → k < size / 16
      → (de : Bytes) × (fs_read inum c 16 (16 * k) s ≡ ok (some (16, de)) s)
        × (entry_name de ≡ terminated (names k) (d.pad k))
        × (entry_inum de ≡ entry_inum (entry_at s inum k))
  read_entry k c h =
      let (de, run, filled) =
        fs_read-content s inum 16 (16 * k) c m bytes d.in_range d.small (omega arith)
          (omega (arith, d.small)) (λ o lo hi lt. d.mapped o lt) in
      let all : min 16 (size - 16 * k) ≡ 16 = omega arith in
      let agree : (i : ℕ) → i < 16 → de i ≡ entry_at s inum k i =
        λ i lt. filled i ∙ rw all (ground arith) in
      let fields : entry_name de ≡ entry_name (entry_at s inum k) =
        field_bytes-cong de (entry_at s inum k) 2 14 (λ i lt. agree i (omega arith)) in
      (
        de,
        rw all at run,
        fields ∙ d.named k h,
        omega (arith, agree 0 (omega arith), agree 1 (omega arith)),
      )

  -- What a round prints.
  listed-name :
      (k : ℕ) (de : Bytes) (g : Grab)
      → k < size / 16
      → entry_name de ≡ terminated (names k) (d.pad k)
      → entry_inum de ≡ entry_inum (entry_at s inum k)
      → listed g de s
        ≡ ok
            (record g {
              printed =
                  g.printed
                  ++ (if entry_inum (entry_at s inum k) == 0 then [] else names k ++ (10 ∷ []));
            })
            s
  listed-name k de g h name inode = elim (Bool-cases (entry_inum (entry_at s inum k) == 0)) [
    | inl free ↦
        rw (inode, free) (ap (λ l. ok (record g { printed = l }) s) (sym (append-nil g.printed)))
    | inr used ↦ rw (inode, used, name, line_of-terminated (names k) (d.pad k) (d.chars k h)) refl
  ]

  -- The last read gives nothing.
  ls_loop-end :
      (k : ℕ) (c : Bytes) (g : Grab) → 16 * k ≡ size → ls_loop 1 inum (16 * k) c g s ≡ ok g s
  unfolding ls_loop
  ls_loop-end k c g e =
      let (de, run, filled) =
        fs_read-content s inum 16 (16 * k) c m bytes d.in_range d.small (omega arith)
          (omega (arith, d.small)) (λ o lo hi lt. d.mapped o lt) in
      let none_left : min 16 (size - 16 * k) ≡ 0 = omega arith in rw (run, none_left) refl

  ls_loop-names :
      (rounds k : ℕ) (c : Bytes) (g : Grab)
      → 16 * (k + rounds) ≡ size
      → ls_loop (suc rounds) inum (16 * k) c g s
        ≡ ok (record g { printed = g.printed ++ name_lines s inum names k rounds }) s
  unfolding name_lines
  ls_loop-names zero k c g e =
      ls_loop-end k c g (omega arith)
      ∙ ap (λ l. ok (record g { printed = l }) s) (sym (append-nil g.printed))
  ls_loop-names (suc rounds) k c g e =
      let (de, run, name, inode) = read_entry k c (omega arith) in
      let next : u32 (16 * k + 16) ≡ 16 * (k + 1) = omega (arith, d.small) in
      let line = if entry_inum (entry_at s inum k) == 0 then [] else names k ++ (10 ∷ []) in
      let h : Grab = record g { printed = g.printed ++ line } in
      ls_loop-round (suc rounds) inum (16 * k) c de g h s run
        (listed-name k de g (omega arith) name inode)
      ∙ ap (λ off. ls_loop (suc rounds) inum off de h s) next
      ∙ ls_loop-names rounds (k + 1) de h (omega arith)
      ∙ ap (λ l. ok (record g { printed = l }) s)
          (append_assoc g.printed line (name_lines s inum names (k + 1) rounds))

-- On a mounted disk of bytes, where a path leads to a directory without holes that holds a whole number of entries and
-- whose entries have the names given: `ls` of the path ends, and prints the name of each entry in use, in their order and each
-- on a line, and the disk is unchanged. It takes one read more than the directory has entries.
pub ls_path-names :
    (s : Fs) (path : List ℕ) (inum : ℕ) (names : ℕ → List ℕ) (count : ℕ) (g : Grab)
    → Mounted s
    → AllBytes s
    → Directory s inum names
    → fs_lookup path s ≡ ok inum s
    → inum ≢ 0
    → (inode_at s inum).size ≡ 16 * count
    → ls_path (count + 1) path g s
      ≡ ok (record g { printed = g.printed ++ name_lines s inum names 0 count }) s
unfolding ls_path
ls_path-names s path inum names count g m bytes d found ne whole =
    let there : (inum == 0) ≡ false = ground arith in
    let fuel : count + 1 ≡ suc count = omega arith in
    rw (found, there, fuel) (ls_loop-names s inum names m bytes d count 0 zeros g (omega arith))
