-- ===== src/Shell/Commands/Printing.antt =====
-- `cat` of grab/shell.c prints a file.
use mathlib.Core.List.{append-nil, append_assoc}
use model_lib.Base.{
  ℕ, zero, suc, ◌+◌, ◌-◌, ◌*◌, ◌/◌, ◌≤◌, ◌<◌, ◌≡◌, ◌≢◌, refl, arith, ap, ◌∙◌, sym, ◌==◌, ltb, true,
  false, u32, some, List, [], ◌∷◌, ◌++◌, min, update, is_some, Option, Bool-cases, inl, inr,
}
use model_lib.Fs.Layout.{Bytes, zeros, t_reg}
use model_lib.Fs.State.{Fs, ok}
use model_lib.Fs.Inode.Access.{inode_at, Mounted, fs_geti-ok}
use model_lib.Fs.Rw.{fs_read}
use model_lib.Fs.Rw.View.{file_block, content}
use model_lib.Fs.Rw.Read.{AllBytes}
use model_lib.Fs.Rw.FileRead.{fs_read-content}
use model_lib.Fs.Dir.{field_bytes}
use model_lib.Fs.Path.{fs_lookup}
use model_lib.Text.{text_of}
use model_lib.Shell.{nextword}
use model_lib.Shell.Commands.{Grab, cat_loop, cat_word, cat_path, cat_file, cat, string}

-- A part of the bytes without a zero, as a string.
text_of-field_bytes :
    (b : Bytes) (from n : ℕ)
    → ((i : ℕ) → from ≤ i → i < from + n → b i ≢ 0)
    → text_of (field_bytes b from n ++ (0 ∷ [])) ≡ some (field_bytes b from n)
unfolding text_of field_bytes
text_of-field_bytes b from zero h = refl
text_of-field_bytes b from (suc n) h =
    let there : (b from == 0) ≡ false = ground (arith, h from) in
    rw (there, text_of-field_bytes b (from + 1) n (λ i lo hi. h i (omega arith) (omega arith))) refl

field_bytes-cong :
    (b c : Bytes) (from to n : ℕ)
    → ((i : ℕ) → i < n → b (from + i) ≡ c (to + i))
    → field_bytes b from n ≡ field_bytes c to n
unfolding field_bytes
field_bytes-cong b c from to zero h = refl
field_bytes-cong b c from to (suc n) h =
    let here : from ≡ from + 0 = omega arith in
    let there : to + 0 ≡ to = omega arith in
    let first : b from ≡ c to = ap b here ∙ h 0 (omega arith) ∙ ap c there in
    let rest = field_bytes-cong b c (from + 1) (to + 1) n λ i lt.
      let here : from + 1 + i ≡ from + (i + 1) = omega arith in
      let there : to + (i + 1) ≡ to + 1 + i = omega arith in
      ap b here ∙ h (i + 1) (omega arith) ∙ ap c there in
    rw (first, rest) refl

field_bytes-append :
    (b : Bytes) (from n k : ℕ)
    → field_bytes b from (n + k) ≡ field_bytes b from n ++ field_bytes b (from + n) k
unfolding field_bytes
field_bytes-append b from zero k =
    let e : 0 + k ≡ k = omega arith in let f : from + 0 ≡ from = omega arith in rw (e, f) refl
field_bytes-append b from (suc n) k =
    let e : suc n + k ≡ suc (n + k) = omega arith in
    let f : from + suc n ≡ from + 1 + n = omega arith in
    rw (e, f) (ap (λ l. b from ∷ l) (field_bytes-append b (from + 1) n k))

module _ (s : Fs) (inum : ℕ) (m : Mounted s) (bytes : AllBytes s) (hn : inum < s.su.ninodes)
    (small : (inode_at s inum).size ≤ 8524800)
    (mapped : (o : ℕ) → o < (inode_at s inum).size → file_block s (inode_at s inum) (o / 512) ≢ 0)
    (printable : (o : ℕ) → o < (inode_at s inum).size → content s (inode_at s inum) o ≢ 0) where
  abbrev size : ℕ
  size = (inode_at s inum).size

  abbrev part : ℕ → ℕ → List ℕ
  part off n = field_bytes (content s (inode_at s inum)) off n

  -- A read of 63 bytes at most.
  read_some :
      (off : ℕ) (c : Bytes)
      → off ≤ size
      → (out : Bytes) × (fs_read inum c 63 off s ≡ ok (some (min 63 (size - off), out)) s)
        × (field_bytes out 0 (min 63 (size - off)) ≡ part off (min 63 (size - off)))
  read_some off c h =
      let (out, run, filled) =
        fs_read-content s inum 63 off c m bytes hn small (omega arith) (omega arith)
          (λ o lo hi inside. mapped o inside) in
      (
        out,
        run,
        field_bytes-cong out (content s (inode_at s inum)) 0 off (min 63 (size - off)) (λ i lt.
            let inside : ltb i (min 63 (size - off)) ≡ true = ground arith in
            let index : 0 + i ≡ i = omega arith in rw index (filled i ∙ rw inside refl)),
      )

  text_at : (off n : ℕ) → off + n ≤ size → text_of (part off n ++ (0 ∷ [])) ≡ some (part off n)
  text_at off n h =
      text_of-field_bytes (content s (inode_at s inum)) off n (λ i lo hi. printable i (omega arith))

  -- What is printed together by a round and the rounds behind it.
  part-append :
      (off n : ℕ) (before : List ℕ)
      → off + n ≤ size
      → (before ++ part off n) ++ part (off + n) (size - (off + n))
        ≡ before ++ part off (size - off)
  part-append off n before h =
      let e : size - off ≡ n + (size - (off + n)) = omega arith in
      append_assoc before (part off n) (part (off + n) (size - (off + n)))
      ∙ ap (λ l. before ++ l)
          (sym (field_bytes-append (content s (inode_at s inum)) off n (size - (off + n))))
      ∙ ap (λ k. before ++ part off k) (sym e)

  cat_loop-end :
      (rounds off : ℕ) (c : Bytes) (g : Grab)
      → off ≤ size
      → size - off ≡ 0
      → cat_loop (suc rounds) inum off c g s
        ≡ ok (record g { printed = g.printed ++ part off (size - off) }) s
  unfolding cat_loop field_bytes
  cat_loop-end rounds off c g h e =
      let (out, run, text) = read_some off c h in
      let none_left : min 63 (size - off) ≡ 0 = omega arith in
      rw (run, none_left, e)
        (ap (λ l. ok (record g { printed = l }) s) (sym (append-nil g.printed)))

  pub cat_loop-text :
      (rounds off : ℕ) (c : Bytes) (g : Grab)
      → off ≤ size
      → size - off ≤ 63 * rounds
      → cat_loop (suc rounds) inum off c g s
        ≡ ok (record g { printed = g.printed ++ part off (size - off) }) s
  unfolding cat_loop
  cat_loop-text zero off c g h e = cat_loop-end zero off c g h (omega arith)
  cat_loop-text (suc rounds) off c g h e = elim (Bool-cases (size - off == 0)) [
    | inl done ↦ cat_loop-end (suc rounds) off c g h (ground arith)
    | inr more ↦
        let (out, run, text) = read_some off c h in
        let n = min 63 (size - off) in
        let going : (n == 0) ≡ false = ground arith in
        let next : u32 (off + n) ≡ off + n = omega arith in
        let room : off + n ≤ size = omega arith in
        rw
          (
            run,
            going,
            text,
            text_at off n room,
            next,
            cat_loop-text rounds (off + n) (update out n 0)
                (record g { printed = g.printed ++ part off n }) room (ground arith),
          )
          (ap (λ l. ok (record g { printed = l }) s) (part-append off n g.printed room))
  ]

-- `cat` on the argument `word`, where a root is set, on a mounted disk of bytes: if the word is the path of a regular file without
-- holes, within what the pointers of an inode reach, and without a zero byte, `cat` ends and prints the bytes of the file, all of
-- them and in order, and the disk is unchanged. With 63 bytes to a read, it takes one read more than the file has such parts.
pub cat-text :
    (s : Fs) (args word : List ℕ) (rest : Option (List ℕ)) (inum rounds : ℕ) (g : Grab)
    → Mounted s
    → AllBytes s
    → is_some g.rootdrive ≡ true
    → nextword args ≡ some (some word, rest)
    → fs_lookup (string word) s ≡ ok inum s
    → inum ≢ 0
    → inum < s.su.ninodes
    → (inode_at s inum).type ≡ t_reg
    → (inode_at s inum).size ≤ 8524800
    → ((o : ℕ) → o < (inode_at s inum).size → file_block s (inode_at s inum) (o / 512) ≢ 0)
    → ((o : ℕ) → o < (inode_at s inum).size → content s (inode_at s inum) o ≢ 0)
    → (inode_at s inum).size ≤ 63 * rounds
    → cat (rounds + 1) (some args) g s
      ≡ ok
          (record g {
            printed =
                g.printed ++ field_bytes (content s (inode_at s inum)) 0 (inode_at s inum).size;
          })
          s
unfolding cat cat_word cat_path cat_file
cat-text s args word rest inum rounds g m bytes root first found ne hn reg small mapped printable
      enough =
    let there : (inum == 0) ≡ false = ground arith in
    let fuel : rounds + 1 ≡ suc rounds = omega arith in
    let kind : ((inode_at s inum).type == t_reg) ≡ true = ground arith in
    let whole : (inode_at s inum).size - 0 ≡ (inode_at s inum).size = omega arith in
    rw (root, first, found, there, fs_geti-ok m inum hn, kind, fuel)
      (cat_loop-text s inum m bytes hn small mapped printable rounds 0 zeros g (omega arith)
          (omega arith)
        ∙ ap
            (λ n.
              ok (record g { printed = g.printed ++ field_bytes (content s (inode_at s inum)) 0 n })
                s)
            whole)
