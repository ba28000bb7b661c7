-- ===== src/Mkfs/Retrieve.antt =====
-- `do_retrieve` copies a file of the file system to the host.
use mathlib.Core.List.{append-nil, append_assoc}
use model_lib.Base.{
  ℕ, zero, suc, ◌+◌, ◌-◌, ◌/◌, ◌≤◌, ◌<◌, ◌≡◌, ◌≢◌, refl, arith, ap, ◌∙◌, sym, ◌==◌, ltb, true,
  false, u32, some, List, [], ◌∷◌, ◌++◌, min,
}
use model_lib.Fs.Layout.{Bytes, zeros}
use model_lib.Fs.State.{Fs, ok}
use model_lib.Fs.Inode.Access.{inode_at, Mounted}
use model_lib.Fs.Rw.{fs_read}
use model_lib.Fs.Rw.View.{file_block, content}
use model_lib.Fs.Rw.Read.{AllBytes}
use model_lib.Fs.Rw.FileRead.{fs_read-content}
use model_lib.Fs.Dir.{field_bytes}
use model_lib.Fs.Path.{fs_lookup}
use model_lib.Mkfs.{Host, set_file, string, retrieve_loop, retrieve, do_retrieve}
use model_lib.Mkfs.Words.{Word, two_words_lem}

-- The bytes of a file.
abbrev pub file_bytes : Fs → ℕ → List ℕ
file_bytes s inum = field_bytes (content s (inode_at s inum)) 0 (inode_at s inum).size

module _ (s : Fs) (inum : ℕ) (m : Mounted s) (bytes : AllBytes s) (hn : inum < s.su.ninodes)
    (small : (inode_at s inum).size ≤ 8524800)
    (mapped : (o : ℕ)
      → o < (inode_at s inum).size
      → file_block s (inode_at s inum) (o / 512) ≢ 0) where
  abbrev size : ℕ
  size = (inode_at s inum).size

  -- A read of one byte.
  read_one :
      (off : ℕ) (c : Bytes)
      → off ≤ size
      → (out : Bytes) × (fs_read inum c 1 off s ≡ ok (some (min 1 (size - off), out)) s)
        × (off < size → out 0 ≡ content s (inode_at s inum) off)
  read_one off c h =
      let (out, run, filled) =
        fs_read-content s inum 1 off c m bytes hn small (omega arith) (omega arith)
          (λ o lo hi inside. mapped o inside) in
      (
        out,
        run,
        λ lt.
            let one : ltb 0 (min 1 (size - off)) ≡ true = ground arith in
            let index : off + 0 ≡ off = omega arith in filled 0 ∙ rw (one, index) refl,
      )

  pub retrieve_loop-bytes :
      (rounds off : ℕ) (c : Bytes) (done : List ℕ)
      → off + rounds ≡ size
      → retrieve_loop (suc rounds) inum off c done s
        ≡ ok (done ++ field_bytes (content s (inode_at s inum)) off rounds) s
  unfolding retrieve_loop field_bytes
  retrieve_loop-bytes zero off c done e =
      let (out, run, byte) = read_one off c (omega arith) in
      let none_left : min 1 (size - off) ≡ 0 = omega arith in
      rw (run, none_left) (ap (λ l. ok l s) (sym (append-nil done)))
  retrieve_loop-bytes (suc rounds) off c done e =
      let (out, run, byte) = read_one off c (omega arith) in
      let one : min 1 (size - off) ≡ 1 = omega arith in
      let next : u32 (off + 1) ≡ off + 1 = omega arith in
      rw
        (
          run,
          one,
          next,
          retrieve_loop-bytes rounds (off + 1) out (done ++ (out 0 ∷ [])) (omega arith),
          byte (omega arith),
        )
        (ap (λ l. ok l s)
          (append_assoc done (content s (inode_at s inum) off ∷ [])
            (field_bytes (content s (inode_at s inum)) (off + 1) rounds)))

-- On a mounted disk of bytes, `do_retrieve` with the words for a path and a name of the host,
-- where the path leads to a file without holes within what the pointers of an inode reach and the host lets the file be created,
-- ends after one round more than the file has bytes. It leaves the bytes of the file, all of them and in order, under that name of
-- the host, and the disk unchanged.
pub do_retrieve-bytes :
    (s : Fs) (h : Host) (path host_path : List ℕ) (inum : ℕ)
    → Mounted s
    → AllBytes s
    → Word path
    → Word host_path
    → fs_lookup (string path) s ≡ ok inum s
    → inum ≢ 0
    → inum < s.su.ninodes
    → (inode_at s inum).size ≤ 8524800
    → ((o : ℕ) → o < (inode_at s inum).size → file_block s (inode_at s inum) (o / 512) ≢ 0)
    → h.may_create host_path ≡ true
    → do_retrieve ((inode_at s inum).size + 1) (32 ∷ path ++ (32 ∷ host_path ++ (0 ∷ []))) h s
      ≡ ok (set_file h host_path (file_bytes s inum)) s
unfolding do_retrieve retrieve
do_retrieve-bytes s h path host_path inum m bytes wp wh found ne hn small mapped create =
    let there : (inum == 0) ≡ false = ground arith in
    let fuel : (inode_at s inum).size + 1 ≡ suc (inode_at s inum).size = omega arith in
    rw
      (
        two_words_lem path host_path wp wh,
        found,
        there,
        create,
        fuel,
        retrieve_loop-bytes s inum m bytes hn small mapped (inode_at s inum).size 0 zeros []
            (omega arith),
      )
      refl
