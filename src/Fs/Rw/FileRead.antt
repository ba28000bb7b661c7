-- ===== src/Fs/Rw/FileRead.antt =====
-- `fs_read` returns the bytes of the file.
use mathlib.Core.Path.{subst}
use model_lib.Base.{
  ℕ, zero, suc, ◌+◌, ◌-◌, ◌/◌, ◌^◌, ◌≤◌, ◌<◌, ◌≡◌, ◌≢◌, refl, arith, ltb, leb, u32, if◌then◌else◌,
  false, Bool-cases, inl, inr, min, ap, sym, ◌∙◌, some,
}
use model_lib.Fs.Layout.{Bytes, Dinode}
use model_lib.Fs.State.{Fs, ok, pure, ◌>>=◌}
use model_lib.Fs.Inode.{get_ilevel}
use model_lib.Fs.Inode.Access.{inode_at, Mounted, read_inode-ok}
use model_lib.Fs.Rw.{Share, span, inode_loop, transfer, inode_rw_at, inode_rw, fs_read}
use model_lib.Fs.Rw.View.{file_block, content, base, base_next, file_block-base}
use model_lib.Fs.Rw.Progress.{Request, Progress, filled}
use model_lib.Fs.Rw.Read.{AllBytes, recursive_rw-Reads, update_self}

pub get_ilevel-le : (i : ℕ) → get_ilevel i ≤ 2
unfolding get_ilevel
get_ilevel-le i = ground arith

pub base_end : (i : ℕ) → i < 13 → base (i + 1) ≤ 16650
base_end i h = ground arith

module _ (s : Fs) (di : Dinode) (r : Request) (bytes : AllBytes s) (file : r.file ≡ file_block s di)
    (mapped : (o : ℕ) → r.from ≤ o → o < r.from + r.size → r.file (o / 512) ≢ 0) where
  inode_loop-Progress :
      (rounds i : ℕ) (sa : Share)
      → rounds + i ≡ 13
      → Progress s r (base i) sa
      → (sb : Share) × (inode_loop rounds di.ptrs i sa s ≡ ok (di.ptrs, sb) s)
        × Progress s r 16650 sb
  unfolding inode_loop
  inode_loop-Progress zero i sa e g = (sa, refl, subst (λ n. Progress s r n sa) (ground arith) g)
  inode_loop-Progress (suc rounds) i sa e g =
      let next : base (i + 1) ≡ base i + span (get_ilevel i) = base_next i (omega arith) in
      let (sb, run, g') =
        recursive_rw-Reads s r bytes mapped (get_ilevel i) (get_ilevel-le i) (di.ptrs i) (base i) sa
          g (omega (arith, next, base_end i (omega arith)))
          (λ k hk. rw file (file_block-base s di i k (omega arith) hk)) in
      rw (run, update_self di.ptrs i)
        (inode_loop-Progress rounds (i + 1) sb (omega arith)
          (subst (λ n. Progress s r n sb) (sym next) g'))

abbrev start_share : Bytes → ℕ → ℕ → Share
start_share buf sz off = record {
  boff = 0;
  sblock = off / 512;
  eblock = u32 (off + sz) / 512;
  off = off;
  pos = 0;
  left = sz;
  buf = buf;
  w = false;
}

module _ (s : Fs) (di : Dinode) (buf : Bytes) (sz off : ℕ) (bytes : AllBytes s)
    (fits : off + sz ≤ 8524800)
    (mapped : (o : ℕ) → off ≤ o → o < off + sz → file_block s di (o / 512) ≢ 0) where
  abbrev request : Request
  request = record { from = off; size = sz; buf = buf; file = file_block s di }

  start-Progress : Progress s request 0 (start_share buf sz off)
  start-Progress = record {
    small = omega arith;
    near = omega arith;
    boff = refl;
    sblock = refl;
    eblock = omega arith;
    off = omega arith;
    pos = omega arith;
    left = omega arith;
    reads = refl;
    buf = λ i. ground arith;
  }

  transfer-content :
      (inum : ℕ)
      → (out : Bytes) × (transfer inum di buf sz off false s ≡ ok (sz, out) s)
        × ((i : ℕ) → out i ≡ (if ltb i sz then content s di (off + i) else buf i))
  unfolding transfer
  transfer-content inum =
      let (sa, run, g) =
        inode_loop-Progress s di request bytes refl mapped 13 0 (start_share buf sz off)
          (omega arith) start-Progress in
      let all : sa.pos ≡ sz = omega (arith, g.pos) in
      let took : u32 (2 ^ 32 + sz - sa.left) ≡ sz = omega (arith, g.left, all) in
      (sa.buf, rw (run, took), λ i. g.buf i ∙ ap (λ k. filled s request k i) all)

-- The bytes of a file that a read of `sz` bytes at `off` gives, before the end of the file.
abbrev pub Filled : Fs → Dinode → Bytes → ℕ → ℕ → Bytes → Type 0
Filled s di buf off n out = (i : ℕ) → out i ≡ (if ltb i n then content s di (off + i) else buf i)

-- `transfer` as `inode_rw_at` calls it.
transferred :
    (s : Fs) (inum : ℕ) (di : Dinode) (buf : Bytes) (n off : ℕ)
    → ((out : Bytes) × (transfer inum di buf n off false s ≡ ok (n, out) s)
        × Filled s di buf off n out)
    → (out : Bytes) × ((transfer inum di buf n off false >>= λ r. pure (some r)) s
        ≡ ok (some (n, out)) s)
      × Filled s di buf off n out
transferred s inum di buf n off (out, run, filled) = (out, rw run, filled)

inode_rw_at-content :
    (s : Fs) (inum : ℕ) (di : Dinode) (buf : Bytes) (sz off : ℕ)
    → AllBytes s
    → di.size ≤ 8524800
    → off + sz < 2 ^ 32
    → ((o : ℕ) → off ≤ o → o < off + sz → o < di.size → file_block s di (o / 512) ≢ 0)
    → (out : Bytes) × (inode_rw_at inum buf sz off false (some di) s
        ≡ ok (some (min sz (di.size - off), out)) s)
      × Filled s di buf off (min sz (di.size - off)) out
unfolding inode_rw_at
inode_rw_at-content s inum di buf sz off bytes big wide mapped =
    elim (Bool-cases (leb di.size off)) [
      | inl past ↦
          let none_left : min sz (di.size - off) ≡ 0 = ground arith in
          rw (past, none_left) (buf, refl, λ i. ground arith)
      | inr before ↦ elim (Bool-cases (leb di.size (u32 (off + sz)))) [
        | inl cut ↦
            let rest : min sz (di.size - off) ≡ di.size - off = ground arith in
            rw (before, cut, rest)
              (transferred s inum di buf (di.size - off) off (
                transfer-content s di buf (di.size - off) off bytes (ground arith)
                  (λ o lo hi. mapped o lo (ground arith) (ground arith)) inum))
        | inr whole ↦
            let all : min sz (di.size - off) ≡ sz = ground arith in
            rw (before, whole, all)
              (transferred s inum di buf sz off (
                transfer-content s di buf sz off bytes (ground arith)
                  (λ o lo hi. mapped o lo hi (ground arith)) inum))
      ]
    ]

-- On a mounted disk of bytes, `fs_read` of `sz` bytes at `off`, with an end below 2 ^ 32, of a file that has no hole there and whose size is within what
-- the pointers of an inode reach, returns the number of bytes up to the end of the file, at most
-- `sz`. It leaves those bytes of the file at the start of the buffer, the rest of the buffer as it
-- was, and the disk unchanged.
pub fs_read-content :
    (s : Fs) (inum sz off : ℕ) (buf : Bytes)
    → Mounted s
    → AllBytes s
    → inum < s.su.ninodes
    → (inode_at s inum).size ≤ 8524800
    → sz ≤ 0xefffffff
    → off + sz < 2 ^ 32
    → ((o : ℕ)
        → off ≤ o
        → o < off + sz
        → o < (inode_at s inum).size
        → file_block s (inode_at s inum) (o / 512) ≢ 0)
    → (out : Bytes) × (fs_read inum buf sz off s
        ≡ ok (some (min sz ((inode_at s inum).size - off), out)) s)
      × ((i : ℕ)
          → out i ≡ (
              if ltb i (min sz ((inode_at s inum).size - off))
              then content s (inode_at s inum) (off + i)
              else buf i))
unfolding fs_read inode_rw
fs_read-content s inum sz off buf m bytes hn big hs wide mapped =
    let valid : ltb 0xefffffff sz ≡ false = ground arith in
    simp m.init (
      rw (valid, read_inode-ok m inum hn)
        (inode_rw_at-content s inum (inode_at s inum) buf sz off bytes big wide mapped))
