-- ===== src/Fs/Rw/Room.antt =====
-- What `transfer` leaves of a write to blocks that are there, and what it asks of the disk. The inode
-- `di` is the one in memory, whose pointers may be ahead of those on the disk.
use mathlib.Core.Path.{subst}
use model_lib.Base.{
  ℕ, ◌+◌, ◌-◌, ◌*◌, ◌/◌, ◌%◌, ◌^◌, ◌<◌, ◌≡◌, ◌≢◌, refl, arith, ltb, leb, ◌==◌, ◌&&◌, u32,
  if◌then◌else◌, true, false, Bool-cases, inl, inr, ap, sym, ◌∙◌, fun_ext,
}
use model_lib.Fs.Layout.{Bytes, Dinode, get_inode}
use model_lib.Fs.Layout.Views.{SameInode, Fits}
use model_lib.Fs.State.{Fs, ok}
use model_lib.Fs.Inode.{inode_block}
use model_lib.Fs.Inode.Access.{
  inode_at, Mounted, with_inode, write_inode-ok, inode_at-with_self, inode_at-with_ne,
}
use model_lib.Fs.Rw.{Share, transfer}
use model_lib.Fs.Rw.View.{file_block, content}
use model_lib.Fs.Rw.Progress.{Request}
use model_lib.Fs.Rw.Read.{AllBytes}
use model_lib.Fs.Rw.Kept.{InodePointers, file_block-kept, file_block-ptrs}
use model_lib.Fs.Rw.Written.{InRange, Separate, Written}
use model_lib.Fs.Rw.FileWrite.{inode_loop-Written, with_inode-bytes, wider, start_share}

-- The request that `fs_write` makes of the blocks of the file.
abbrev pub asked_of : Fs → Dinode → Bytes → ℕ → ℕ → Request
asked_of s di buf sz off = record { from = off; size = sz; buf = buf; file = file_block s di }

abbrev pub asked : Fs → ℕ → Bytes → ℕ → ℕ → Request
asked s inum = asked_of s (inode_at s inum)

-- The blocks that the request enters are there, and each belongs to one place of this file only: it
-- is no other block of the file, no block of pointers of it, and not the block of its inode. The
-- last holds of no block of the file.
pub record RoomOf (s : Fs) (inum : ℕ) (di : Dinode) (r : Request) : Type 0 where
  pub present : (k : ℕ) → InRange r k → r.file k ≢ 0
  pub apart : (j k : ℕ) → InRange r j → k < 16650 → j ≢ k → r.file j ≢ r.file k
  pub not_inodes : (k : ℕ) → k < 16650 → r.file k ≢ inode_block s inum
  pub pointers :
      InodePointers s (λ p. (inode_block s inum ≢ p) × ((k : ℕ) → InRange r k → r.file k ≢ p)) di

abbrev pub Room : Fs → ℕ → Request → Type 0
Room s inum = RoomOf s inum (inode_at s inum)

-- Byte `o` of the file is that of the buffer inside of the request, and as before outside of it.
pub record StoredOf (s : Fs) (inum : ℕ) (di : Dinode) (buf : Bytes) (sz off : ℕ) (u : Fs)
    : Type 0 where
  pub mounted : Mounted u
  pub bytes : AllBytes u
  pub su : u.su ≡ s.su
  pub inode : SameInode (inode_at u inum) (wider di (off + sz))
  pub blocks : (k : ℕ) → k < 16650 → file_block u (inode_at u inum) k ≡ file_block s di k
  pub content :
      (o : ℕ)
      → o < 8524800
      → content u (inode_at u inum) o
        ≡ (if leb off o && ltb o (off + sz) then buf (o - off) else content s di o)
  -- Another block is as before, and so is another inode whose block the request does not enter.
  pub spared :
      (p : ℕ)
      → inode_block s inum ≢ p
      → ((k : ℕ) → InRange (asked_of s di buf sz off) k → file_block s di k ≢ p)
      → u.disk p ≡ s.disk p
  pub others :
      (j : ℕ)
      → j < s.su.ninodes
      → j ≢ inum
      → ((k : ℕ) → InRange (asked_of s di buf sz off) k → file_block s di k ≢ inode_block s j)
      → SameInode (inode_at u j) (inode_at s j)

abbrev pub Stored : Fs → ℕ → Bytes → ℕ → ℕ → Fs → Type 0
Stored s inum = StoredOf s inum (inode_at s inum)

module _ (s : Fs) (inum : ℕ) (di : Dinode) (buf : Bytes) (sz off : ℕ) (m : Mounted s)
    (bytes : AllBytes s) (hn : inum < s.su.ninodes) (end : off + sz < 8524800)
    (buf_bytes : (i : ℕ) → buf i < 256) (fit : Fits di)
    (room : RoomOf s inum di (asked_of s di buf sz off)) where
  abbrev r : Request
  r = asked_of s di buf sz off

  start-Written : Written s r 0 (start_share buf sz off) s
  start-Written = record {
    small = omega arith;
    near = omega arith;
    boff = refl;
    sblock = refl;
    eblock = omega arith;
    off = omega arith;
    pos = omega arith;
    left = omega arith;
    writes = refl;
    buf = λ i. refl;
    su = refl;
    init = refl;
    bytes = bytes;
    inside = λ k ik j hj. ground arith;
    outside = λ n away. refl;
  }

  separate : Separate r
  separate = record {
    present = room.present;
    distinct = λ j k ij ik ne. room.apart j k ij (omega (arith, ik.high)) ne;
  }

  -- After the loop over the pointers, the inode is written to the disk `t`.
  module _ (t : Fs) (sa : Share) (g : Written s r 16650 sa t) where
    abbrev u : Fs
    u = with_inode t inum (wider di (off + sz))

    same_block : inode_block t inum ≡ inode_block s inum
    same_block = ap (λ su. u32 (su.sinode + inum / 8)) g.su

    fits : Fits (wider di (off + sz))
    fits =
        let f = fit in
        record {
          type = f.type;
          major = f.major;
          minor = f.minor;
          linkcnt = f.linkcnt;
          size = ground (arith, f.size);
          ptrs = f.ptrs;
        }

    inode : SameInode (inode_at u inum) (wider di (off + sz))
    inode = inode_at-with_self t inum (wider di (off + sz)) fits

    other_block : (p : ℕ) → inode_block s inum ≢ p → u.disk p ≡ t.disk p
    other_block p ne =
        let miss : (p == inode_block t inum) ≡ false = ground (arith, same_block) in rw miss

    blocks : (k : ℕ) → k < 16650 → file_block u (inode_at u inum) k ≡ file_block s di k
    blocks k hk =
        file_block-ptrs u (inode_at u inum) di k hk (λ i hi. inode.ptrs i hi)
        ∙ file_block-kept s u
            (λ p. (inode_block s inum ≢ p) × ((k : ℕ) → InRange r k → r.file k ≢ p))
            (λ p (ne, away). other_block p ne ∙ g.outside p away) di k hk room.pointers

    all : sa.pos ≡ sz
    all = omega (arith, g.pos)

    still_mounted : Mounted t
    still_mounted = record {
      init = g.init ∙ m.init;
      no_wrap = subst (λ su. su.sinode + su.ninodes / 8 < 2 ^ 32) (sym g.su) m.no_wrap;
    }

    -- A byte of a block that the request enters.
    written :
        (o : ℕ)
        → InRange r (o / 512)
        → o < 8524800
        → u.disk (r.file (o / 512)) (o % 512) ≡ (
            if leb off o && ltb o (off + sz)
            then buf (o - off)
            else s.disk (r.file (o / 512)) (o % 512))
    written o io ho =
        let same : o / 512 * 512 + o % 512 ≡ o = omega arith in
        ap (λ b. b (o % 512))
          (other_block (r.file (o / 512)) (
            let ne : r.file (o / 512) ≢ inode_block s inum =
              room.not_inodes (o / 512) (omega arith) in
            ground arith))
        ∙ g.inside (o / 512) io (o % 512) (omega arith)
        ∙ rw (same, all) refl

    -- A byte of another block of the file.
    spared :
        (o : ℕ)
        → (InRange r (o / 512) → ⊥)
        → o < 8524800
        → u.disk (r.file (o / 512)) (o % 512) ≡ s.disk (r.file (o / 512)) (o % 512)
    spared o far ho =
        ap (λ b. b (o % 512))
          (other_block (r.file (o / 512)) (
              let ne : r.file (o / 512) ≢ inode_block s inum =
                room.not_inodes (o / 512) (omega arith) in
              ground arith)
            ∙ g.outside (r.file (o / 512)) λ k ik. elim (Bool-cases (k == o / 512)) [
              | inl hit ↦
                  absurd
                    (far (subst (λ n. InRange r n) (let e : k ≡ o / 512 = ground arith in e) ik))
              | inr other ↦ room.apart k (o / 512) ik (omega arith) (ground arith)
            ])

    stored_content :
        (o : ℕ)
        → o < 8524800
        → content u (inode_at u inum) o
          ≡ (if leb off o && ltb o (off + sz) then buf (o - off) else content s di o)
    stored_content o ho =
        elim (Bool-cases (leb (off / 512) (o / 512) && leb (o / 512) ((off + sz) / 512))) [
          | inl near ↦
              let io : InRange r (o / 512) = record { low = ground arith; high = ground arith } in
              let there : (r.file (o / 512) == 0) ≡ false =
                let ne : r.file (o / 512) ≢ 0 = room.present (o / 512) io in ground arith in
              rw (blocks (o / 512) (omega arith), there) (written o io ho)
          | inr far ↦
              let miss : (leb off o && ltb o (off + sz)) ≡ false = ground arith in
              let same = spared o (λ io. ground (arith, io.low, io.high)) ho in
              rw (blocks (o / 512) (omega arith), miss, same) refl
        ]

    others :
        (j : ℕ)
        → j < s.su.ninodes
        → j ≢ inum
        → ((k : ℕ) → InRange r k → r.file k ≢ inode_block s j)
        → SameInode (inode_at u j) (inode_at s j)
    others j hj ne away =
        let block : inode_block t j ≡ inode_block s j = ap (λ su. u32 (su.sinode + j / 8)) g.su in
        let same : t.disk (inode_block t j) ≡ s.disk (inode_block s j) =
          ap t.disk block ∙ g.outside (inode_block s j) away in
        subst (λ b. SameInode (inode_at u j) (get_inode b (j % 8))) same
          (inode_at-with_ne t inum (wider di (off + sz)) j still_mounted.no_wrap (rw (g.su) hn)
            (rw (g.su) hj) ne)

    stored : StoredOf s inum di buf sz off u
    stored = record {
      mounted = record { init = still_mounted.init; no_wrap = still_mounted.no_wrap };
      bytes = with_inode-bytes t inum (wider di (off + sz)) g.bytes;
      su = g.su;
      inode = inode;
      blocks = blocks;
      content = stored_content;
      spared = λ p ne away. other_block p ne ∙ g.outside p away;
      others = others;
    }

  pub transfer-stored :
      (u : Fs) × (transfer inum di buf sz off true s ≡ ok (sz, buf) u)
      × StoredOf s inum di buf sz off u
  unfolding transfer
  transfer-stored =
      let (sa, t, run, g) =
        inode_loop-Written s di r bytes separate buf_bytes refl
          (λ p. (inode_block s inum ≢ p) × ((k : ℕ) → InRange r k → r.file k ≢ p))
          (λ p (ne, away). away) room.pointers 13 0 (start_share buf sz off) s (omega arith)
          start-Written in
      let took : u32 (2 ^ 32 + sz - sa.left) ≡ sz = omega (arith, g.left, g.pos) in
      let byte_end : u32 (off + sz) ≡ off + sz = omega arith in
      let hu : inum < t.su.ninodes = rw (g.su) hn in
      (
        u t sa g,
        rw
            (
              run,
              took,
              byte_end,
              write_inode-ok (still_mounted t sa g) inum (wider di (off + sz)) hu,
              fun_ext g.buf,
            )
            refl,
        stored t sa g,
      )
