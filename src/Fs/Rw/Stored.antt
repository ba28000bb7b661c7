-- ===== src/Fs/Rw/Stored.antt =====
-- What `fs_write` leaves: the caller's bytes are in the file, and the rest of the file is as it was.
mod Tests
use mathlib.Core.Path.{subst}
use model_lib.Base.{
  ℕ, ◌+◌, ◌-◌, ◌*◌, ◌/◌, ◌%◌, ◌^◌, ◌≤◌, ◌<◌, ◌≡◌, ◌≢◌, refl, arith, ltb, leb, ◌==◌, ◌&&◌, u32,
  if◌then◌else◌, true, false, Bool-cases, inl, inr, ap, sym, ◌∙◌, some, fun_ext, min,
}
use model_lib.Fs.Layout.{Bytes, Dinode, get_inode}
use model_lib.Fs.Layout.Views.{SameInode, Fits}
use model_lib.Fs.State.{Fs, ok}
use model_lib.Fs.Inode.{inode_block}
use model_lib.Fs.Inode.Access.{
  inode_at, Mounted, with_inode, read_inode-ok, write_inode-ok, inode_at-with_self,
  inode_at-with_ne,
}
use model_lib.Fs.Rw.{Share, inode_loop, transfer, inode_rw_at, inode_rw, fs_write, fs_read}
use model_lib.Fs.Rw.View.{file_block, content}
use model_lib.Fs.Rw.Progress.{Request}
use model_lib.Fs.Rw.Read.{AllBytes}
use model_lib.Fs.Rw.FileRead.{fs_read-content}
use model_lib.Fs.Rw.Kept.{InodePointers, file_block-kept, file_block-ptrs}
use model_lib.Fs.Rw.Written.{InRange, Separate, Written, written_byte}
use model_lib.Fs.Rw.FileWrite.{
  inode_loop-Written, inode_at-Fits, with_inode-bytes, wider, start_share,
}
use model_lib.Fs.Rw.Room.{asked, Room, Stored, transfer-stored}

-- On a mounted disk of bytes with room for the request, `fs_write` of `sz` bytes at `off`, with an
-- end below 8524800, returns `sz` and the buffer as it was. The file system is still mounted and
-- its disk still one of bytes. The size of the file is then at least `off + sz` and else as before,
-- its block map and the other fields of its inode are as before, and each byte of the file is the
-- one of the buffer inside of the request and the old one outside of it. Every block is as before
-- but for that of the inode and those that the request enters, and so is every other inode whose
-- block the request does not enter.
pub fs_write-content :
    (s : Fs) (inum : ℕ) (buf : Bytes) (sz off : ℕ)
    → Mounted s
    → AllBytes s
    → inum < s.su.ninodes
    → off + sz < 8524800
    → ((i : ℕ) → buf i < 256)
    → Room s inum (asked s inum buf sz off)
    → (u : Fs) × (fs_write inum buf sz off s ≡ ok (some (sz, buf)) u) × Stored s inum buf sz off u
unfolding fs_write inode_rw inode_rw_at
fs_write-content s inum buf sz off m bytes hn end buf_bytes room =
    let valid : ltb 0xefffffff sz ≡ false = ground arith in
    let (u, run, stored) =
      transfer-stored s inum (inode_at s inum) buf sz off m bytes hn end buf_bytes
        (inode_at-Fits s inum bytes) room in
    simp m.init (rw (valid, read_inode-ok m inum hn, run) (u, refl, stored))

-- Under the conditions of `fs_write-content`, and if the size of the file is within what the
-- pointers of an inode reach, `fs_read` of the range that `fs_write` wrote returns `sz` and leaves
-- the bytes that were written at the start of the buffer that it is given, and the rest of that
-- buffer as it was.
pub fs_write-fs_read :
    (s : Fs) (inum : ℕ) (buf old : Bytes) (sz off : ℕ)
    → Mounted s
    → AllBytes s
    → inum < s.su.ninodes
    → off + sz < 8524800
    → ((i : ℕ) → buf i < 256)
    → Room s inum (asked s inum buf sz off)
    → (inode_at s inum).size ≤ 8524800
    → (u : Fs) × (out : Bytes) × (fs_write inum buf sz off s ≡ ok (some (sz, buf)) u)
      × (fs_read inum old sz off u ≡ ok (some (sz, out)) u)
      × ((i : ℕ) → out i ≡ (if ltb i sz then buf i else old i))
fs_write-fs_read s inum buf old sz off m bytes hn end buf_bytes room small =
    let (u, run, stored) = fs_write-content s inum buf sz off m bytes hn end buf_bytes room in
    let size : (inode_at u inum).size
        ≡ (if ltb (off + sz) (inode_at s inum).size then (inode_at s inum).size else off + sz) =
      stored.inode.size in
    let long : min sz ((inode_at u inum).size - off) ≡ sz = ground (arith, size) in
    let (out, read, filled) =
      fs_read-content u inum sz off old stored.mounted stored.bytes (rw (stored.su) hn)
        (ground (arith, size)) (omega arith) (omega arith)
        (λ o lo hi inside.
          rw (stored.blocks (o / 512) (omega arith))
            (room.present (o / 512) (record { low = omega arith; high = omega arith }))) in
    (u, out, run, rw (read, long) refl, λ i. filled i ∙ rw long (chosen u stored i))
  where
    chosen :
        (u : Fs)
        → Stored s inum buf sz off u
        → (i : ℕ)
        → (if ltb i sz then content u (inode_at u inum) (off + i) else old i)
          ≡ (if ltb i sz then buf i else old i)
    chosen u stored i = elim (Bool-cases (ltb i sz)) [
      | inl new ↦
          let hit : (leb off (off + i) && ltb (off + i) (off + sz)) ≡ true = ground arith in
          let index : off + i - off ≡ i = omega arith in
          rw new (stored.content (off + i) (ground arith) ∙ rw (hit, index) refl)
      | inr kept ↦ rw kept refl
    ]
