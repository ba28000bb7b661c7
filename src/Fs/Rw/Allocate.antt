-- ===== src/Fs/Rw/Allocate.antt =====
-- `fs_write` where a block of the file is not there yet.
mod Tests
use model_lib.Base.{
  ℕ, zero, suc, ◌+◌, ◌-◌, ◌*◌, ◌/◌, ◌%◌, ◌^◌, ◌≤◌, ◌<◌, ◌≡◌, ◌≢◌, refl, arith, ltb, leb, ◌==◌, ◌&&◌,
  u32, if◌then◌else◌, true, false, Bool-cases, inl, inr, ap, sym, ◌∙◌, some, update,
}
use model_lib.Fs.Layout.{Bytes, Dinode}
use model_lib.Fs.State.{Fs, ok}
use model_lib.Fs.Inode.Access.{inode_at, Mounted, read_inode-ok}
use model_lib.Fs.Rw.{transfer, inode_rw, inode_rw_at, fs_write}
use model_lib.Fs.Rw.View.{file_block}
use model_lib.Fs.Rw.Read.{AllBytes}
use model_lib.Fs.Rw.Written.{InRange}
use model_lib.Fs.Rw.Room.{asked, transfer-stored}
use model_lib.Fs.Rw.Vacant.{marked, block_at}
use model_lib.Fs.Rw.Hole.{Before, transfer-filled}
use model_lib.Fs.Rw.Grows.{Grows, Grown, with_block}
use model_lib.Fs.Rw.Grown.{null_lem, room, fits, before-bytes, before-Mounted, high, grown}

module _ (s : Fs) (inum : ℕ) (buf : Bytes) (sz off k c : ℕ) (m : Mounted s) (bytes : AllBytes s)
    (end : off + sz < 8524800) (g : Grows s inum buf sz off k c) where
  -- The direct blocks of the request in front of the one that is allocated.
  pointers_before : Before (inode_at s inum).ptrs 0 k (off / 512) s.su.sbitmap
  pointers_before j lo hj first =
      let wanted : InRange (asked s inum buf sz off) j = record {
        low = first;
        high = omega (arith, g.in_range.high);
      } in
      let direct : ltb j 10 ≡ true = ground (arith, g.direct) in
      let e : file_block s (inode_at s inum) j ≡ (inode_at s inum).ptrs j =
        unfold file_block in rw direct refl in
      let there : file_block s (inode_at s inum) j ≢ 0 = g.present j wanted (λ e. omega arith) in
      let used = g.used j (omega (arith, g.direct)) there in
      (rw (sym e) there, rw (sym e) (λ e. omega (arith, e, used.low, g.bitmap_high)))

  transfer-Grown :
      inum < s.su.ninodes
      → ((i : ℕ) → buf i < 256)
      → (u : Fs) × (transfer inum (inode_at s inum) buf sz off true s ≡ ok (sz, buf) u)
        × Grown s inum buf sz off k c u
  transfer-Grown hn buf_bytes =
      let (u, run, st) =
        transfer-stored (marked s c) inum (with_block (inode_at s inum) k (block_at s c)) buf sz off
          (before-Mounted s inum buf sz off k c m bytes end g)
          (before-bytes s inum buf sz off k c m bytes end g) hn end buf_bytes
          (fits s inum buf sz off k c m bytes end g) (room s inum buf sz off k c m bytes end g) in
      (
        u,
        transfer-filled s inum (inode_at s inum) buf sz off k c g.direct
              (null_lem s inum buf sz off k c m bytes end g) (omega arith) g.in_range.low
              g.in_range.high pointers_before g.vacant
              (let h = high s inum buf sz off k c m bytes end g in ground (arith, h))
            ∙ run,
        grown s inum buf sz off k c m bytes end g u st,
      )

-- On a mounted disk of bytes, where the block of the inode, the bitmap and the data section follow each
-- other, let the request, of `sz` bytes at `off` with an end below 8524800, enter blocks of the file that
-- are there and belong to one place of it only, and
-- one block of the file that is not there, which is a direct one, and let bit `c` be the first clear
-- one of the bitmap, by which the blocks of the file are in use. Then `fs_write` returns `sz` and the
-- buffer as it was. The block of bit `c` is the missing block of the file, the bit is set, and no
-- other bit and no other pointer has changed. Each byte of the file is the one of the buffer inside
-- of the request. Outside of it, a byte of the new block is the one that the disk held there before,
-- not zero, and any other byte of the file is the old one. The size of the file is at least
-- `off + sz` and else as before. Every block is as before but for that of the inode, the bitmap, the
-- new one and those that the request enters, and so is every other inode in front of the bitmap.
pub fs_write-Grown :
    (s : Fs) (inum : ℕ) (buf : Bytes) (sz off k c : ℕ)
    → Mounted s
    → AllBytes s
    → inum < s.su.ninodes
    → off + sz < 8524800
    → ((i : ℕ) → buf i < 256)
    → Grows s inum buf sz off k c
    → (u : Fs) × (fs_write inum buf sz off s ≡ ok (some (sz, buf)) u)
      × Grown s inum buf sz off k c u
unfolding fs_write inode_rw inode_rw_at
fs_write-Grown s inum buf sz off k c m bytes hn end buf_bytes g =
    let valid : ltb 0xefffffff sz ≡ false = ground arith in
    let (u, run, result) = transfer-Grown s inum buf sz off k c m bytes end g hn buf_bytes in
    simp m.init (rw (valid, read_inode-ok m inum hn, run) (u, refl, result))
