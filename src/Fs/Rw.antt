-- ===== src/Fs/Rw.antt =====
-- `recursive_rw`, `inode_rw`, `fs_read` and `fs_write` of fs/fs.c. The caller's buffer is a function
-- from the offset behind `buf`, so `sa->buf` is an offset too. The diagnostics of `fs.printf` are
-- left out.
pub mod View
pub mod Progress
pub mod Blocks
mod Tests
pub mod Read
pub mod FileRead
pub mod Written
pub mod Kept
pub mod Elsewhere
pub mod Write
pub mod FileWrite
pub mod Room
pub mod Direct
pub mod Vacant
pub mod Hole
pub mod Grows
pub mod Grown
pub mod Allocate
pub mod Stored
use model_lib.Base.{
  ℕ, zero, suc, ◌+◌, ◌-◌, ◌*◌, ◌/◌, ◌%◌, ◌^◌, Bool, true, false, not, ◌==◌, ◌&&◌, ltb, leb,
  if◌then◌else◌, u32, Option, none, some, ◌||◌, update, is_some,
}
use model_lib.Fs.Layout.{
  Bytes, Block, zeros, Dinode, get_u32, put_u32, splice, block_size, nptrs_per_block, nptrs,
}
use model_lib.Fs.State.{Cmd, pure, ◌>>=◌, ◌>>◌, get, disk_read, disk_write, assert}
use model_lib.Fs.Bitmap.{bitmap_alloc}
use model_lib.Fs.Inode.{read_inode, write_inode, get_ilevel}

-- `struct share_arg`. `pos` is how far `sa->buf` has moved, `buf` what the buffer holds.
pub record Share : Type 0 where
  pub boff : ℕ
  pub sblock : ℕ
  pub eblock : ℕ
  pub off : ℕ
  pub pos : ℕ
  pub left : ℕ
  pub buf : Bytes
  pub w : Bool

-- What a call leaves: true for the result 0 and false for -1, `*pp`, and `*sa`.
abbrev pub Outcome : Type 0
Outcome = Bool × ℕ × Share

-- The number of data blocks below a pointer of a level.
pub span : ℕ → ℕ
span zero = 1
span (suc zero) = nptrs_per_block
span (suc (suc zero)) = nptrs_per_block * nptrs_per_block
span (suc (suc (suc l))) = 0

-- `sz` more bytes are consumed, up to the block `eblock`.
pub advance : Share → ℕ → ℕ → Share
advance sa eblock sz = record sa {
  boff = eblock;
  off = u32 (sa.off + sz);
  pos = sa.pos + sz;
  left = u32 (2 ^ 32 + sa.left - sz);
}

-- The block lies outside of what is read or written.
pub skip : Share → ℕ → Share
skip sa eblock = record sa {
  boff = eblock;
  off = u32 (sa.off + u32 (2 ^ 32 + eblock - sa.boff) * block_size);
}

-- The number of zeros that a null pointer stands for, as the source counts them.
pub hole_size : Share → ℕ → ℕ
hole_size sa eblock =
    let all = u32 (2 ^ 32 + eblock - sa.boff) * block_size in
    if ltb sa.left all then sa.left else all

-- A read of a null pointer: zeros.
pub hole : Share → ℕ → Share
hole sa eblock =
    advance (record sa { buf = splice sa.buf sa.pos (hole_size sa eblock) zeros }) eblock
      (hole_size sa eblock)

-- For a write: the block that `*pp` names, allocated if it names none; 0 if there is none left.
pub ensure : ℕ → ℕ → Cmd ℕ
ensure ilevel p = if p == 0 then fresh else pure p
  where
    fresh : Cmd ℕ
    fresh = do
      q ← bitmap_alloc
      if q == 0 then pure 0 else if ilevel == 0 then pure q else disk_write q zeros >> pure q

-- Where a transfer starts in its data block, and how many bytes it moves.
pub start_of : Share → ℕ
start_of sa = sa.off % block_size

pub size_of : Share → ℕ
unfolding start_of
size_of sa = if ltb sa.left (block_size - start_of sa) then sa.left else block_size - start_of sa

-- `memcpy(sa->buf, &b.bytes[start], sz)`
pub load : Share → Block → Share
load sa b = record sa { buf = splice sa.buf sa.pos (size_of sa) (λ i. b (start_of sa + i)) }

-- `memcpy(&b.bytes[start], sa->buf, sz)`
pub store : Share → Block → Block
store sa b = splice b (start_of sa) (size_of sa) (λ i. sa.buf (sa.pos + i))

-- The transfer for a data block.
pub data_block : ℕ → Share → ℕ → Cmd Outcome
data_block q sa eblock = do
  b ← disk_read q
  if sa.w
      then disk_write q (store sa b) >> pure (true, q, advance sa eblock (size_of sa))
      else pure (true, q, advance (load sa b) eblock (size_of sa))

-- The loop over the pointers `i` of an indirect block, with `rounds` of them left. A call may set
-- the pointer that it is given.
pub children : ℕ → (ℕ → Share → Cmd Outcome) → Block → ℕ → Share → Cmd (Bool × Block × Share)
children zero visit b i sa = pure (true, b, sa)
children (suc rounds) visit b i sa = do
  (done, p, sa') ← visit (get_u32 b (4 * i)) sa
  let b' = put_u32 b (4 * i) p
  elim done [ true ↦ children rounds visit b' (i + 1) sa' | false ↦ pure (false, b', sa') ]

-- The recursion for an indirect block.
pub indirect_block : (ℕ → Share → Cmd Outcome) → ℕ → Share → Cmd Outcome
indirect_block visit q sa = do
  b ← disk_read q
  (done, b', sa') ← children nptrs_per_block visit b 0 sa
  (if done || sa.w then disk_write q b' else pure tt) >> pure (done, q, sa')

-- The part that all levels share, before the block `q` is entered.
pub enter : ℕ → (ℕ → Share → ℕ → Cmd Outcome) → ℕ → Share → Cmd Outcome
enter ilevel inside p sa =
    let eblock = u32 (sa.boff + span ilevel) in
    if not (leb sa.boff sa.eblock && ltb sa.sblock eblock)
    then pure (true, p, skip sa eblock)
    else if sa.w
    then (do q ← ensure ilevel p; if q == 0 then pure (false, 0, sa) else inside q sa eblock)
    else if p == 0
    then pure (true, 0, hole sa eblock)
    else inside p sa eblock

-- The level falls with each call, so the recursion needs no fuel.
pub recursive_rw : ℕ → ℕ → Share → Cmd Outcome
recursive_rw zero = enter zero data_block
recursive_rw (suc l) = enter (suc l) (λ q sa _. indirect_block (recursive_rw l) q sa)

-- `for (i = 0; i < NPTRS; i++) if (recursive_rw(&di.ptrs[i], …)) break;` with `rounds` left.
pub inode_loop : ℕ → (ℕ → ℕ) → ℕ → Share → Cmd ((ℕ → ℕ) × Share)
inode_loop zero ptrs i sa = pure (ptrs, sa)
inode_loop (suc rounds) ptrs i sa = do
  (done, p, sa') ← recursive_rw (get_ilevel i) (ptrs i) sa
  let ptrs' = update ptrs i p
  elim done [ true ↦ inode_loop rounds ptrs' (i + 1) sa' | false ↦ pure (ptrs', sa') ]

-- The transfer of `sz` bytes for the inode `di`, and the update of its size.
pub transfer : ℕ → Dinode → Bytes → ℕ → ℕ → Bool → Cmd (ℕ × Bytes)
transfer inum di buf sz off w = do
  (ptrs, sa) ← inode_loop nptrs di.ptrs 0 (record {
    boff = 0;
    sblock = off / block_size;
    eblock = u32 (off + sz) / block_size;
    off = off;
    pos = 0;
    left = sz;
    buf = buf;
    w = w;
  })
  let consumed = u32 (2 ^ 32 + sz - sa.left)
  let ebyte = u32 (off + consumed)
  let di' = record di { ptrs = ptrs; size = if ltb ebyte di.size then di.size else ebyte }
  if w
      then (do r ← write_inode inum di'; assert (is_some r); pure (consumed, sa.buf))
      else pure (consumed, sa.buf)

-- `inode_rw` once the inode is read: a read stops at the end of the file.
pub inode_rw_at : ℕ → Bytes → ℕ → ℕ → Bool → Option Dinode → Cmd (Option (ℕ × Bytes))
inode_rw_at inum buf sz off w none = pure none
inode_rw_at inum buf sz off w (some di) =
    if not w && leb di.size off then pure (some (0, buf)) else do
      let sz' = if not w && leb di.size (u32 (off + sz)) then di.size - off else sz
      r ← transfer inum di buf sz' off w
      pure (some r)

-- `sz` is the bit pattern of the `int`. The result is `none` for -1, and else the count with what
-- the buffer then holds.
pub inode_rw : ℕ → Bytes → ℕ → ℕ → Bool → Cmd (Option (ℕ × Bytes))
inode_rw inum buf sz off w = do
  s ← get
  if not s.init
      then pure none
      else if ltb 0xefffffff sz
      then pure none
      else do r ← read_inode inum; inode_rw_at inum buf sz off w r

pub fs_write : ℕ → Bytes → ℕ → ℕ → Cmd (Option (ℕ × Bytes))
unfolding inode_rw
fs_write inum buf sz off = inode_rw inum buf sz off true

pub fs_read : ℕ → Bytes → ℕ → ℕ → Cmd (Option (ℕ × Bytes))
unfolding inode_rw
fs_read inum buf sz off = inode_rw inum buf sz off false
