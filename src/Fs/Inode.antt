-- ===== src/Fs/Inode.antt =====
-- The inodes of fs/fs.c: `rw_inode`, `alloc_inode`, `free_inode` and what they call. The
-- diagnostics of `fs.printf` are left out.
pub mod Access
pub mod Alloc
pub mod Free
mod Tests
use model_lib.Base.{
  ℕ, zero, suc, ◌+◌, ◌*◌, ◌/◌, ◌%◌, Bool, true, false, not, ◌==◌, ltb, leb, if◌then◌else◌, u32,
  Option, none, some,
}
use model_lib.Fs.Layout.{
  Block, Dinode, get_inode, put_inode, get_u32, ninodes_per_block, nptrs_per_block, ndirect,
  nindirect, nptrs, null_inum, t_dev,
}
use model_lib.Fs.State.{Fs, Cmd, pure, ◌>>=◌, ◌>>◌, get, disk_read, disk_write, assert}
use model_lib.Fs.Bitmap.{bitmap_free}

-- The block that holds inode `inum`.
abbrev pub inode_block : Fs → ℕ → ℕ
inode_block s inum = u32 (s.su.sinode + inum / ninodes_per_block)

-- `rw_inode`: `none` is -1, and `some` what it leaves in `*p`.
pub rw_inode : ℕ → Dinode → Bool → Cmd (Option Dinode)
rw_inode inum p w = do
  s ← get
  if not s.init then pure none else if leb s.su.ninodes inum then pure none else do
    b ← disk_read (inode_block s inum)
    if w then write_back s b else pure (some (get_inode b (inum % ninodes_per_block)))
  where
    write_back : Fs → Block → Cmd (Option Dinode)
    write_back s b = do
      disk_write (inode_block s inum) (put_inode b (inum % ninodes_per_block) p)
      pure (some (get_inode (put_inode b (inum % ninodes_per_block) p) (inum % ninodes_per_block)))

abbrev no_inode : Dinode
no_inode = record { type = 0; major = 0; minor = 0; linkcnt = 0; size = 0; ptrs = λ _. 0 }

-- `*p` is not read, so any inode serves.
pub read_inode : ℕ → Cmd (Option Dinode)
unfolding rw_inode
read_inode inum = rw_inode inum no_inode false

pub write_inode : ℕ → Dinode → Cmd (Option Dinode)
unfolding rw_inode
write_inode inum p = rw_inode inum p true

pub fs_geti : ℕ → Cmd (Option Dinode)
unfolding read_inode
fs_geti inum = read_inode inum

unfoldable pub get_ilevel : ℕ → ℕ
get_ilevel ptr_idx =
    if ltb ptr_idx ndirect then 0 else if ltb ptr_idx (ndirect + nindirect) then 1 else 2

-- `for (int i = …) if (ptrs[i]) f(ptrs[i], i);` with `rounds` rounds left.
each_ptr : ℕ → (ℕ → ℕ) → (ℕ → ℕ → Cmd (Unit {0})) → ℕ → Cmd (Unit {0})
each_ptr zero ptrs f i = pure tt
each_ptr (suc rounds) ptrs f i =
    let rest = each_ptr rounds ptrs f (i + 1) in
    (if ptrs i == 0 then pure tt else f (ptrs i) i) >> rest

-- The level falls with each call, so the recursion needs no fuel. `assert(bitmap_free(n))` at level
-- 0 demands a result other than 0, `assert(!bitmap_free(n))` above demands 0.
pub free_indirect : ℕ → ℕ → Cmd (Unit {0})
free_indirect zero n = do freed ← bitmap_free n; assert (not freed)
free_indirect (suc l) n = do
  b ← disk_read n
  freed ← bitmap_free n
  assert freed
  each_ptr nptrs_per_block (λ i. get_u32 b (4 * i)) (λ m _. free_indirect l m) 0

-- `free_inode` once the inode is read.
free_inode_at : ℕ → Option Dinode → Cmd Bool
free_inode_at n none = pure false
free_inode_at n (some di) = do
  each_ptr nptrs di.ptrs (λ m i. free_indirect (get_ilevel i) m) 0
  write_inode n (record di { type = 0 })
  pure true

pub free_inode : ℕ → Cmd Bool
free_inode n = do s ← get; if not s.init then pure false else do r ← read_inode n; free_inode_at n r

-- The inner loop of `alloc_inode`: the first inode of the block with type 0.
first_free : ℕ → Block → ℕ → Option ℕ
first_free zero b j = none
first_free (suc rounds) b j =
    if (get_inode b j).type == 0 then some j else first_free rounds b (j + 1)

-- `memset(p, 0, sizeof(*p)); p->type = type`
abbrev pub new_inode : ℕ → Dinode
new_inode type = record no_inode { type = type }

-- The rest of the loop's body, with what the inner loop found in the block `b`.
take_inode : ℕ → ℕ → Block → Cmd ℕ → Option ℕ → Cmd ℕ
take_inode type i b rest none = rest
take_inode type i b rest (some j) = do
  s ← get
  disk_write (u32 (i + s.su.sinode)) (put_inode b j (new_inode type))
  pure (u32 (i * ninodes_per_block + j))

-- The loop over the inode blocks, with `rounds` of them left.
alloc_inode_loop : ℕ → ℕ → ℕ → Cmd ℕ
alloc_inode_loop zero type i = pure null_inum
alloc_inode_loop (suc rounds) type i =
    let rest = alloc_inode_loop rounds type (i + 1) in
    do
      s ← get
      b ← disk_read (u32 (i + s.su.sinode))
      take_inode type i b rest (first_free ninodes_per_block b 0)

pub alloc_inode : ℕ → Cmd ℕ
unfolding alloc_inode_loop
alloc_inode type =
    if ltb t_dev type then pure null_inum else do s ← get; alloc_inode_loop s.su.nblock_inode type 0
