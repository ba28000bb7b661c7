-- ===== src/Mkfs/RoundTrip/Root.antt =====
-- The root directory before, between and after the steps of `do_migrate`.
use model_lib.Base.{
  ℕ, ◌+◌, ◌-◌, ◌*◌, ◌/◌, ◌^◌, ◌<◌, ◌≤◌, ◌≡◌, ◌≢◌, arith, ap, sym, ◌∙◌, u32, some, List, [], ◌∷◌,
  ◌++◌,
}
use model_lib.Fs.Layout.{t_reg}
use model_lib.Fs.Layout.Views.{SameInode}
use model_lib.Fs.State.{Fs, ok}
use model_lib.Fs.Bitmap.Alloc.{bit_at}
use model_lib.Fs.Bitmap.Fresh.{bitmap}
use model_lib.Fs.Inode.{inode_block}
use model_lib.Fs.Inode.Access.{inode_at}
use model_lib.Fs.Rw.View.{file_block}
use model_lib.Fs.Rw.Kept.{InodePointers, InodePointers-turned}
use model_lib.Fs.Rw.Grows.{Used}
use model_lib.Fs.Dir.{dir_lookup}
use model_lib.Fs.Dir.Kept.{Directory-elsewhere, entry_inum-elsewhere}
use model_lib.Fs.Path.Linked.{Enters, Parent, Spare}
use model_lib.Fs.Path.Searched.{dir_lookup-entered}
use model_lib.Fs.Path.Made.{Linked}
use model_lib.Text.Compare.{Chars}
use model_lib.Mkfs.Copied.{Empty, Copied}

-- The root is a directory of `count` entries with room for one more, inode `k` is the first free one,
-- and the bits of the bitmap below `c` are set and the next ten are clear. The inodes, the bitmap and
-- the data section follow each other, and the bits of the blocks of the root are set.
pub record Ready (s : Fs) (names : ℕ → List ℕ) (count k c : ℕ) : Type 0 where
  pub parent : Parent s 1 names count
  pub spare : Spare s k
  pub inodes : (j : ℕ) → j < s.su.ninodes → (0 < inode_block s j) × (inode_block s j < s.su.sbitmap)
  pub bitmap_high : s.su.sbitmap < s.su.sdata
  pub no_wrap : s.su.sdata + s.su.nblock_dat < 2 ^ 32
  pub covered : s.su.nblock_dat ≤ 4096
  pub enough : c + 10 ≤ s.su.nblock_dat / 8 * 8
  pub set : (j : ℕ) → j < c → bit_at (bitmap s) j ≡ 1
  pub clear : (j : ℕ) → c ≤ j → j < c + 10 → bit_at (bitmap s) j ≡ 0
  pub used :
      (b : ℕ)
      → b < 16650
      → file_block s (inode_at s 1) b ≢ 0
      → Used s (file_block s (inode_at s 1) b)
  pub pointers :
      InodePointers s
        (λ p. Used s p × ((b : ℕ) → Enters s 1 b → file_block s (inode_at s 1) b ≢ p))
        (inode_at s 1)

module _ (s : Fs) (names : ℕ → List ℕ) (count k c : ℕ) (name : List ℕ) (r : Ready s names count k c)
    (u : Fs) (l : Linked s 1 names count name t_reg k u) where
  same_block : (j : ℕ) → inode_block u j ≡ inode_block s j
  same_block j = ap (λ su. u32 (su.sinode + j / 8)) l.su

  same_sbitmap : u.su.sbitmap ≡ s.su.sbitmap
  same_sbitmap = ap (λ su. su.sbitmap) l.su

  same_sdata : u.su.sdata ≡ s.su.sdata
  same_sdata = ap (λ su. su.sdata) l.su

  same_nblock : u.su.nblock_dat ≡ s.su.nblock_dat
  same_nblock = ap (λ su. su.nblock_dat) l.su

  same_ninodes : u.su.ninodes ≡ s.su.ninodes
  same_ninodes = ap (λ su. su.ninodes) l.su

  near : (b : ℕ) → Enters s 1 b → b < 16650
  near b h = omega (arith, h.high, r.parent.end)

  same_bitmap : bitmap u ≡ bitmap s
  same_bitmap =
      ap (λ su. u.disk su.sbitmap) l.su
      ∙ l.spared s.su.sbitmap (λ j h e. omega (arith, e, (r.inodes j h).1))
          (λ b h e.
            let used = r.used b (near b h) (r.parent.present b h) in
            omega (arith, e, used.low, r.bitmap_high))

  pub linked-Empty : Empty u k c
  linked-Empty =
      let (low, high) = r.inodes k r.spare.in_range in
      record {
        in_range = rw same_ninodes r.spare.in_range;
        inode_low = rw (same_block k) low;
        inode_high = rw (same_block k, same_sbitmap) high;
        bitmap_high = omega (arith, same_sbitmap, same_sdata, r.bitmap_high);
        no_wrap = omega (arith, same_nblock, same_sdata, r.no_wrap);
        covered = omega (arith, same_nblock, r.covered);
        enough = omega (arith, same_nblock, r.enough);
        set = rw same_bitmap r.set;
        clear = rw same_bitmap r.clear;
        size = l.inode.size;
        ptrs = l.inode.ptrs;
      }

  turned-Used : (p : ℕ) → Used s p → Used u p
  turned-Used p used = record {
    low = omega (arith, same_sdata, used.low);
    set = rw (same_bitmap, same_sdata) used.set;
  }

  root-Used :
      (b : ℕ)
      → b < 16650
      → file_block u (inode_at u 1) b ≢ 0
      → Used u (file_block u (inode_at u 1) b)
  root-Used b h = rw (l.blocks b h) (λ ne. turned-Used _ (r.used b h ne))

  root_pointers : InodePointers u (Used u) (inode_at u 1)
  root_pointers =
      InodePointers-turned s u _ (Used u)
        (λ p (used, away). (
          turned-Used p used,
          l.spared p (λ j h e. omega (arith, e, used.low, (r.inodes j h).1, r.bitmap_high)) away,
        ))
        (inode_at s 1) (inode_at u 1) l.fields.ptrs r.pointers

  other_inode : 1 ≢ k
  other_inode e =
      let two : (inode_at s 1).type ≡ 2 = r.parent.dir.type in
      let zero : (inode_at s k).type ≡ 0 = r.spare.free in
      let same : (inode_at s 1).type ≡ (inode_at s k).type = ap (λ j. (inode_at s j).type) e in
      absurd (omega arith)

  -- After the copy.
  module _ (source : ℕ → ℕ) (n : ℕ) (t : Fs) (g : Copied u k c source n t) where
    kept : (p : ℕ) → Used u p → t.disk p ≡ u.disk p
    kept p used =
        g.spared p
          (λ e. omega (
            arith,
            e,
            used.low,
            same_block k,
            same_sdata,
            (r.inodes k r.spare.in_range).1,
            r.bitmap_high,
          ))
          (λ e. omega (arith, e, used.low, same_sdata, same_sbitmap, r.bitmap_high))
          (λ i h e.
            let at : p - u.su.sdata ≡ c + i =
              omega (arith, e, same_sdata, same_nblock, r.enough, r.no_wrap) in
            let clear : bit_at (bitmap u) (c + i) ≡ 0 =
              rw same_bitmap (r.clear (c + i) (omega arith) (omega arith)) in
            let set : bit_at (bitmap u) (c + i) ≡ 1 = ap (bit_at (bitmap u)) (sym at) ∙ used.set in
            absurd (omega (arith, clear, set)))

    same_root : SameInode (inode_at t 1) (inode_at u 1)
    same_root =
        g.others 1 (rw same_ninodes r.parent.dir.in_range) other_inode
          (rw (same_block 1, same_sbitmap) (r.inodes 1 r.parent.dir.in_range).1)

    -- The name leads to the inode that was made.
    pub copied-found :
        Chars name
        → ((j : ℕ) → j < count → names j ≢ name)
        → dir_lookup 1 (name ++ (0 ∷ [])) t ≡ ok (k, some (16 * count)) t
    copied-found cs fresh =
        dir_lookup-entered t 1 names count name k g.mounted g.bytes
          (Directory-elsewhere u t 1 (Used u) kept g.su same_root root-Used root_pointers _
            l.directory)
          (same_root.size ∙ l.size)
          (entry_inum-elsewhere u t 1 (Used u) kept g.su same_root root-Used root_pointers _
              l.directory count (omega (arith, l.size))
            ∙ l.new)
          cs fresh
