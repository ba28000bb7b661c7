-- ===== src/Fs/Path/Entered.antt =====
-- `make_node` of `fs_mknod`: the directory once the entry is written and the link is counted.
use model_lib.Base.{
  ℕ, ◌+◌, ◌-◌, ◌/◌, ◌<◌, ◌≤◌, ◌≡◌, ◌≢◌, refl, arith, if◌then◌else◌, ltb, leb, ◌&&◌, ap, sym, ◌∙◌,
  u16, u32, List,
}
use model_lib.Fs.Layout.{Bytes, Dinode, t_dir, t_dev}
use model_lib.Fs.Layout.Views.{SameInode, Fits}
use model_lib.Fs.State.{Fs}
use model_lib.Fs.Inode.{inode_block, new_inode}
use model_lib.Fs.Inode.Access.{
  inode_at, Mounted, with_inode, inode_at-with_self, inode_at-with_ne, SameInode-trans,
}
use model_lib.Fs.Rw.View.{file_block, content}
use model_lib.Fs.Rw.Read.{AllBytes}
use model_lib.Fs.Rw.Kept.{InodePointers-turned}
use model_lib.Fs.Rw.FileWrite.{with_inode-bytes, inode_at-Fits}
use model_lib.Fs.Rw.Room.{Stored}
use model_lib.Fs.Rw.Elsewhere.{
  Outside, elsewhere-inode, elsewhere-blocks, elsewhere-content, elsewhere-disk,
}
use model_lib.Fs.Path.Linked.{
  Enters, Parent, Spare, new_inode-Fits, other_inode, taken, taken-inode, taken-blocks,
  taken-content, outside, near,
}

module _ (s : Fs) (n : ℕ) (names : ℕ → List ℕ) (count type k : ℕ) (m : Mounted s)
    (bytes : AllBytes s) (p : Parent s n names count) (spare : Spare s k) (valid : type ≤ t_dev)
    (de : Bytes) (w : Fs)
    (st : Stored
      (taken s n names count type k m bytes p spare valid)
      n
      de
      16
      (inode_at s n).size
      w) where
  abbrev size : ℕ
  size = (inode_at s n).size

  abbrev before : Fs
  before = taken s n names count type k m bytes p spare valid

  apart : n ≢ k
  apart = other_inode s n names count type k m bytes p spare valid

  before-inode : SameInode (inode_at before n) (inode_at s n)
  before-inode = taken-inode s n names count type k m bytes p spare valid

  entered-blocks :
      (b : ℕ) → b < 16650 → file_block w (inode_at w n) b ≡ file_block s (inode_at s n) b
  entered-blocks b h = st.blocks b h ∙ taken-blocks s n names count type k m bytes p spare valid b h

  same_block : (j : ℕ) → inode_block w j ≡ inode_block s j
  same_block j = ap (λ su. u32 (su.sinode + j / 8)) st.su

  same_count : w.su.ninodes ≡ s.su.ninodes
  same_count = ap (λ su. su.ninodes) st.su

  -- A block that holds no inodes and that the entry does not enter.
  entered-spared :
      (q : ℕ)
      → ((j : ℕ) → j < s.su.ninodes → inode_block s j ≢ q)
      → ((b : ℕ) → Enters s n b → file_block s (inode_at s n) b ≢ q)
      → w.disk q ≡ s.disk q
  entered-spared q inodes away =
      st.spared q (inodes n p.dir.in_range) (λ b hb.
        let e : Enters s n b = record { low = hb.low; high = hb.high } in
        rw
          (taken-blocks s n names count type k m bytes p spare valid b
            (near s n names count type k m bytes p spare valid b e))
          (away b e))
      ∙ elsewhere-disk s k (new_inode type) n m spare.in_range p.dir.in_range apart
          (outside s n names count type k m bytes p spare valid) q (inodes k spare.in_range)

  entered-Outside : Outside w n
  entered-Outside = record {
    blocks = λ b hb j hj.
        rw (entered-blocks b hb, same_block j) (p.blocks b hb j (omega (arith, same_count)));
    pointers =
        InodePointers-turned s w _ _
          (λ q h. (
            λ j hj. rw (same_block j) (h.0 j (omega (arith, same_count))),
            entered-spared q h.0 h.1,
          ))
          (inode_at s n) (inode_at w n) (λ i hi. st.inode.ptrs i hi ∙ before-inode.ptrs i hi)
          p.pointers;
  }

  -- The inode that was taken is as it was left.
  entered-inode : SameInode (inode_at w k) (new_inode type)
  entered-inode =
      SameInode-trans
        (st.others k spare.in_range (λ e. apart (sym e))
          (λ b hb.
            let e : Enters s n b = record { low = hb.low; high = hb.high } in
            let far : b < 16650 = near s n names count type k m bytes p spare valid b e in
            rw (taken-blocks s n names count type k m bytes p spare valid b far)
              (p.blocks b far k spare.in_range)))
        (inode_at-with_self s k (new_inode type) (new_inode-Fits type valid))

  -- So is every other inode but the directory's.
  entered-others :
      (j : ℕ) → j < s.su.ninodes → j ≢ n → j ≢ k → SameInode (inode_at w j) (inode_at s j)
  entered-others j hj not_n not_k =
      SameInode-trans
        (st.others j hj not_n (λ b hb.
          let e : Enters s n b = record { low = hb.low; high = hb.high } in
          let far : b < 16650 = near s n names count type k m bytes p spare valid b e in
          rw (taken-blocks s n names count type k m bytes p spare valid b far)
            (p.blocks b far j hj)))
        (inode_at-with_ne s k (new_inode type) j m.no_wrap spare.in_range hj not_k)

  abbrev pub linked : Dinode
  linked = record (inode_at w k) { linkcnt = u16 ((inode_at w k).linkcnt + 1) }

  -- After `write_inode`.
  abbrev pub after : Fs
  after = with_inode w k linked

  linked-Fits : Fits linked
  linked-Fits =
      let f = inode_at-Fits w k st.bytes in
      record {
        type = f.type;
        major = f.major;
        minor = f.minor;
        linkcnt = omega arith;
        size = f.size;
        ptrs = f.ptrs;
      }

  pub after-inode : SameInode (inode_at after k) (record (new_inode type) { linkcnt = 1 })
  after-inode =
      let own = inode_at-with_self w k linked linked-Fits in
      record {
        type = own.type ∙ entered-inode.type;
        major = own.major ∙ entered-inode.major;
        minor = own.minor ∙ entered-inode.minor;
        linkcnt =
            own.linkcnt
            ∙ (let none : (inode_at w k).linkcnt ≡ 0 = entered-inode.linkcnt in rw none refl);
        size = own.size ∙ entered-inode.size;
        ptrs = λ i h. own.ptrs i h ∙ entered-inode.ptrs i h;
      }

  here : n < w.su.ninodes
  here = rw same_count p.dir.in_range

  there : k < w.su.ninodes
  there = rw same_count spare.in_range

  pub after-others :
      (j : ℕ) → j < s.su.ninodes → j ≢ n → j ≢ k → SameInode (inode_at after j) (inode_at s j)
  after-others j hj not_n not_k =
      SameInode-trans
        (inode_at-with_ne w k linked j st.mounted.no_wrap there (rw same_count hj) not_k)
        (entered-others j hj not_n not_k)

  pub after-spared :
      (q : ℕ)
      → ((j : ℕ) → j < s.su.ninodes → inode_block s j ≢ q)
      → ((b : ℕ) → Enters s n b → file_block s (inode_at s n) b ≢ q)
      → after.disk q ≡ s.disk q
  after-spared q inodes away =
      elsewhere-disk w k linked n st.mounted there here apart entered-Outside q
        (rw (same_block k) (inodes k spare.in_range))
      ∙ entered-spared q inodes away

  pub after-blocks :
      (b : ℕ) → b < 16650 → file_block after (inode_at after n) b ≡ file_block s (inode_at s n) b
  after-blocks b h =
      elsewhere-blocks w k linked n st.mounted there here apart entered-Outside b h
      ∙ entered-blocks b h

  pub after-content :
      (o : ℕ)
      → o < 8524800
      → content after (inode_at after n) o
        ≡ (if leb size o && ltb o (size + 16) then de (o - size) else content s (inode_at s n) o)
  after-content o h =
      elsewhere-content w k linked n st.mounted there here apart entered-Outside o h
      ∙ st.content o h
      ∙ rw (taken-content s n names count type k m bytes p spare valid o h) refl

  directory-inode : SameInode (inode_at after n) (inode_at w n)
  directory-inode = elsewhere-inode w k linked n st.mounted there here apart entered-Outside

  pub after-size : (inode_at after n).size ≡ size + 16
  after-size =
      let old : (inode_at before n).size ≡ size = before-inode.size in
      let new : (inode_at w n).size ≡ (
          if ltb (size + 16) (inode_at before n).size
          then (inode_at before n).size
          else size + 16) =
        st.inode.size in
      directory-inode.size ∙ new ∙ ground (arith, old)

  pub after-ptrs : (i : ℕ) → i < 13 → (inode_at after n).ptrs i ≡ (inode_at s n).ptrs i
  after-ptrs i h = directory-inode.ptrs i h ∙ st.inode.ptrs i h ∙ before-inode.ptrs i h

  -- The size aside, the directory's inode is as it was.
  pub after-fields :
      SameInode (inode_at after n) (record (inode_at s n) { size = (inode_at after n).size })
  after-fields = record {
    type = directory-inode.type ∙ st.inode.type ∙ before-inode.type;
    major = directory-inode.major ∙ st.inode.major ∙ before-inode.major;
    minor = directory-inode.minor ∙ st.inode.minor ∙ before-inode.minor;
    linkcnt = directory-inode.linkcnt ∙ st.inode.linkcnt ∙ before-inode.linkcnt;
    size = refl;
    ptrs = after-ptrs;
  }

  pub after-type : (inode_at after n).type ≡ t_dir
  after-type = directory-inode.type ∙ st.inode.type ∙ before-inode.type ∙ p.dir.type

  pub after-Mounted : Mounted after
  after-Mounted = record { init = st.mounted.init; no_wrap = st.mounted.no_wrap }

  pub after-AllBytes : AllBytes after
  after-AllBytes = with_inode-bytes w k linked st.bytes
