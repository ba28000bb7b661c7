-- ===== src/Fs/Rw/Grown.antt =====
-- A block of a file is allocated in a write: the state in which the rest of the write goes, with the
-- bit set and the pointer in memory, and what the write leaves.
use model_lib.Base.{
  ℕ, ◌+◌, ◌-◌, ◌/◌, ◌%◌, ◌<◌, ◌≡◌, ◌≢◌, refl, arith, ltb, ◌==◌, if◌then◌else◌, true, false,
  Bool-cases, inl, inr, ap, sym, ◌∙◌, ==_refl,
}
use mathlib.Core.Path.{subst}
use model_lib.Fs.Layout.Views.{SameInode}
use model_lib.Fs.Layout.{get_inode, Bytes, Dinode}
use model_lib.Fs.Layout.Views.{Fits}
use model_lib.Fs.State.{Fs}
use model_lib.Fs.Bitmap.Alloc.{bit_at}
use model_lib.Fs.Bitmap.Fresh.{bitmap, set_bit-IsBytes, bit_at-set_bit}
use model_lib.Fs.Inode.{get_ilevel, inode_block}
use model_lib.Fs.Inode.Access.{inode_at, Mounted}
use model_lib.Fs.Rw.View.{file_block, content}
use model_lib.Fs.Rw.Read.{AllBytes}
use model_lib.Fs.Rw.Kept.{Pointers, Pointers-turned, file_block-kept}
use model_lib.Fs.Rw.Written.{InRange}
use model_lib.Fs.Rw.FileWrite.{inode_at-Fits}
use model_lib.Fs.Rw.Room.{asked, asked_of, RoomOf, StoredOf}
use model_lib.Fs.Rw.Vacant.{marked, block_at}
use model_lib.Fs.Rw.Grows.{Used, Grows, Grown, with_block}

module _ (s : Fs) (inum : ℕ) (buf : Bytes) (sz off k c : ℕ) (m : Mounted s) (bytes : AllBytes s)
    (end : off + sz < 8524800) (g : Grows s inum buf sz off k c) where
  abbrev di : Dinode
  di = inode_at s inum

  abbrev b : ℕ
  b = block_at s c

  abbrev before : Fs
  before = marked s c

  abbrev dj : Dinode
  dj = with_block di k b

  pub place : b ≡ c + s.su.sdata
  place = omega (arith, g.vacant.in_range, g.no_wrap)

  pub high : s.su.sbitmap < b
  high = omega (arith, place, g.bitmap_high)

  fresh : (p : ℕ) → Used s p → b ≢ p
  fresh p used e =
      let same : p - s.su.sdata ≡ c = omega (arith, place) in
      let set : bit_at (bitmap s) c ≡ 1 = ap (bit_at (bitmap s)) (sym same) ∙ used.set in
      absurd (ground (arith, set, g.vacant.clear))

  before-disk : (p : ℕ) → p ≢ s.su.sbitmap → before.disk p ≡ s.disk p
  before-disk p ne = let miss : (p == s.su.sbitmap) ≡ false = ground arith in rw miss refl

  disk-Used : (p : ℕ) → Used s p → before.disk p ≡ s.disk p
  disk-Used p used = before-disk p (λ e. omega (arith, e, used.low, g.bitmap_high))

  with_block-file :
      (j : ℕ) → file_block before dj j ≡ (if j == k then b else file_block before di j)
  unfolding file_block
  with_block-file j = elim (Bool-cases (ltb j 10)) [
    | inl direct ↦ rw direct refl
    | inr far ↦
        let other : (j == k) ≡ false = ground (arith, g.direct) in
        elim (Bool-cases (ltb j 266)) [
          | inl single ↦
              let miss : (10 + (j - 10) / 128 == k) ≡ false = ground (arith, g.direct) in
              rw (far, single, other, miss) refl
          | inr double ↦
              let miss : (12 == k) ≡ false = ground (arith, g.direct) in
              rw (far, double, other, miss) refl
        ]
  ]

  before-file :
      (j : ℕ) → j < 16650 → file_block before dj j ≡ (if j == k then b else file_block s di j)
  before-file j h =
      let same : file_block before di j ≡ file_block s di j =
        file_block-kept s before _ (λ p used. disk-Used p used.0) di j h g.pointers in
      with_block-file j ∙ rw same refl

  near : (j : ℕ) → InRange (asked s inum buf sz off) j → j < 16650
  near j h = omega (arith, h.high, end)

  wanted : (j : ℕ) → InRange (asked_of before dj buf sz off) j → InRange (asked s inum buf sz off) j
  wanted j h = record { low = h.low; high = h.high }

  -- A block that the request enters, once the new one is there, is none of those that are used.
  entered :
      (i p : ℕ)
      → InRange (asked s inum buf sz off) i
      → Used s p
      → (i ≢ k → file_block s di i ≢ p)
      → file_block before dj i ≢ p
  entered i p h used away = rw (before-file i (near i h)) (elim (Bool-cases (i == k)) [
    | inl new ↦ rw new (fresh p used)
    | inr old ↦ rw old (away (ground arith))
  ])

  pub room : RoomOf before inum dj (asked_of before dj buf sz off)
  room = record {
    present = λ j h. rw (before-file j (near j (wanted j h))) (elim (Bool-cases (j == k)) [
      | inl new ↦ rw new (ground (arith, high))
      | inr old ↦ rw old (g.present j (wanted j h) (ground arith))
    ]);
    apart = λ i j h hj ne.
        rw (before-file i (near i (wanted i h)), before-file j hj)
          (elim (Bool-cases (i == k)) [
            | inl new ↦
                let other : (j == k) ≡ false = ground arith in
                rw (new, other)
                  (elim (Bool-cases (file_block s di j == 0)) [
                    | inl hole ↦
                        let e : file_block s di j ≡ 0 = ground arith in rw e (ground (arith, high))
                    | inr there ↦ fresh _ (g.used j hj (ground arith))
                  ])
            | inr old ↦ rw old (elim (Bool-cases (j == k)) [
              | inl last ↦ rw last (λ e.
                  fresh _ (g.used i (near i (wanted i h)) (g.present i (wanted i h) (ground arith)))
                    (sym e))
              | inr other ↦ rw other (g.apart i j (wanted i h) (ground arith) hj ne)
            ])
          ]);
    not_inodes = λ j hj. rw (before-file j hj) (elim (Bool-cases (j == k)) [
      | inl new ↦ rw new (ground (arith, high, g.inode_high))
      | inr old ↦ rw old (elim (Bool-cases (file_block s di j == 0)) [
        | inl hole ↦
            let e : file_block s di j ≡ 0 = ground arith in rw e (ground (arith, g.inode_low))
        | inr there ↦
            let used = g.used j hj (ground arith) in
            λ e. omega (arith, e, used.low, g.inode_high, g.bitmap_high)
      ])
    ]);
    pointers = λ i hi. elim (Bool-cases (i == k)) [
      | inl new ↦
          let level : get_ilevel i ≡ 0 = unfold get_ilevel in ground (arith, g.direct) in
          rw level (unfold Pointers in tt)
      | inr old ↦ rw old (
          Pointers-turned s before _ _
            (λ p (used, away). (
              (
                λ e. omega (arith, e, used.low, g.inode_high, g.bitmap_high),
                λ j h. entered j p (wanted j h) used (λ ne. away j (wanted j h)),
              ),
              disk-Used p used,
            ))
            (get_ilevel i) (di.ptrs i) (g.pointers i hi))
    ];
  }

  -- The blocks that the request enters lie behind the inodes.
  entered_low :
      (i p : ℕ)
      → InRange (asked s inum buf sz off) i
      → p < s.su.sbitmap
      → file_block before dj i ≢ p
  entered_low i p h low = rw (before-file i (near i h)) (elim (Bool-cases (i == k)) [
    | inl new ↦ rw new (λ e. omega (arith, e, high))
    | inr old ↦ rw old (
        let used = g.used i (near i h) (g.present i h (ground arith)) in
        λ e. omega (arith, e, used.low, g.bitmap_high))
  ])

  pub fits : Fits dj
  fits =
      let f = inode_at-Fits s inum bytes in
      record {
        type = f.type;
        major = f.major;
        minor = f.minor;
        linkcnt = f.linkcnt;
        size = f.size;
        ptrs = λ i hi. elim (Bool-cases (i == k)) [
          | inl new ↦ rw new (omega arith)
          | inr old ↦ rw old (f.ptrs i hi)
        ];
      }

  pub before-bytes : AllBytes before
  before-bytes p j = elim (Bool-cases (p == s.su.sbitmap)) [
    | inl hit ↦ rw hit (set_bit-IsBytes (bitmap s) g.vacant.bytes c j)
    | inr miss ↦ rw miss (bytes p j)
  ]

  pub before-Mounted : Mounted before
  before-Mounted = record { init = m.init; no_wrap = m.no_wrap }

  before-bits : (j : ℕ) → bit_at (bitmap before) j ≡ (if j == c then 1 else bit_at (bitmap s) j)
  before-bits j = rw (==_refl s.su.sbitmap) (bit_at-set_bit (bitmap s) g.vacant.bytes c j)

  -- What the file holds once the block is there.
  before-content :
      (o : ℕ)
      → o < 8524800
      → content before dj o ≡ (if o / 512 == k then s.disk b (o % 512) else content s di o)
  before-content o h = rw (before-file (o / 512) (omega arith)) (elim (Bool-cases (o / 512 == k)) [
    | inl new ↦
        let some : (b == 0) ≡ false = ground (arith, high) in
        rw (new, some) (ap (λ d. d (o % 512)) (before-disk b (λ e. omega (arith, e, high))))
    | inr old ↦ rw old (elim (Bool-cases (file_block s di (o / 512) == 0)) [
      | inl hole ↦ rw hole refl
      | inr there ↦
          rw there
            (ap (λ d. d (o % 512)) (disk-Used _ (g.used (o / 512) (omega arith) (ground arith))))
    ])
  ])

  module _ (u : Fs) (st : StoredOf before inum dj buf sz off u) where
    same_bitmap : bitmap u ≡ bitmap before
    same_bitmap =
        ap (λ su. u.disk su.sbitmap) st.su
        ∙ st.spared s.su.sbitmap (λ e. omega (arith, e, g.inode_high))
            (λ j h. rw (before-file j (near j (wanted j h))) (elim (Bool-cases (j == k)) [
              | inl new ↦ rw new (λ e. omega (arith, e, high))
              | inr old ↦ rw old (
                  let used =
                    g.used j (near j (wanted j h)) (g.present j (wanted j h) (ground arith)) in
                  λ e. omega (arith, e, used.low, g.bitmap_high))
            ]))

    pub grown : Grown s inum buf sz off k c u
    grown = record {
      mounted = st.mounted;
      bytes = st.bytes;
      su = st.su;
      inode = st.inode;
      bits = λ j. rw same_bitmap (before-bits j);
      blocks = λ j h. st.blocks j h ∙ before-file j h;
      content = λ o h. st.content o h ∙ rw (before-content o h) refl;
      spared = λ p ni nb nf away.
          st.spared p (λ e. ni (sym e))
            (λ j h. rw (before-file j (near j (wanted j h))) (elim (Bool-cases (j == k)) [
              | inl new ↦ rw new (λ e. nf (sym e))
              | inr old ↦ rw old (away j (wanted j h) (ground arith))
            ]))
          ∙ before-disk p nb;
      others = λ j hj ne low.
          let same : before.disk (inode_block s j) ≡ s.disk (inode_block s j) =
            before-disk (inode_block s j) (λ e. omega (arith, e)) in
          subst (λ d. SameInode (inode_at u j) (get_inode d (j % 8))) same
            (st.others j hj ne (λ i h. entered_low i (inode_block s j) (wanted i h) low));
    }

  pub null_lem : di.ptrs k ≡ 0
  null_lem =
      let direct : ltb k 10 ≡ true = ground (arith, g.direct) in
      let e : file_block s di k ≡ di.ptrs k = unfold file_block in rw direct refl in sym e ∙ g.null
