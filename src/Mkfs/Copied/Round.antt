-- ===== src/Mkfs/Copied/Round.antt =====
-- One round of the loop of `do_migrate`.
use model_lib.Base.{
  ℕ, ◌+◌, ◌-◌, ◌/◌, ◌%◌, ◌≤◌, ◌<◌, ◌≡◌, ◌≢◌, refl, arith, ltb, leb, ◌==◌, ◌&&◌, ◌||◌, u32,
  if◌then◌else◌, true, false, Bool-cases, inl, inr, ap, sym, ◌∙◌, some,
}
use model_lib.Fs.Layout.{Bytes}
use model_lib.Fs.State.{Fs, ok}
use model_lib.Fs.Bitmap.Alloc.{bit_at}
use model_lib.Fs.Bitmap.Fresh.{bitmap}
use model_lib.Fs.Inode.{inode_block}
use model_lib.Fs.Inode.Access.{SameInode-trans, inode_at}
use model_lib.Fs.Rw.{fs_write}
use model_lib.Fs.Rw.View.{file_block, content}
use model_lib.Fs.Rw.Written.{InRange}
use model_lib.Fs.Rw.Room.{asked, Room, Stored}
use model_lib.Fs.Rw.Vacant.{block_at}
use model_lib.Fs.Rw.Grows.{Grows, Grown}
use model_lib.Fs.Rw.Stored.{fs_write-content}
use model_lib.Fs.Rw.Allocate.{fs_write-Grown}
use model_lib.Fs.Rw.Direct.{file_block-direct, pointers-direct}
use model_lib.Mkfs.Copied.{blocks_of, Empty, Copied}

module _ (s : Fs) (inum c : ℕ) (source : ℕ → ℕ) (e : Empty s inum c) where
  module _ (n : ℕ) (t : Fs) (g : Copied s inum c source n t) (short : n < 5120) where
    place : (x : ℕ) → x < c + 10 → block_at s x ≡ x + s.su.sdata
    place x h = omega (arith, e.enough, e.no_wrap)

    same_sdata : t.su.sdata ≡ s.su.sdata
    same_sdata = ap (λ su. su.sdata) g.su

    same_sbitmap : t.su.sbitmap ≡ s.su.sbitmap
    same_sbitmap = ap (λ su. su.sbitmap) g.su

    same_nblock : t.su.nblock_dat ≡ s.su.nblock_dat
    same_nblock = ap (λ su. su.nblock_dat) g.su

    same_inode : inode_block t inum ≡ inode_block s inum
    same_inode = ap (λ su. u32 (su.sinode + inum / 8)) g.su

    block_lem : (j : ℕ) → inode_block t j ≡ inode_block s j
    block_lem j = ap (λ su. u32 (su.sinode + j / 8)) g.su

    in_range : inum < t.su.ninodes
    in_range = rw (g.su) e.in_range

    far : (i : ℕ) → 10 ≤ i → i < 13 → (inode_at t inum).ptrs i ≡ 0
    far i lo h = let miss : ltb i (blocks_of n) ≡ false = ground arith in g.ptrs i h ∙ rw miss refl

    file :
        (j : ℕ)
        → j < 16650
        → file_block t (inode_at t inum) j ≡ (if ltb j (blocks_of n) then c + j + s.su.sdata else 0)
    file j h = file_block-direct t (inode_at t inum) far j h ∙ elim (Bool-cases (ltb j 10)) [
      | inl direct ↦ rw direct (g.ptrs j (ground arith) ∙ rw (place (c + j) (ground arith)) refl)
      | inr behind ↦ let miss : ltb j (blocks_of n) ≡ false = ground arith in rw (behind, miss) refl
    ]

    -- The blocks of the file are those of the ten bits, and lie behind the inodes.
    missed :
        (p : ℕ)
        → ((i : ℕ) → i < 10 → p ≢ block_at s (c + i))
        → (j : ℕ) → ltb j (blocks_of n) ≡ true
        → file_block t (inode_at t inum) j ≢ p
    missed p nf j there =
        rw (file j (ground arith), there)
          (λ z.
            let here : block_at s (c + j) ≡ c + j + s.su.sdata = place (c + j) (ground arith) in
            nf j (ground arith) (sym z ∙ sym here))

    behind_inodes :
        (j i : ℕ)
        → inode_block s j < s.su.sbitmap
        → ltb i (blocks_of n) ≡ true
        → file_block t (inode_at t inum) i ≢ inode_block t j
    behind_inodes j i low there =
        rw (file i (ground arith), there) (λ z. omega (arith, z, block_lem j, low, e.bitmap_high))

    module _ (room : n + 1 < 5120) where
      few : blocks_of (n + 1) ≤ 10
      few = ground arith

      -- The request of one byte.
      abbrev byte : Bytes
      byte i = source n

      abbrev Wanted : ℕ → Type 0
      Wanted = InRange (asked t inum byte 1 n)

      near : (j : ℕ) → Wanted j → j < 16650
      near j h = omega (arith, h.high)

      not_inode :
          (j : ℕ) → (if ltb j (blocks_of n) then c + j + s.su.sdata else 0) ≢ inode_block t inum
      not_inode j = elim (Bool-cases (ltb j (blocks_of n))) [
        | inl there ↦ rw there (λ h. omega (arith, h, same_inode, e.inode_high, e.bitmap_high))
        | inr hole ↦ rw hole (λ h. omega (arith, h, same_inode, e.inode_low))
      ]

      -- The bytes of the file with one more.
      content-next :
          (o : ℕ)
          → o < n + 1
          → (if leb n o && ltb o (n + 1) then source n else content t (inode_at t inum) o)
            ≡ source o
      content-next o h = elim (Bool-cases (o == n)) [
        | inl last ↦
            let at : o ≡ n = ground arith in
            let hit : (leb n o && ltb o (n + 1)) ≡ true = ground arith in
            rw hit (ap source (sym at))
        | inr old ↦
            let miss : (leb n o && ltb o (n + 1)) ≡ false = ground arith in
            rw miss (g.content o (ground arith))
      ]

      -- No block is missing.
      module _ (whole : (n == 0 || n % 512 == 511) ≡ false) where
        there : (j : ℕ) → Wanted j → ltb j (blocks_of n) ≡ true
        there j h = ground (arith, h.low, h.high)

        kept-Room : Room t inum (asked t inum byte 1 n)
        kept-Room = record {
          present = λ j h. rw (file j (near j h), there j h) (λ z. omega (arith, z, e.bitmap_high));
          apart = λ i j h hj ne.
              rw (file i (near i h), there i h, file j hj)
                (elim (Bool-cases (ltb j (blocks_of n))) [
                  | inl other ↦ rw other (λ z. ne (omega (arith, z)))
                  | inr hole ↦ rw hole (λ z. omega (arith, z, e.bitmap_high))
                ]);
          not_inodes = λ j hj. rw (file j hj) (not_inode j);
          pointers = pointers-direct t (inode_at t inum) far _;
        }

        as_many : blocks_of (n + 1) ≡ blocks_of n
        as_many = ground arith

        kept-Copied : (u : Fs) → Stored t inum byte 1 n u → Copied s inum c source (n + 1) u
        kept-Copied u st = record {
          mounted = st.mounted;
          bytes = st.bytes;
          su = st.su ∙ g.su;
          ptrs = λ i h. rw as_many (st.inode.ptrs i h ∙ g.ptrs i h);
          bits = λ j h. rw (as_many, same_bitmap) (g.bits j h);
          size =
              st.inode.size
              ∙ (let size : (inode_at t inum).size ≡ n = g.size in ground (arith, size));
          content = λ o h. st.content o (omega arith) ∙ content-next o h;
          spared = λ p ni nb nf.
              st.spared p (λ z. ni (sym z ∙ same_inode)) (λ j h. missed p nf j (there j h))
              ∙ g.spared p ni nb nf;
          others = λ j hj ne low.
              SameInode-trans
                (st.others j (rw (g.su) hj) ne (λ i h. behind_inodes j i low (there i h)))
                (g.others j hj ne low);
        }
          where
            same_bitmap : bitmap u ≡ bitmap t
            same_bitmap =
                ap (λ su. u.disk su.sbitmap) st.su
                ∙ st.spared t.su.sbitmap
                    (λ z. omega (arith, z, same_inode, same_sbitmap, e.inode_high))
                    (λ j h.
                      rw (file j (near j h), there j h)
                        (λ z. omega (arith, z, same_sbitmap, e.bitmap_high)))

      -- The next block is missing.
      module _ (new : (n == 0 || n % 512 == 511) ≡ true) where
        abbrev k : ℕ
        k = blocks_of n

        one_more : blocks_of (n + 1) ≡ k + 1
        one_more = ground arith

        others : (j : ℕ) → Wanted j → j ≢ k → ltb j k ≡ true
        others j h ne = ground (arith, h.low, h.high)

        same_block : block_at t (c + k) ≡ c + k + s.su.sdata
        same_block = rw same_sdata (place (c + k) (omega (arith, few, one_more)))

        set : (j : ℕ) → j < k → bit_at (bitmap t) (c + j) ≡ 1
        set j h =
            let lo : ltb (c + j) (c + k) ≡ true = ground arith in
            g.bits (c + j) (omega (arith, few, one_more)) ∙ rw lo refl

        grows : Grows t inum byte 1 n k (c + k)
        grows = record {
          direct = omega (arith, few, one_more);
          in_range = record { low = ground arith; high = ground arith };
          null =
              let miss : ltb k k ≡ false = ground arith in
              file k (omega (arith, few, one_more)) ∙ rw miss refl;
          vacant = record {
            bytes = g.bytes t.su.sbitmap;
            covered = omega (arith, same_nblock, e.covered);
            in_range = omega (arith, same_nblock, e.enough, few, one_more);
            clear =
                let hi : ltb (c + k) (c + k) ≡ false = ground arith in
                g.bits (c + k) (omega (arith, few, one_more)) ∙ rw hi refl;
            least = λ j h.
                let lo : ltb j (c + k) ≡ true = ground arith in
                g.bits j (omega (arith, few, one_more)) ∙ rw lo refl;
          };
          no_wrap = omega (arith, same_nblock, same_sdata, e.no_wrap);
          inode_low = omega (arith, same_inode, e.inode_low);
          inode_high = omega (arith, same_inode, same_sbitmap, e.inode_high);
          bitmap_high = omega (arith, same_sbitmap, same_sdata, e.bitmap_high);
          present = λ j h ne.
              rw (file j (near j h), others j h ne) (λ z. omega (arith, z, e.bitmap_high));
          apart = λ i j h ni hj ne.
              rw (file i (near i h), others i h ni, file j hj)
                (elim (Bool-cases (ltb j k)) [
                  | inl other ↦ rw other (λ z. ne (omega (arith, z)))
                  | inr hole ↦ rw hole (λ z. omega (arith, z, e.bitmap_high))
                ]);
          used = λ j h. rw (file j h) (elim (Bool-cases (ltb j k)) [
            | inl old ↦ rw old (λ ne.
                let index : c + j + s.su.sdata - t.su.sdata ≡ c + j = omega (arith, same_sdata) in
                record { low = omega (arith, same_sdata); set = rw index (set j (ground arith)) })
            | inr hole ↦ rw hole (λ ne. absurd (ne refl))
          ]);
          pointers = pointers-direct t (inode_at t inum) far _;
        }

        -- Block `k` is the new one from here on.
        blocks_added :
            (i : ℕ)
            → (if i == k then block_at t (c + k) else if ltb i k then block_at s (c + i) else 0)
              ≡ (if ltb i (k + 1) then block_at s (c + i) else 0)
        blocks_added i = elim (Bool-cases (i == k)) [
          | inl this ↦
              let at : i ≡ k = ground arith in
              let lo : ltb i (k + 1) ≡ true = ground arith in
              rw (this, lo)
                (same_block
                  ∙ sym (place (c + k) (omega (arith, few, one_more)))
                  ∙ ap (λ x. block_at s (c + x)) (sym at))
          | inr old ↦ let same : ltb i (k + 1) ≡ ltb i k = ground arith in rw (old, same) refl
        ]

        added-Copied :
            (u : Fs) → Grown t inum byte 1 n k (c + k) u → Copied s inum c source (n + 1) u
        added-Copied u st = record {
          mounted = st.mounted;
          bytes = st.bytes;
          su = st.su ∙ g.su;
          ptrs = λ i h. rw one_more (st.inode.ptrs i h ∙ rw (g.ptrs i h) (blocks_added i));
          bits = λ j h.
              let bit : bit_at (bitmap u) j ≡ (if j == c + k then 1 else bit_at (bitmap t) j) =
                st.bits j in
              rw one_more (bit ∙ rw (g.bits j h) (ground arith));
          size =
              st.inode.size
              ∙ (let size : (inode_at t inum).size ≡ n = g.size in ground (arith, size));
          content = λ o h. st.content o (omega arith) ∙ (elim (Bool-cases (o / 512 == k)) [
            | inl here ↦
                let hit : (leb n o && ltb o (n + 1)) ≡ true = ground arith in
                rw (here, hit) (ap source (let at : n ≡ o = ground arith in at))
            | inr old ↦ rw old (content-next o h)
          ]);
          spared = λ p ni nb nf.
              st.spared p (λ z. ni (z ∙ same_inode)) (λ z. nb (z ∙ same_sbitmap))
                (λ z.
                  nf k (omega (arith, few, one_more))
                    (z ∙ same_block ∙ sym (place (c + k) (omega (arith, few, one_more)))))
                (λ j h ne. missed p nf j (others j h ne))
              ∙ g.spared p ni nb nf;
          others = λ j hj ne low.
              SameInode-trans
                (st.others j (rw (g.su) hj) ne (omega (arith, block_lem j, same_sbitmap, low)))
                (g.others j hj ne low);
        }

  -- One round: the byte is written, whether the next block is there or not.
  pub next-Copied :
      (n : ℕ) (t : Fs)
      → Copied s inum c source n t
      → n + 1 < 5120
      → source n < 256
      → (u : Fs) × (fs_write inum (λ i. source n) 1 n t ≡ ok (some (1, λ i. source n)) u)
        × Copied s inum c source (n + 1) u
  next-Copied n t g room small =
      let short : n < 5120 = omega arith in
      elim (Bool-cases (n == 0 || n % 512 == 511)) [
        | inl new ↦
            let (u, run, st) =
              fs_write-Grown t inum (λ i. source n) 1 n (blocks_of n) (c + blocks_of n) g.mounted
                g.bytes (in_range n t g short) (omega arith) (λ i. small)
                (grows n t g short room new) in
            (u, run, added-Copied n t g short room new u st)
        | inr whole ↦
            let (u, run, st) =
              fs_write-content t inum (λ i. source n) 1 n g.mounted g.bytes (in_range n t g short)
                (omega arith) (λ i. small) (kept-Room n t g short room whole) in
            (u, run, kept-Copied n t g short room whole u st)
      ]

  -- Each byte of the file is in a block.
  pub Copied-mapped :
      (n : ℕ) (t : Fs)
      → Copied s inum c source n t
      → n < 5120
      → (o : ℕ) → o < n
      → file_block t (inode_at t inum) (o / 512) ≢ 0
  Copied-mapped n t g short o h =
      let there : ltb (o / 512) (blocks_of n) ≡ true = ground arith in
      rw (file n t g short (o / 512) (omega arith), there) (λ z. omega (arith, z, e.bitmap_high))
