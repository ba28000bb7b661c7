-- ===== src/Fs/Rw/Blocks.antt =====
-- One data block: a write is undone by the read of the same bytes, and a hole ignores where in its
-- block a read starts.
use model_lib.Base.{
  ℕ, ◌+◌, ◌^◌, ◌≤◌, ◌<◌, ◌≡◌, ◌≢◌, ◌⊎◌, refl, arith, ltb, leb, ◌&&◌, u32, true, false, ap, ◌∙◌,
  ==_refl, update,
}
use model_lib.Fs.Layout.{Bytes, zeros}
use model_lib.Fs.Layout.Views.{splice_inside, splice_outside}
use model_lib.Fs.State.{Fs, ok}
use model_lib.Fs.Rw.{
  Share, span, advance, hole, hole_size, load, store, start_of, size_of, data_block, enter,
  recursive_rw,
}

abbrev stored : Fs → ℕ → Share → Fs
stored s q sa = record s { disk = update s.disk q (store sa (s.disk q)) }

-- A data block that is written from the buffer, and then read at the same offset and length into
-- another buffer, puts there the bytes that were written. The write changes the bytes of the block
-- from `start_of` on for `size_of` bytes, and no others, and no other block.
pub data_block-roundtrip :
    (s : Fs) (q eblock : ℕ) (sa : Share) (buf : Bytes)
    → sa.w ≡ true
    → (t : Fs) × (sb sc : Share) × (data_block q sa eblock s ≡ ok (true, q, sb) t)
      × (data_block q (record sa { w = false; buf = buf }) eblock t ≡ ok (true, q, sc) t)
      × ((i : ℕ) → i < size_of sa → sc.buf (sa.pos + i) ≡ sa.buf (sa.pos + i))
      × ((i : ℕ) → (i < start_of sa) ⊎ (start_of sa + size_of sa ≤ i) → t.disk q i ≡ s.disk q i)
      × ((m : ℕ) → m ≢ q → t.disk m ≡ s.disk m)
unfolding data_block load store advance size_of start_of
data_block-roundtrip s q eblock sa buf writes = (
  stored s q sa,
  advance sa eblock (size_of sa),
  advance (load reader block) eblock (size_of sa),
  simp writes,
  refl,
  λ i h.
      splice_inside buf (λ k. block (start_of sa + k)) sa.pos (size_of sa) i h
      ∙ ap (λ (b : Bytes). b (start_of sa + i)) same
      ∙ splice_inside (s.disk q) (λ k. sa.buf (sa.pos + k)) (start_of sa) (size_of sa) i h,
  λ i h.
      ap (λ (b : Bytes). b i) same
      ∙ splice_outside (s.disk q) (λ k. sa.buf (sa.pos + k)) (start_of sa) (size_of sa) i h,
  λ m ne. ground arith,
)
  where
    reader : Share
    reader = record sa { w = false; buf = buf }

    block : Bytes
    block = (stored s q sa).disk q

    same : block ≡ store sa (s.disk q)
    same = rw (==_refl q)

-- A read that meets the null pointer of a data block it covers, with at least 512 bytes left and
-- block numbers that do not wrap, delivers 512 zeros, also where it starts in the middle of the
-- block: the next block is then entered at that same offset.
pub hole-overruns :
    (s : Fs) (sa : Share)
    → sa.w ≡ false
    → sa.boff + 1 < 2 ^ 32
    → sa.boff ≤ sa.eblock
    → sa.sblock ≤ sa.boff
    → 512 ≤ sa.left
    → (sb : Share) × (recursive_rw 0 0 sa s ≡ ok (true, 0, sb) s)
      × (sb.pos ≡ sa.pos + 512)
      × (start_of sb ≡ start_of sa)
      × ((i : ℕ) → i < 512 → sb.buf (sa.pos + i) ≡ 0)
unfolding recursive_rw enter span hole advance start_of
hole-overruns s sa reads wrap begun inside enough =
    let end : u32 (sa.boff + 1) ≡ sa.boff + 1 = omega arith in
    let over : (leb sa.boff sa.eblock && ltb sa.sblock (sa.boff + 1)) ≡ true = ground arith in
    (
      hole sa (sa.boff + 1),
      rw (end, over) (simp reads),
      rw whole,
      rw whole (omega arith),
      λ i h. rw whole (splice_inside sa.buf zeros sa.pos 512 i h),
    )
  where
    whole : hole_size sa (sa.boff + 1) ≡ 512
    whole = unfold hole_size in ground arith
