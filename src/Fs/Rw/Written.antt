-- ===== src/Fs/Rw/Written.antt =====
-- How far a write has come when the blocks before `n` are done: what the disk then holds.
use model_lib.Base.{
  ℕ, ◌+◌, ◌-◌, ◌*◌, ◌/◌, ◌%◌, ◌^◌, ◌≤◌, ◌<◌, ◌≡◌, ◌≢◌, refl, arith, ◌==◌, ltb, leb, ◌&&◌,
  if◌then◌else◌, true, false, Bool-cases, inl, inr, min, ◌∙◌, ==_iff, ==_refl, update,
}
use model_lib.Fs.Layout.{Block, splice}
use model_lib.Fs.State.{Fs}
use model_lib.Fs.Rw.{Share, advance, skip, start_of, size_of, store}
use model_lib.Fs.Rw.Progress.{Request}
use model_lib.Fs.Rw.Read.{AllBytes}

-- The blocks that a request of `size` bytes at `from` enters.
pub record InRange (r : Request) (k : ℕ) : Type 0 where
  pub low : r.from / 512 ≤ k
  pub high : k ≤ (r.from + r.size) / 512

-- Every block of the request is there, and is no other block of the file.
pub record Separate (r : Request) : Type 0 where
  pub present : (k : ℕ) → InRange r k → r.file k ≢ 0
  pub distinct : (j k : ℕ) → InRange r j → InRange r k → j ≢ k → r.file j ≢ r.file k

-- Byte `o` of the file when `pos` bytes are written, where it was `old`.
abbrev pub written_byte : Request → ℕ → ℕ → ℕ → ℕ
written_byte r pos o old = if leb r.from o && ltb o (r.from + pos) then r.buf (o - r.from) else old

pub record Written (s : Fs) (r : Request) (n : ℕ) (sa : Share) (t : Fs) : Type 0 where
  pub small : r.from + r.size < 2 ^ 32
  pub near : n ≤ 16650
  pub boff : sa.boff ≡ n
  pub sblock : sa.sblock ≡ r.from / 512
  pub eblock : sa.eblock ≡ (r.from + r.size) / 512
  pub off : sa.off % 512 ≡ (r.from + sa.pos) % 512
  pub pos : sa.pos ≡ min r.size (n * 512 - r.from)
  pub left : sa.left + sa.pos ≡ r.size
  pub writes : sa.w ≡ true
  pub buf : (i : ℕ) → sa.buf i ≡ r.buf i
  pub su : t.su ≡ s.su
  pub init : t.init ≡ s.init
  pub bytes : AllBytes t
  pub inside :
      (k : ℕ)
      → InRange r k
      → (j : ℕ) → j < 512
      → t.disk (r.file k) j ≡ written_byte r sa.pos (k * 512 + j) (s.disk (r.file k) j)
  pub outside : (m : ℕ) → ((k : ℕ) → InRange r k → r.file k ≢ m) → t.disk m ≡ s.disk m

module _ {s : Fs} {r : Request} {n : ℕ} {sa : Share} {t : Fs} (p : Written s r n sa t) where
  open p use {
    small, near, boff, sblock, eblock, off, pos, left, writes, buf, su, init, bytes, inside,
    outside,
  }

  -- Blocks outside of the request are passed over.
  pub skip-Written :
      (m : ℕ)
      → n + m ≤ 16650
      → (leb sa.boff sa.eblock && ltb sa.sblock (n + m)) ≡ false
      → Written s r (n + m) (skip sa (n + m)) t
  unfolding skip
  skip-Written m h out = record {
    small = small;
    near = h;
    boff = refl;
    sblock = sblock;
    eblock = eblock;
    off = omega arith;
    pos = ground arith;
    left = left;
    writes = writes;
    buf = buf;
    su = su;
    init = init;
    bytes = bytes;
    inside = inside;
    outside = outside;
  }

  module _ (over : (leb sa.boff sa.eblock && ltb sa.sblock (n + 1)) ≡ true) (h : n + 1 ≤ 16650)
      (sep : Separate r) (buf_bytes : (i : ℕ) → r.buf i < 256) where
    end_lem : sa.pos + size_of sa ≡ min r.size ((n + 1) * 512 - r.from)
    unfolding size_of start_of
    end_lem = ground arith

    size_lem-left : size_of sa ≤ sa.left
    unfolding size_of
    size_lem-left = ground arith

    here : InRange r n
    here = record { low = ground arith; high = ground arith }

    abbrev new_block : Block
    new_block = store sa (t.disk (r.file n))

    abbrev pub after : Fs
    after = record t { disk = update t.disk (r.file n) new_block }

    block_end : start_of sa + size_of sa ≤ 512
    unfolding size_of start_of
    block_end = ground arith

    -- Where there is a byte to write, the transfer has come to `start_of` in block `n`.
    place : 0 < size_of sa → r.from + sa.pos ≡ n * 512 + start_of sa
    unfolding size_of start_of
    place some = ground arith

    -- The block that is written.
    new_block-byte :
        (j : ℕ)
        → j < 512
        → new_block j ≡ written_byte r (sa.pos + size_of sa) (n * 512 + j) (s.disk (r.file n) j)
    unfolding store splice
    new_block-byte j hj =
        elim (Bool-cases (leb (start_of sa) j && ltb j (start_of sa + size_of sa))) [
          | inl new ↦
              let at : r.from + sa.pos ≡ n * 512 + start_of sa = place (ground arith) in
              let hit : (leb r.from (n * 512 + j)
                    && ltb (n * 512 + j) (r.from + (sa.pos + size_of sa)))
                  ≡ true =
                ground arith in
              let index : sa.pos + (j - start_of sa) ≡ n * 512 + j - r.from = ground arith in
              rw (new, hit, index) (buf (n * 512 + j - r.from))
          | inr old ↦ rw old (inside n here j hj ∙ same_byte j hj old)
        ]
      where
        same_byte :
            (j : ℕ)
            → j < 512
            → (leb (start_of sa) j && ltb j (start_of sa + size_of sa)) ≡ false
            → written_byte r sa.pos (n * 512 + j) (s.disk (r.file n) j)
              ≡ written_byte r (sa.pos + size_of sa) (n * 512 + j) (s.disk (r.file n) j)
        same_byte j hj old = elim (Bool-cases (size_of sa == 0)) [
          | inl none ↦ let z : sa.pos + size_of sa ≡ sa.pos = ground arith in rw z
          | inr some ↦
              let at : r.from + sa.pos ≡ n * 512 + start_of sa = place (ground arith) in
              ground (arith, at)
        ]

    -- Another block has no byte among the new ones.
    other_byte :
        (k j old : ℕ)
        → j < 512
        → k ≢ n
        → written_byte r sa.pos (k * 512 + j) old
          ≡ written_byte r (sa.pos + size_of sa) (k * 512 + j) old
    other_byte k j old hj ne = elim (Bool-cases (size_of sa == 0)) [
      | inl none ↦ let z : sa.pos + size_of sa ≡ sa.pos = ground arith in rw z
      | inr some ↦
          let at : r.from + sa.pos ≡ n * 512 + start_of sa = place (ground arith) in
          ground (arith, at, block_end)
    ]

    new_block-bytes : (j : ℕ) → new_block j < 256
    unfolding store splice
    new_block-bytes j =
        elim (Bool-cases (leb (start_of sa) j && ltb j (start_of sa + size_of sa))) [
          | inl new ↦
              rw (new, buf (sa.pos + (j - start_of sa))) (buf_bytes (sa.pos + (j - start_of sa)))
          | inr old ↦ rw old (bytes (r.file n) j)
        ]

    after-bytes : AllBytes after
    after-bytes m j = elim (Bool-cases (m == r.file n)) [
      | inl hit ↦ rw hit (new_block-bytes j)
      | inr miss ↦ rw miss (bytes m j)
    ]

    after-inside :
        (k : ℕ)
        → InRange r k
        → (j : ℕ) → j < 512
        → after.disk (r.file k) j
          ≡ written_byte r (sa.pos + size_of sa) (k * 512 + j) (s.disk (r.file k) j)
    after-inside k ik j hj = elim (Bool-cases (k == n)) [
      | inl this ↦
          let e : k ≡ n = (==_iff _ _).0 this in rw (e, ==_refl (r.file n)) (new_block-byte j hj)
      | inr other ↦
          let ne : k ≢ n = ground arith in
          let apart : (r.file k == r.file n) ≡ false =
            let d : r.file k ≢ r.file n = sep.distinct k n ik here ne in ground arith in
          rw apart (inside k ik j hj ∙ other_byte k j _ hj ne)
    ]

    after-outside : (m : ℕ) → ((k : ℕ) → InRange r k → r.file k ≢ m) → after.disk m ≡ s.disk m
    after-outside m away =
        let apart : (m == r.file n) ≡ false = let d : r.file n ≢ m = away n here in ground arith in
        rw apart (outside m away)

    pub data-Written : Written s r (n + 1) (advance sa (n + 1) (size_of sa)) after
    unfolding advance
    data-Written = record {
      small = small;
      near = h;
      boff = refl;
      sblock = sblock;
      eblock = eblock;
      off = omega arith;
      pos = end_lem;
      left = omega (arith, size_lem-left);
      writes = writes;
      buf = buf;
      su = su;
      init = init;
      bytes = after-bytes;
      inside = after-inside;
      outside = after-outside;
    }
