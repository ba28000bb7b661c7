-- ===== src/Fs/Rw/Progress.antt =====
-- How far a read has come when the blocks before `n` are done, and that each kind of block that is
-- met keeps it so.
use model_lib.Base.{
  ℕ, ◌+◌, ◌-◌, ◌*◌, ◌/◌, ◌%◌, ◌^◌, ◌≤◌, ◌<◌, ◌≡◌, ◌≢◌, ◌⊎◌, refl, arith, ◌==◌, ltb, leb, ◌&&◌,
  if◌then◌else◌, true, false, Bool-cases, inl, inr, ltb→lt, min, ap, ◌∙◌,
}
use model_lib.Fs.Layout.{Bytes, splice, zeros}
use model_lib.Fs.State.{Fs}
use model_lib.Fs.Rw.{Share, advance, skip, hole_size, hole, start_of, size_of, load}
use model_lib.Fs.Rw.View.{byte_at}

-- A read of `size` bytes from `from` on into `buf`, of a file with the block map `file`.
pub record Request : Type 0 where
  pub from : ℕ
  pub size : ℕ
  pub buf : Bytes
  pub file : ℕ → ℕ

-- What the buffer holds when `k` bytes are read.
abbrev pub filled : Fs → Request → ℕ → Bytes
filled s r k i = if ltb i k then byte_at s r.file (r.from + i) else r.buf i

pub record Progress (s : Fs) (r : Request) (n : ℕ) (sa : Share) : Type 0 where
  pub small : r.from + r.size < 2 ^ 32
  pub near : n ≤ 16650
  pub boff : sa.boff ≡ n
  pub sblock : sa.sblock ≡ r.from / 512
  pub eblock : sa.eblock ≡ (r.from + r.size) / 512
  pub off : sa.off % 512 ≡ (r.from + sa.pos) % 512
  pub pos : sa.pos ≡ min r.size (n * 512 - r.from)
  pub left : sa.left + sa.pos ≡ r.size
  pub reads : sa.w ≡ false
  pub buf : (i : ℕ) → sa.buf i ≡ filled s r sa.pos i

module _ {s : Fs} {r : Request} {n : ℕ} {sa : Share} (p : Progress s r n sa) where
  open p use {small, near, boff, sblock, eblock, off, pos, left, reads, buf}

  -- Blocks outside of the request are passed over.
  pub skip-Progress :
      (m : ℕ)
      → n + m ≤ 16650
      → (leb sa.boff sa.eblock && ltb sa.sblock (n + m)) ≡ false
      → Progress s r (n + m) (skip sa (n + m))
  unfolding skip
  skip-Progress m h out = record {
    small = small;
    near = h;
    boff = refl;
    sblock = sblock;
    eblock = eblock;
    off = omega arith;
    pos = ground arith;
    left = left;
    reads = reads;
    buf = buf;
  }

  -- A hole behind the last byte of the request takes nothing.
  hole_size-zero : (m : ℕ) → n + m ≤ 16650 → sa.pos ≡ r.size → hole_size sa (n + m) ≡ 0
  unfolding hole_size
  hole_size-zero m h done = ground arith

  splice-zero : (b : Bytes) (o : ℕ) (src : Bytes) (i : ℕ) → splice b o 0 src i ≡ b i
  unfolding splice
  splice-zero b o src i = ground arith

  pub hole-Progress :
      (m : ℕ) → n + m ≤ 16650 → sa.pos ≡ r.size → Progress s r (n + m) (hole sa (n + m))
  unfolding hole advance
  hole-Progress m h done = rw (hole_size-zero m h done) (record {
    small = small;
    near = h;
    boff = refl;
    sblock = sblock;
    eblock = eblock;
    off = omega arith;
    pos = omega arith;
    left = omega arith;
    reads = reads;
    buf = λ i.
        splice-zero sa.buf sa.pos zeros i
        ∙ buf i
        ∙ ap (λ k. filled s r k i) (let e : sa.pos ≡ sa.pos + 0 = omega arith in e);
  })

  -- The bytes that a data block gives: those from `start_of` on, up to the end of the block or of
  -- the request.
  module _ (over : (leb sa.boff sa.eblock && ltb sa.sblock (n + 1)) ≡ true)
      (h : n + 1 ≤ 16650) where
    size_lem : sa.pos + size_of sa ≡ min r.size ((n + 1) * 512 - r.from)
    unfolding size_of start_of
    size_lem = ground arith

    size_lem-left : size_of sa ≤ sa.left
    unfolding size_of
    size_lem-left = ground arith

    source_lem :
        (i : ℕ)
        → sa.pos ≤ i
        → i < sa.pos + size_of sa
        → ((r.from + i) / 512 ≡ n) × ((r.from + i) % 512 ≡ start_of sa + (i - sa.pos))
    unfolding size_of start_of
    source_lem i lo hi = ground arith

    module _ (q : ℕ) (here : r.file n ≡ q) (mapped : q ≢ 0) where
      data_buf : Bytes
      data_buf = splice sa.buf sa.pos (size_of sa) (λ i. s.disk q (start_of sa + i))

      data_buf-new :
          (i : ℕ)
          → sa.pos ≤ i
          → i < sa.pos + size_of sa
          → data_buf i ≡ byte_at s r.file (r.from + i)
      unfolding data_buf splice
      data_buf-new i lo hi =
          let inside : (leb sa.pos i && ltb i (sa.pos + size_of sa)) ≡ true = ground arith in
          let there : (q == 0) ≡ false = ground arith in
          let (block, byte) = source_lem i lo hi in rw (inside, block, here, there, byte)

      data_buf-old : (i : ℕ) → (i < sa.pos) ⊎ (sa.pos + size_of sa ≤ i) → data_buf i ≡ sa.buf i
      unfolding data_buf splice
      data_buf-old i h =
          let outside : (leb sa.pos i && ltb i (sa.pos + size_of sa)) ≡ false = ground arith in
          rw outside

      data_buf-filled : (i : ℕ) → data_buf i ≡ filled s r (sa.pos + size_of sa) i
      data_buf-filled i = elim (Bool-cases (ltb i sa.pos)) [
        | inl done ↦
            let t : ltb i (sa.pos + size_of sa) ≡ true = ground arith in
            rw t (data_buf-old i (inl (ltb→lt _ _ done)) ∙ buf i ∙ rw done)
        | inr more ↦ elim (Bool-cases (ltb i (sa.pos + size_of sa))) [
          | inl now ↦ rw now (data_buf-new i (ground arith) (ltb→lt _ _ now))
          | inr later ↦ rw later (data_buf-old i (inr (ground arith)) ∙ buf i ∙ rw more)
        ]
      ]

      pub data-Progress : Progress s r (n + 1) (advance (load sa (s.disk q)) (n + 1) (size_of sa))
      unfolding advance load data_buf
      data-Progress = record {
        small = small;
        near = h;
        boff = refl;
        sblock = sblock;
        eblock = eblock;
        off = omega arith;
        pos = size_lem;
        left = omega (arith, size_lem-left);
        reads = reads;
        buf = data_buf-filled;
      }
