-- ===== src/Fs/Rw/Hole.antt =====
-- A write that meets a null pointer of the inode: it goes as if the block had been allocated, and the
-- pointer set, before the write.
use model_lib.Base.{
  ℕ, zero, suc, ◌+◌, ◌/◌, ◌^◌, ◌≤◌, ◌<◌, ◌≡◌, ◌≢◌, refl, arith, ltb, leb, ◌==◌, ◌&&◌, u32, true,
  false, Bool-cases, inl, inr, ap, sym, ◌∙◌, fun_ext, update,
}
use mathlib.Core.Path.{subst}
use model_lib.Fs.Layout.{Bytes, Dinode}
use model_lib.Fs.State.{Fs, ok}
use model_lib.Fs.Inode.{get_ilevel}
use model_lib.Fs.Rw.{
  Share, span, advance, skip, ensure, enter, size_of, data_block, recursive_rw, inode_loop,
  transfer,
}
use model_lib.Fs.Rw.Read.{update_self}
use model_lib.Fs.Rw.Write.{ensure-some}
use model_lib.Fs.Rw.FileWrite.{start_share}
use model_lib.Fs.Rw.Vacant.{
  Vacant, marked, block_at, bitmap_alloc-marked, stored, stored-Vacant, stored-marked,
}

ensure-null :
    (t : Fs) (c : ℕ) → Vacant t c → block_at t c ≢ 0 → ensure 0 0 t ≡ ok (block_at t c) (marked t c)
unfolding ensure
ensure-null t c v ne =
    let some : (block_at t c == 0) ≡ false = ground arith in
    rw (bitmap_alloc-marked t c v, some) refl

data_block-stored :
    (t : Fs) (sa : Share) (q e : ℕ)
    → sa.w ≡ true
    → data_block q sa e t ≡ ok (true, q, advance sa e (size_of sa)) (stored t q sa)
unfolding data_block
data_block-stored t sa q e writes = simp writes refl

module _ (t : Fs) (sa : Share) (i : ℕ) (at : sa.boff ≡ i) (near : i < 10) where
  end : u32 (sa.boff + span 0) ≡ i + 1
  unfolding span
  end = omega (arith, at)

  leaf_outside :
      (p : ℕ)
      → (leb sa.boff sa.eblock && ltb sa.sblock (i + 1)) ≡ false
      → recursive_rw 0 p sa t ≡ ok (true, p, skip sa (i + 1)) t
  unfolding recursive_rw enter
  leaf_outside p out = rw (end, out) refl

  module _ (over : (leb sa.boff sa.eblock && ltb sa.sblock (i + 1)) ≡ true)
      (writes : sa.w ≡ true) where
    leaf_there :
        (p : ℕ)
        → p ≢ 0
        → recursive_rw 0 p sa t ≡ ok (true, p, advance sa (i + 1) (size_of sa)) (stored t p sa)
    unfolding recursive_rw enter
    leaf_there p ne =
        let some : (p == 0) ≡ false = ground arith in
        rw (end, over)
          (simp writes (rw (ensure-some 0 p t ne, some) (data_block-stored t sa p (i + 1) writes)))

    leaf_null :
        (c : ℕ)
        → Vacant t c
        → block_at t c ≢ 0
        → recursive_rw 0 0 sa t
          ≡ ok
              (true, block_at t c, advance sa (i + 1) (size_of sa))
              (stored (marked t c) (block_at t c) sa)
    unfolding recursive_rw enter
    leaf_null c v ne =
        let some : (block_at t c == 0) ≡ false = ground arith in
        rw (end, over)
          (simp writes (
            rw (ensure-null t c v ne, some)
              (data_block-stored (marked t c) sa (block_at t c) (i + 1) writes)))

-- A pointer that is set twice.
update_twice : (f : ℕ → ℕ) (k b : ℕ) → update (update f k b) k b ≡ update f k b
update_twice f k b =
    fun_ext λ j. elim (Bool-cases (j == k)) [ inl hit ↦ rw hit | inr miss ↦ rw miss ]

-- The pointers that a request of `from` up to block `last` meets before pointer `k`.
abbrev pub Before : (ℕ → ℕ) → ℕ → ℕ → ℕ → ℕ → Type 0
Before ptrs i k first sb = (j : ℕ) → i ≤ j → j < k → first ≤ j → (ptrs j ≢ 0) × (ptrs j ≢ sb)

-- What the loop over the pointers keeps on its way to the null one.
record Toward (ptrs : ℕ → ℕ) (i k c : ℕ) (sa : Share) (t : Fs) : Type 0 where
  reach : i ≤ k
  boff : sa.boff ≡ i
  writes : sa.w ≡ true
  last : k ≤ sa.eblock
  first : sa.sblock ≤ k
  before : Before ptrs i k sa.sblock t.su.sbitmap
  vacant : Vacant t c
  some_block : block_at t c ≢ 0

module _ (ptrs : ℕ → ℕ) (k c : ℕ) (near : k < 10) (null : ptrs k ≡ 0) where
  abbrev filled : ℕ → ℕ → ℕ
  filled b = update ptrs k b

  -- Another pointer is set to what it is.
  filled-kept : (i b : ℕ) → (i == k) ≡ false → update (filled b) i (ptrs i) ≡ filled b
  filled-kept i b other =
      let same : filled b i ≡ ptrs i = rw other refl in
      ap (update (filled b) i) (sym same) ∙ update_self (filled b) i

  skip-Toward :
      (i : ℕ) (sa : Share) (t : Fs)
      → Toward ptrs i k c sa t
      → (i == k) ≡ false
      → Toward ptrs (i + 1) k c (skip sa (i + 1)) t
  unfolding skip
  skip-Toward i sa t g other = record {
    reach = ground (arith, g.reach);
    boff = refl;
    writes = g.writes;
    last = g.last;
    first = g.first;
    before = λ j hj. g.before j (omega arith);
    vacant = g.vacant;
    some_block = g.some_block;
  }

  stored-Toward :
      (i : ℕ) (sa : Share) (t : Fs)
      → Toward ptrs i k c sa t
      → (i == k) ≡ false
      → ptrs i ≢ t.su.sbitmap
      → Toward ptrs (i + 1) k c (advance sa (i + 1) (size_of sa)) (stored t (ptrs i) sa)
  unfolding advance
  stored-Toward i sa t g other apart = record {
    reach = ground (arith, g.reach);
    boff = refl;
    writes = g.writes;
    last = g.last;
    first = g.first;
    before = λ j hj. g.before j (omega arith);
    vacant = stored-Vacant t (ptrs i) c sa apart g.vacant;
    some_block = g.some_block;
  }

  -- The loop goes as it does with the pointer set and the block allocated.
  inode_loop-filled :
      (rounds i : ℕ) (sa : Share) (t : Fs)
      → rounds + i ≡ 13
      → Toward ptrs i k c sa t
      → inode_loop rounds ptrs i sa t ≡ inode_loop rounds (filled (block_at t c)) i sa (marked t c)
  unfolding inode_loop
  inode_loop-filled zero i sa t e g = absurd (omega (arith, g.reach))
  inode_loop-filled (suc rounds) i sa t e g = elim (Bool-cases (i == k)) [
    | inl here ↦
        let at : i ≡ k = ground arith in
        let level : get_ilevel i ≡ 0 = unfold get_ilevel in ground (arith, g.reach) in
        let over : (leb sa.boff sa.eblock && ltb sa.sblock (i + 1)) ≡ true =
          ground (arith, g.boff, g.last, g.first) in
        let zero_here : ptrs i ≡ 0 = ap ptrs at ∙ null in
        rw
          (
            level,
            zero_here,
            here,
            leaf_null t sa i g.boff (omega arith) over g.writes c g.vacant g.some_block,
            leaf_there (marked t c) sa i g.boff (omega arith) over g.writes (block_at t c)
                g.some_block,
          )
          (ap
            (λ f.
              inode_loop rounds f (i + 1) (advance sa (i + 1) (size_of sa))
                (stored (marked t c) (block_at t c) sa))
            (subst
              (λ n. update ptrs n (block_at t c) ≡ update (filled (block_at t c)) n (block_at t c))
              (sym at) (sym (update_twice ptrs k (block_at t c)))))
    | inr further ↦
        let level : get_ilevel i ≡ 0 = unfold get_ilevel in ground (arith, g.reach) in
        elim (Bool-cases (leb sa.boff sa.eblock && ltb sa.sblock (i + 1))) [
          | inr out ↦
              rw
                (
                  level,
                  further,
                  leaf_outside t sa i g.boff (ground (arith, g.reach)) (ptrs i) out,
                  leaf_outside (marked t c) sa i g.boff (ground (arith, g.reach)) (ptrs i) out,
                  update_self ptrs i,
                  filled-kept i (block_at t c) further,
                )
                (inode_loop-filled rounds (i + 1) (skip sa (i + 1)) t (omega arith)
                  (skip-Toward i sa t g further))
          | inl over ↦
              let (ne, apart) = g.before i (omega arith) (ground (arith, g.reach)) (ground arith) in
              rw
                (
                  level,
                  further,
                  leaf_there t sa i g.boff (ground (arith, g.reach)) over g.writes (ptrs i) ne,
                  leaf_there (marked t c) sa i g.boff (ground (arith, g.reach)) over g.writes
                      (ptrs i) ne,
                  update_self ptrs i,
                  filled-kept i (block_at t c) further,
                )
                (inode_loop-filled rounds (i + 1) (advance sa (i + 1) (size_of sa))
                    (stored t (ptrs i) sa) (omega arith) (stored-Toward i sa t g further apart)
                  ∙ ap
                      (inode_loop rounds (filled (block_at t c)) (i + 1)
                        (advance sa (i + 1) (size_of sa)))
                      (sym (stored-marked t (ptrs i) c sa apart)))
        ]
  ]

-- A write by an inode with a null pointer within the request, the pointers before it being set.
pub transfer-filled :
    (s : Fs) (inum : ℕ) (di : Dinode) (buf : Bytes) (sz off k c : ℕ)
    → k < 10
    → di.ptrs k ≡ 0
    → off + sz < 2 ^ 32
    → off / 512 ≤ k
    → k ≤ (off + sz) / 512
    → Before di.ptrs 0 k (off / 512) s.su.sbitmap
    → Vacant s c
    → block_at s c ≢ 0
    → transfer inum di buf sz off true s
      ≡ transfer inum
          (record di { ptrs = update di.ptrs k (block_at s c) })
          buf
          sz
          off
          true
          (marked s c)
unfolding transfer
transfer-filled s inum di buf sz off k c near null small low high before v ne =
    rw
      (inode_loop-filled di.ptrs k c near null 13 0 (start_share buf sz off) s (omega arith)
        (record {
          reach = omega arith;
          boff = refl;
          writes = refl;
          last = omega arith;
          first = low;
          before = before;
          vacant = v;
          some_block = ne;
        }))
      refl
