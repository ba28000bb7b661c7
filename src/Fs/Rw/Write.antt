-- ===== src/Fs/Rw/Write.antt =====
-- `recursive_rw` in a write to blocks that are there: it changes no pointer and no block of pointers,
-- and comes as far as the blocks below its pointer.
use mathlib.Core.Path.{subst}
use model_lib.Base.{
  ℕ, zero, suc, ◌+◌, ◌-◌, ◌*◌, ◌/◌, ◌≤◌, ◌<◌, ◌≡◌, ◌≢◌, refl, arith, ◌==◌, ltb, leb, ◌&&◌, u32,
  true, false, Bool-cases, inl, inr, ap, sym, ◌∙◌, update,
}
use model_lib.Fs.Layout.{get_u32}
use model_lib.Fs.State.{Fs, Run, ok}
use model_lib.Fs.Rw.{
  Share, Outcome, span, skip, ensure, enter, data_block, children, indirect_block, recursive_rw,
}
use model_lib.Fs.Rw.View.{block_of, span-suc, block_of_child, block_of_zero, span_pos}
use model_lib.Fs.Rw.Progress.{Request}
use model_lib.Fs.Rw.Read.{AllBytes, update_self, put_u32_self}
use model_lib.Fs.Rw.Kept.{Pointers}
use model_lib.Fs.Rw.Written.{InRange, Separate, Written, skip-Written, data-Written}

pub ensure-some : (l p : ℕ) (t : Fs) → p ≢ 0 → ensure l p t ≡ ok p t
unfolding ensure
ensure-some l p t ne = let some : (p == 0) ≡ false = ground arith in rw some

-- The blocks below a child are among those below the parent.
child_end : (l j k : ℕ) → l < 2 → j < 128 → k < span l → j * span l + k < span (suc l)
child_end l j k h hj hk = grind (arith, span-suc l)

child_last : (l j : ℕ) → l < 2 → j < 128 → j * span l + span l ≤ span (suc l)
child_last l j h hj = grind (arith, span-suc l)

module _ (s : Fs) (r : Request) (bytes : AllBytes s) (sep : Separate r)
    (buf_bytes : (i : ℕ) → r.buf i < 256) (Apart : ℕ → Type 0)
    (clear : (p : ℕ) → Apart p → (k : ℕ) → InRange r k → r.file k ≢ p) where
  abbrev pub Writes : ℕ → ℕ → Run Outcome → Type 0
  Writes n p out = (sa : Share) × (t : Fs) × (out ≡ ok (true, p, sa) t) × Written s r n sa t

  abbrev pub Covers : ℕ → ℕ → ℕ → Type 0
  Covers l p n = (k : ℕ) → k < span l → r.file (n + k) ≡ block_of s l p k

  -- A pointer to blocks of the request is not null.
  covered-some :
      (l p n : ℕ) {sa : Share} {t : Fs}
      → l ≤ 2
      → Written s r n sa t
      → Covers l p n
      → (leb sa.boff sa.eblock && ltb sa.sblock (n + span l)) ≡ true
      → p ≢ 0
  covered-some l p n {sa} hl g covers over null = elim (Bool-cases (ltb n (r.from / 512))) [
    | inl before ↦
        at (r.from / 512) (ground (arith, g)) (ground (arith, g))
          (record { low = omega arith; high = omega arith })
    | inr behind ↦
        at n (omega arith) (omega (arith, span_pos l hl))
          (record { low = ground arith; high = ground (arith, g) })
  ]
    where
      at : (k : ℕ) → n ≤ k → k < n + span l → InRange r k → ⊥
      at k lo hi ik =
          let e : n + (k - n) ≡ k = omega arith in
          sep.present k ik (
            ap r.file (sym e)
            ∙ covers (k - n) (omega arith)
            ∙ ap (λ q. block_of s l q (k - n)) null
            ∙ block_of_zero s l (k - n))

  enter-Writes :
      (l p n : ℕ) {sa : Share} {t : Fs} (inside : ℕ → Share → ℕ → Fs → Run Outcome)
      → l ≤ 2
      → Written s r n sa t
      → n + span l ≤ 16650
      → Covers l p n
      → ((leb sa.boff sa.eblock && ltb sa.sblock (n + span l)) ≡ true
          → p ≢ 0
          → Writes (n + span l) p (inside p sa (n + span l) t))
      → Writes (n + span l) p (enter l inside p sa t)
  unfolding enter
  enter-Writes l p n {sa} {t} inside hl g h covers step =
      elim (Bool-cases (leb sa.boff sa.eblock && ltb sa.sblock (n + span l))) [
        | inr out ↦ rw (end, out) (skip sa (n + span l), t, refl, skip-Written g (span l) h out)
        | inl over ↦
            let ne : p ≢ 0 = covered-some l p n hl g covers over in
            let some : (p == 0) ≡ false = ground arith in
            rw (end, over) (simp g.writes (rw (ensure-some l p t ne, some) (step over ne)))
      ]
    where
      end : u32 (sa.boff + span l) ≡ n + span l
      end = omega (arith, g.boff)

  data_block-Writes :
      (q n : ℕ) {sa : Share} {t : Fs}
      → Written s r n sa t
      → n + 1 ≤ 16650
      → r.file n ≡ q
      → (leb sa.boff sa.eblock && ltb sa.sblock (n + 1)) ≡ true
      → Writes (n + 1) q (data_block q sa (n + 1) t)
  unfolding data_block
  data_block-Writes q n {sa} {t} g h here over =
      simp g.writes (rw (sym here) (_, _, refl, data-Written g over h sep buf_bytes))

  -- The loop over the children of block `q`, the first of which covers the blocks from `n` on.
  module _ (l q n : ℕ) (visit : ℕ → Share → Fs → Run Outcome) where
    abbrev child : ℕ → ℕ
    child i = get_u32 (s.disk q) (4 * i)

    children-Writes :
        (rounds i : ℕ) (sa : Share) (t : Fs)
        → rounds + i ≡ 128
        → Written s r (n + i * span l) sa t
        → ((j : ℕ) (sb : Share) (u : Fs)
            → j < 128
            → Written s r (n + j * span l) sb u
            → Writes (n + j * span l + span l) (child j) (visit (child j) sb u))
        → (sb : Share) × (u : Fs) × (children rounds visit (s.disk q) i sa t
            ≡ ok (true, s.disk q, sb) u)
          × Written s r (n + 128 * span l) sb u
    unfolding children
    children-Writes zero i sa t e g each =
        (sa, t, refl, subst (λ k. Written s r (n + k * span l) sa t) (omega arith) g)
    children-Writes (suc rounds) i sa t e g each =
        let (sb, u, run, g') = each i sa t (omega arith) g in
        rw (run, put_u32_self (s.disk q) (4 * i) (bytes q))
          (children-Writes rounds (i + 1) sb u (omega arith)
            (subst (λ k. Written s r k sb u) (grind arith) g') each)

  -- The block of pointers is read, and written back as it was.
  indirect_block-Writes :
      (q m : ℕ) (visit : ℕ → Share → Fs → Run Outcome) (sa : Share) (t : Fs)
      → t.disk q ≡ s.disk q
      → ((u : Fs) (sb : Share) → Written s r m sb u → u.disk q ≡ s.disk q)
      → ((sb : Share) × (u : Fs) × (children 128 visit (s.disk q) 0 sa t
            ≡ ok (true, s.disk q, sb) u)
          × Written s r m sb u)
      → Writes m q (indirect_block visit q sa t)
  unfolding indirect_block
  indirect_block-Writes q m visit sa t same kept (sb, u, run, g) = (
    sb,
    u,
    rw (same, run)
        (ap (λ d. ok (true, q, sb) (record u { disk = d }))
          (ap (update u.disk q) (sym (kept u sb g)) ∙ update_self u.disk q)),
    g,
  )

  leaf_Writes :
      (p n : ℕ) (sa : Share) (t : Fs)
      → Written s r n sa t
      → n + span 0 ≤ 16650
      → Covers 0 p n
      → Writes (n + span 0) p (recursive_rw 0 p sa t)
  unfolding recursive_rw span block_of
  leaf_Writes p n sa t g h covers =
      enter-Writes 0 p n data_block (omega arith) g h covers λ over ne.
        data_block-Writes p n g h
          (ap r.file (let e : n ≡ n + 0 = omega arith in e) ∙ covers 0 (omega arith)) over

  -- A write below a pointer that covers the blocks from `n` on returns, keeps the pointer, and has then
  -- come to the end of those blocks.
  pub recursive_rw-Writes :
      (l : ℕ)
      → l ≤ 2
      → (p n : ℕ) (sa : Share) (t : Fs) → Written s r n sa t
      → n + span l ≤ 16650
      → Covers l p n
      → Pointers s Apart l p
      → Writes (n + span l) p (recursive_rw l p sa t)
  unfolding recursive_rw
  recursive_rw-Writes zero hl p n sa t g h covers apart = leaf_Writes p n sa t g h covers
  recursive_rw-Writes (suc l) hl p n sa t g h covers apart =
      enter-Writes (suc l) p n (λ q sb _. indirect_block (recursive_rw l) q sb) hl g h covers
        λ over ne.
          let (here, below) : Apart p
              × ((j : ℕ) → j < 128 → Pointers s Apart l (get_u32 (s.disk p) (4 * j))) =
            unfold Pointers in apart ne in
          indirect_block-Writes p (n + span (suc l)) (recursive_rw l) sa t
            (g.outside p (clear p here)) (λ u sb gu. gu.outside p (clear p here))
            (subst
              (λ m.
                (sb : Share) × (u : Fs) × (children 128 (recursive_rw l) (s.disk p) 0 sa t
                  ≡ ok (true, s.disk p, sb) u)
                × Written s r (n + m) sb u)
              (sym (span-suc l (omega arith)))
              (children-Writes l p n (recursive_rw l) 128 0 sa t (omega arith)
                (subst (λ k. Written s r k sa t) (omega arith) g)
                λ j sb u hj gj.
                  recursive_rw-Writes l (omega arith) (get_u32 (s.disk p) (4 * j)) (n + j * span l)
                    sb u gj
                    (omega (
                      arith,
                      h,
                      child_end l j 0 (omega arith) hj (span_pos l (omega arith)),
                      child_last l j (omega arith) hj,
                    ))
                    (λ k hk.
                      ap r.file
                        (let e : n + j * span l + k ≡ n + (j * span l + k) = omega arith in e)
                      ∙ covers (j * span l + k) (child_end l j k (omega arith) hj hk)
                      ∙ block_of_child s l p j k (omega arith) hk (ground arith))
                    (below j hj)))
