-- ===== src/Fs/Rw/Read.antt =====
-- `recursive_rw` in a read: it changes no block and no pointer, and comes as far as the blocks below
-- its pointer.
use mathlib.Core.Path.{subst}
use model_lib.Base.{
  ℕ, zero, suc, ◌+◌, ◌-◌, ◌*◌, ◌/◌, ◌≤◌, ◌<◌, ◌≡◌, ◌≢◌, refl, arith, ◌==◌, ltb, leb, ◌&&◌, u32,
  true, Bool-cases, inl, inr, ap, sym, ◌∙◌, ==_iff, fun_ext, update,
}
use model_lib.Fs.Layout.{Block, get_u32, put_u32, splice, byte_of}
use model_lib.Fs.State.{Fs, Run, ok}
use model_lib.Fs.Rw.{
  Share, Outcome, span, skip, hole, enter, data_block, children, indirect_block, recursive_rw,
}
use model_lib.Fs.Rw.View.{block_of, span-suc, block_of_child, block_of_zero, span_pos}
use model_lib.Fs.Rw.Progress.{Request, Progress, skip-Progress, hole-Progress, data-Progress}

-- Every cell of every block holds a byte.
abbrev pub AllBytes : Fs → Type 0
AllBytes s = (n i : ℕ) → s.disk n i < 256

module _ (b : Block) (o : ℕ) (bytes : (i : ℕ) → b i < 256) where
  self_byte : (c : ℕ) → c < 4 → byte_of (get_u32 b o) c ≡ b (o + c)
  self_byte zero h =
      let e : b (o + 0) ≡ b o = ap b (omega arith) in
      omega (arith, e, bytes o, bytes (o + 1), bytes (o + 2), bytes (o + 3))
  self_byte (suc zero) h = omega (arith, bytes o, bytes (o + 1), bytes (o + 2), bytes (o + 3))
  self_byte (suc (suc zero)) h = omega (arith, bytes o, bytes (o + 1), bytes (o + 2), bytes (o + 3))
  self_byte (suc (suc (suc zero))) h =
      omega (arith, bytes o, bytes (o + 1), bytes (o + 2), bytes (o + 3))
  self_byte (suc (suc (suc (suc c)))) h = absurd (omega arith)

  pub put_u32_self : put_u32 b o (get_u32 b o) ≡ b
  unfolding splice
  put_u32_self = fun_ext λ j. elim (Bool-cases (leb o j && ltb j (o + 4))) [
    | inl inside ↦
        rw inside
          (self_byte (j - o) (ground arith) ∙ ap b (let e : o + (j - o) ≡ j = ground arith in e))
    | inr outside ↦ rw outside
  ]

pub update_self {ℓ} : {A : Type ℓ} (f : ℕ → A) (q : ℕ) → update f q (f q) ≡ f
update_self f q = fun_ext λ j. elim (Bool-cases (j == q)) [
  | inl hit ↦ let e : j ≡ q = (==_iff _ _).0 hit in rw hit (ap f (sym e))
  | inr miss ↦ rw miss
]

module _ (s : Fs) (r : Request) (bytes : AllBytes s)
    (mapped : (o : ℕ) → r.from ≤ o → o < r.from + r.size → r.file (o / 512) ≢ 0) where
  -- A run that changes nothing on the disk and comes to block `n`.
  abbrev Reads : ℕ → ℕ → Run Outcome → Type 0
  Reads n p out = (sa : Share) × (out ≡ ok (true, p, sa) s) × Progress s r n sa

  -- The pointer `p` of level `l` covers the blocks of the file from `n` on.
  abbrev Covers : ℕ → ℕ → ℕ → Type 0
  Covers l p n = (k : ℕ) → k < span l → r.file (n + k) ≡ block_of s l p k

  -- A null pointer among the blocks of the request is only met when all is read.
  null_done :
      (l n : ℕ) {sa : Share}
      → l ≤ 2
      → Progress s r n sa
      → Covers l 0 n
      → n + span l ≤ 16650
      → (leb sa.boff sa.eblock && ltb sa.sblock (n + span l)) ≡ true
      → sa.pos ≡ r.size
  null_done l n {sa} hl g covers h over = elim (Bool-cases (sa.pos == r.size)) [
    | inl done ↦ (==_iff _ _).0 done
    | inr more ↦ absurd (
        go (r.from + sa.pos) (ground (arith, g)) (ground (arith, g)) (ground (arith, g))
          (ground (arith, g, span_pos l hl)))
  ]
    where
      go : (o : ℕ) → r.from ≤ o → o < r.from + r.size → n ≤ o / 512 → o / 512 < n + span l → ⊥
      go o a b c d =
          let e : n + (o / 512 - n) ≡ o / 512 = omega arith in
          mapped o a b (
            ap r.file (sym e)
            ∙ covers (o / 512 - n) (omega arith)
            ∙ block_of_zero s l (o / 512 - n))

  enter-Reads :
      (l p n : ℕ) {sa : Share} (inside : ℕ → Share → ℕ → Fs → Run Outcome)
      → l ≤ 2
      → Progress s r n sa
      → n + span l ≤ 16650
      → Covers l p n
      → ((leb sa.boff sa.eblock && ltb sa.sblock (n + span l)) ≡ true
          → p ≢ 0
          → Reads (n + span l) p (inside p sa (n + span l) s))
      → Reads (n + span l) p (enter l inside p sa s)
  unfolding enter
  enter-Reads l p n {sa} inside hl g h covers step =
      elim (Bool-cases (leb sa.boff sa.eblock && ltb sa.sblock (n + span l))) [
        | inr out ↦ rw (end, out) (skip sa (n + span l), refl, skip-Progress g (span l) h out)
        | inl over ↦
            rw (end, over)
              (simp g.reads (elim (Bool-cases (p == 0)) [
                | inl null ↦
                    let z : p ≡ 0 = (==_iff _ _).0 null in
                    let c : Covers l 0 n = subst (λ x. Covers l x n) z covers in
                    rw null (
                      hole sa (n + span l),
                      ap (λ x. ok (true, x, hole sa (n + span l)) s) (sym z),
                      hole-Progress g (span l) h (null_done l n hl g c h over),
                    )
                | inr some ↦ rw some (step over (ground arith))
              ]))
      ]
    where
      end : u32 (sa.boff + span l) ≡ n + span l
      end = omega (arith, g.boff)

  data_block-Reads :
      (q n : ℕ) {sa : Share}
      → Progress s r n sa
      → n + 1 ≤ 16650
      → r.file n ≡ q
      → (leb sa.boff sa.eblock && ltb sa.sblock (n + 1)) ≡ true
      → q ≢ 0
      → Reads (n + 1) q (data_block q sa (n + 1) s)
  unfolding data_block
  data_block-Reads q n {sa} g h here over ne =
      simp g.reads (_, refl, data-Progress g over h q here ne)

  -- The loop over the children of block `q`, the first of which covers the blocks from `n` on.
  module _ (l q n : ℕ) (visit : ℕ → Share → Fs → Run Outcome) where
    abbrev child : ℕ → ℕ
    child i = get_u32 (s.disk q) (4 * i)

    children-Reads :
        (rounds i : ℕ) (sa : Share)
        → rounds + i ≡ 128
        → Progress s r (n + i * span l) sa
        → ((j : ℕ) (sb : Share)
            → j < 128
            → Progress s r (n + j * span l) sb
            → Reads (n + j * span l + span l) (child j) (visit (child j) sb s))
        → (sb : Share) × (children rounds visit (s.disk q) i sa s ≡ ok (true, s.disk q, sb) s)
          × Progress s r (n + 128 * span l) sb
    unfolding children
    children-Reads zero i sa e g each =
        (sa, refl, subst (λ k. Progress s r (n + k * span l) sa) (omega arith) g)
    children-Reads (suc rounds) i sa e g each =
        let (sb, run, g') = each i sa (omega arith) g in
        rw (run, put_u32_self (s.disk q) (4 * i) (bytes q))
          (children-Reads rounds (i + 1) sb (omega arith)
            (subst (λ k. Progress s r k sb) (grind arith) g') each)

  indirect_block-Reads :
      (l q n m : ℕ) (visit : ℕ → Share → Fs → Run Outcome) (sa : Share)
      → ((sb : Share) × (children 128 visit (s.disk q) 0 sa s ≡ ok (true, s.disk q, sb) s)
          × Progress s r m sb)
      → Reads m q (indirect_block visit q sa s)
  unfolding indirect_block
  indirect_block-Reads l q n m visit sa (sb, run, g) =
      (sb, rw run (ap (λ d. ok (true, q, sb) (record s { disk = d })) (update_self s.disk q)), g)

  leaf_Reads :
      (p n : ℕ) (sa : Share)
      → Progress s r n sa
      → n + span 0 ≤ 16650
      → Covers 0 p n
      → Reads (n + span 0) p (recursive_rw 0 p sa s)
  unfolding recursive_rw span block_of
  leaf_Reads p n sa g h covers = enter-Reads 0 p n data_block (omega arith) g h covers λ over ne.
      data_block-Reads p n g h
        (ap r.file (let e : n ≡ n + 0 = omega arith in e) ∙ covers 0 (omega arith)) over ne

  -- A read below a pointer that covers the blocks from `n` on returns, changes nothing on the disk,
  -- and has then come to the end of those blocks.
  pub recursive_rw-Reads :
      (l : ℕ)
      → l ≤ 2
      → (p n : ℕ) (sa : Share) → Progress s r n sa
      → n + span l ≤ 16650
      → Covers l p n
      → Reads (n + span l) p (recursive_rw l p sa s)
  unfolding recursive_rw
  recursive_rw-Reads zero hl p n sa g h covers = leaf_Reads p n sa g h covers
  recursive_rw-Reads (suc l) hl p n sa g h covers =
      enter-Reads (suc l) p n (λ q sb _. indirect_block (recursive_rw l) q sb) hl g h covers
        λ over ne. indirect_block-Reads l p n (n + span (suc l)) (recursive_rw l) sa (
          subst
            (λ m.
              (sb : Share) × (children 128 (recursive_rw l) (s.disk p) 0 sa s
                ≡ ok (true, s.disk p, sb) s)
              × Progress s r (n + m) sb)
            (sym (span-suc l (omega arith)))
            (children-Reads l p n (recursive_rw l) 128 0 sa (omega arith)
              (subst (λ k. Progress s r k sa) (omega arith) g)
              λ j sb hj gj.
                recursive_rw-Reads l (omega arith) (get_u32 (s.disk p) (4 * j)) (n + j * span l) sb
                  gj (grind (arith, span-suc l))
                  λ k hk.
                    ap r.file (let e : n + j * span l + k ≡ n + (j * span l + k) = omega arith in e)
                    ∙ covers (j * span l + k) (grind (arith, span-suc l))
                    ∙ block_of_child s l p j k (omega arith) hk (ground arith)))
