-- ===== src/Ide/Init/Probe.antt =====
-- The runs of `ide_init` with controllers that do what is documented.
use model_lib.Base.{
  ℕ, zero, suc, ◌+◌, ◌*◌, ◌%◌, ◌≤◌, ◌<◌, ◌≡◌, ◌≢◌, refl, arith, ap, ◌∙◌, Bool, true, false, ◌==◌,
  ltb, if◌then◌else◌, Option, some, Bool-cases, inl, inr, update,
}
use mathlib.Core.Path.{subst}
use model_lib.Fs.Layout.{Bytes}
use model_lib.Ide.{Registers, registers_of}
use model_lib.Ide.Drives.{Drive, Drives}
use model_lib.Ide.Init.{
  filled, first_of, answers, into, read_first, count_from, probed, init_drive, init_loop, ide_init,
}
use model_lib.Ide.Transfer.{Ports, busy, not_ready}
use model_lib.Ide.Transfer.Controller.{Channel, Controller}
use model_lib.Ide.Transfer.Blocks.{ide_read_abs-stored, ide_read_abs-absent}

-- How many numbers from `n` on can be read, with at most `rounds`.
pub count : ℕ → (ℕ → Bool) → ℕ → ℕ
count zero readable n = n
count (suc rounds) readable n =
    let rest = count rounds readable (n + 1) in if readable n then rest else n

-- The count where just the numbers below `n` can be read.
pub count_lem :
    (rounds i n : ℕ) (readable : ℕ → Bool)
    → ((k : ℕ) → k < i + rounds → readable k ≡ ltb k n)
    → i ≤ n
    → n ≤ i + rounds
    → count rounds readable i ≡ n
unfolding count
count_lem zero i n readable just lo hi = omega arith
count_lem (suc rounds) i n readable just lo hi = elim (Bool-cases (ltb i n)) [
  | inl more ↦
      rw (just i (omega arith), more)
        (count_lem rounds (i + 1) n readable (λ k b. just k (omega arith)) (ground arith)
          (omega arith))
  | inr end ↦ rw (just i (omega arith), end) (ground arith)
]

first_of-Channel : (i x h : ℕ) → Channel (first_of i x h).base
unfolding registers_of
first_of-Channel i x h = elim (Bool-cases (ltb i 2)) [
  | inl first ↦ rw first (inl refl)
  | inr second ↦ rw second (inr refl)
]

awake_status : (status : ℕ) → not_ready status ≡ false → status ≢ 0
awake_status status h e =
    let q : not_ready 0 ≡ false = subst (λ s. not_ready s ≡ false) e h in absurd (ground arith)

busy_status : (status : ℕ) → busy status ≡ true → status ≢ 0
busy_status status h e =
    let q : busy 0 ≡ true = subst (λ s. busy s ≡ true) e h in absurd (ground arith)

module _ {D : Type 0} (ports : Ports D) (c : Controller ports) (fuel : ℕ)
    (long : c.limit < fuel) where
  -- No sector changes.
  abbrev Same : D → D → Type 0
  Same d e = (q : Registers) → c.stored e q ≡ c.stored d q

  -- The buffer holds the sector of these registers, if there is one.
  abbrev pub Holds : Bytes → D → Registers → Type 0
  Holds b d r = c.present r ≡ true → (j : ℕ) → j < 512 → b j ≡ c.stored d r j

  status_lem : (base : ℕ) (d : D) → Channel base → (ports.inb (base + 7) d).0 ≢ 0
  status_lem base d ch = elim (Bool-cases (c.waits d == 0)) [
    | inl done ↦ awake_status _ (c.status_done base d ch (ground arith)).2
    | inr more ↦ busy_status _ (c.status_busy base d ch (ground arith)).0
  ]

  answers-ok :
      (rounds base : ℕ) (d : D)
      → Channel base
      → (e : D) × (answers ports fuel (suc rounds) (base + 7) d ≡ (true, e)) × Same d e
  unfolding answers
  answers-ok rounds base d ch =
      let loud : ((ports.inb (base + 7) d).0 == 0) ≡ false =
        let ne = status_lem base d ch in ground arith in
      (_, rw loud refl, (c.status_keeps base d ch).1)

  read_first-ok :
      (i x h : ℕ) (b : Bytes) (d : D)
      → (b' : Bytes) × (e : D) × (read_first ports fuel i x h b d
          ≡ some (c.present (first_of i x h), b', e))
        × Same d e
        × Holds b' d (first_of i x h)
  unfolding read_first into
  read_first-ok i x h b d = elim (Bool-cases (c.present (first_of i x h))) [
    | inl there ↦
        let (buf, e, run, bytes, same) =
          ide_read_abs-stored ports c fuel long (first_of i x h) d (first_of-Channel i x h) there in
        (buf, e, rw (run, there) refl, same, λ p j hj. bytes j hj)
    | inr missing ↦
        let (e, run, same) =
          ide_read_abs-absent ports c fuel long (first_of i x h) d (first_of-Channel i x h)
            missing in
        (b, e, rw (run, missing) refl, same, λ p. absurd (ground arith))
  ]

  count_from-ok :
      (read : ℕ → Bytes → D → Option (Bool × Bytes × D)) (readable : ℕ → Bool)
      → ((n : ℕ) (b : Bytes) (d : D)
          → (b' : Bytes) × (e : D) × (read n b d ≡ some (readable n, b', e)) × Same d e)
      → (rounds n : ℕ) (b : Bytes) (d : D)
      → (b' : Bytes) × (e : D) × (count_from ports fuel rounds read n b d
          ≡ some (count rounds readable n, b', e))
        × Same d e
  unfolding count_from count
  count_from-ok read readable reads zero n b d =
      let (b', e, run, same) = reads n b d in (b', e, rw run refl, same)
  count_from-ok read readable reads (suc rounds) n b d =
      let (b', e, run, same) = reads n b d in
      elim (Bool-cases (readable n)) [
        | inl more ↦
            let (b'', f, run', same') = count_from-ok read readable reads rounds (n + 1) b' e in
            (b'', f, rw (run, more) run', λ q. same' q ∙ same q)
        | inr end ↦ (b', e, rw (run, end) refl, same)
      ]

  -- What the loops over the cylinders and the heads find.
  abbrev pub cylinders : ℕ → ℕ
  cylinders i = count 1025 (λ x. c.present (first_of i x 0)) 0

  abbrev pub heads : ℕ → ℕ
  heads i = count 16 (λ h. c.present (first_of i 0 h)) 0

  probed-ok :
      (i : ℕ) (drive : Drive) (b : Bytes) (d : D)
      → (b' : Bytes) × (e : D) × (probed ports fuel i drive b d
          ≡ some (filled (cylinders i) (heads i) b' drive, e))
        × Same d e
        × Holds b' d (first_of i 0 0)
  unfolding probed
  probed-ok i drive b d =
      let (b1, d1, run1, same1) =
        count_from-ok (λ x. read_first ports fuel i x 0) (λ x. c.present (first_of i x 0))
          (λ n b d. let (b', e, run, same, _) = read_first-ok i n 0 b d in (b', e, run, same)) 1025
          0 b d in
      let (b2, d2, run2, same2) =
        count_from-ok (λ h. read_first ports fuel i 0 h) (λ h. c.present (first_of i 0 h))
          (λ n b d. let (b', e, run, same, _) = read_first-ok i 0 n b d in (b', e, run, same)) 16 0
          b1 d1 in
      let (b3, d3, run3, same3, holds) = read_first-ok i 0 0 b2 d2 in
      (
        b3,
        d3,
        rw (run1, run2, run3) refl,
        λ q. same3 q ∙ same2 q ∙ same1 q,
        λ there j hj.
            holds there j hj ∙ ap (λ x. x j) (same2 (first_of i 0 0) ∙ same1 (first_of i 0 0)),
      )

  init_drive-ok :
      (stale : ℕ → Bytes) (i : ℕ) (drives : ℕ → Drive) (d : D)
      → (b : Bytes) × (e : D) × (init_drive ports fuel stale i drives d
          ≡ some (update drives i (filled (cylinders i) (heads i) b (drives i)), e))
        × Same d e
        × Holds b d (first_of i 0 0)
  unfolding init_drive registers_of
  init_drive-ok stale i drives d =
      let base : ℕ = if ltb i 2 then 0x1f0 else 0x170 in
      let ch : Channel base = first_of-Channel i 0 0 in
      let set = c.register_set base 6 (0xa0 + i % 2 * 16) d ch (omega arith) (omega arith) in
      let (d1, run1, same1) =
        answers-ok 999 base (ports.outb (0xa0 + i % 2 * 16) (base + 6) d) ch in
      let (b, e, run, same, holds) = probed-ok i (drives i) (stale i) d1 in
      (
        b,
        e,
        rw (run1, run) refl,
        λ q. same q ∙ same1 q ∙ set.1 q,
        λ there j hj.
            holds there j hj ∙ ap (λ x. x j) (same1 (first_of i 0 0) ∙ set.1 (first_of i 0 0)),
      )

  -- What the loop over the drives from `i` on leaves.
  record Looped (i rounds : ℕ) (drives : ℕ → Drive) (d : D) (after : ℕ → Drive) (e : D)
      : Type 0 where
    same : Same d e
    below : (j : ℕ) → j < i → after j ≡ drives j
    found :
        (j : ℕ)
        → i ≤ j
        → j < i + rounds
        → (b : Bytes) × (after j ≡ filled (cylinders j) (heads j) b (drives j))
          × Holds b d (first_of j 0 0)

  Looped-step :
      (i rounds : ℕ) (drives after : ℕ → Drive) (d d1 e : D) (b : Bytes)
      → Same d d1
      → Holds b d (first_of i 0 0)
      → Looped
          (i + 1)
          rounds
          (update drives i (filled (cylinders i) (heads i) b (drives i)))
          d1
          after
          e
      → Looped i (suc rounds) drives d after e
  Looped-step i rounds drives after d d1 e b same holds l = record {
    same = λ q. l.same q ∙ same q;
    below =
        λ j h. let miss : (j == i) ≡ false = ground arith in l.below j (omega arith) ∙ rw miss refl;
    found = λ j lo hi. elim (Bool-cases (j == i)) [
      | inl here ↦
          let at : i ≡ j = ground arith in
          let hit : (i == i) ≡ true = ground arith in
          subst
            (λ k.
              (x : Bytes) × (after k ≡ filled (cylinders k) (heads k) x (drives k))
              × Holds x d (first_of k 0 0))
            at (b, l.below i (omega arith) ∙ rw hit refl, holds)
      | inr later ↦
          let (x, slot, held) = l.found j (ground arith) (omega arith) in
          (
            x,
            rw later at slot,
            λ there k hk. held there k hk ∙ ap (λ y. y k) (same (first_of j 0 0)),
          )
    ];
  }

  init_loop-ok :
      (stale : ℕ → Bytes) (rounds i : ℕ) (drives : ℕ → Drive) (d : D)
      → (after : ℕ → Drive) × (e : D) × (init_loop ports fuel rounds stale i drives d
          ≡ some (after, e))
        × Looped i rounds drives d after e
  unfolding init_loop
  init_loop-ok stale zero i drives d = (
    drives,
    d,
    refl,
    record { same = λ q. refl; below = λ j h. refl; found = λ j lo hi. absurd (omega arith) },
  )
  init_loop-ok stale (suc rounds) i drives d =
      let (b, d1, run, same, holds) = init_drive-ok stale i drives d in
      let (after, e, run', l) =
        init_loop-ok stale rounds (i + 1)
          (update drives i (filled (cylinders i) (heads i) b (drives i))) d1 in
      (after, e, rw run run', Looped-step i rounds drives after d d1 e b same holds l)

  -- `ide_init` ends, and records of each of the four drives what it finds.
  pub ide_init-ok :
      (stale : ℕ → Bytes) (ide : Drives) (d : D)
      → (after : ℕ → Drive) × (e : D) × (ide_init ports fuel stale ide d
          ≡ some (record ide { drives = after }, e))
        × Same d e
        × ((j : ℕ)
            → j < 4
            → (b : Bytes) × (after j ≡ filled (cylinders j) (heads j) b (ide.drives j))
              × Holds b d (first_of j 0 0))
  unfolding ide_init
  ide_init-ok stale ide d =
      let (after, e, run, l) = init_loop-ok stale 4 0 ide.drives d in
      (after, e, rw run refl, l.same, λ j h. l.found j (omega arith) (omega arith))
