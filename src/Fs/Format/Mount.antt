-- ===== src/Fs/Format/Mount.antt =====
-- `fs_format` makes a file system that `fs_init` mounts.
use model_lib.Base.{
  ℕ, zero, suc, ◌+◌, ◌*◌, ◌<◌, ◌≡◌, ◌≢◌, inl, inr, refl, arith, ap, sym, ◌∙◌, true, false, ◌==◌,
  ==_refl, u32, update, ◌⊎◌, Bool-cases,
}
use model_lib.Fs.Layout.{Block, Superblock, Partition, get_super, put_super, fsmagic, zeros, t_dir}
use model_lib.Fs.State.{Fs, Run, ok}
use model_lib.Fs.Inode.{alloc_inode, inode_block, new_inode}
use model_lib.Fs.Inode.Access.{with_inode}
use model_lib.Fs.Inode.Alloc.{alloc_inode-Outcome}
use model_lib.Fs.Format.{fs_init, fs_format, set_super, layout, zero_loop}
use model_lib.Fs.Format.Super.{get_super-put_super, Roomy, layout-Fits}

-- The blocks once the loop of `fs_format` has run `rounds` times, from `i` on: the blocks of the loop are
-- zeros, and no other has changed.
pub record Wiped (s : Fs) (rounds i : ℕ) (d : ℕ → Block) : Type 0 where
  pub missed : (m : ℕ) → ((k : ℕ) → k < rounds → m ≢ u32 (s.su.start + (i + k))) → d m ≡ s.disk m
  pub hit : (k : ℕ) → k < rounds → d (u32 (s.su.start + (i + k))) ≡ zeros
  pub blank : (m : ℕ) → s.disk m ≡ zeros → d m ≡ zeros

Wiped-hit :
    (s : Fs) (rounds i : ℕ) (d : ℕ → Block)
    → Wiped (record s { disk = update s.disk (u32 (s.su.start + i)) zeros }) rounds (i + 1) d
    → (k : ℕ) → k < suc rounds
    → d (u32 (s.su.start + (i + k))) ≡ zeros
Wiped-hit s rounds i d w zero h =
    let same : i + 0 ≡ i = omega arith in
    rw same (w.blank (u32 (s.su.start + i)) (rw (==_refl (u32 (s.su.start + i))) refl))
Wiped-hit s rounds i d w (suc k) h =
    let next : i + suc k ≡ i + 1 + k = omega arith in rw next (w.hit k (omega arith))

-- One more round in front of those.
Wiped-step :
    (s : Fs) (rounds i : ℕ) (d : ℕ → Block)
    → Wiped (record s { disk = update s.disk (u32 (s.su.start + i)) zeros }) rounds (i + 1) d
    → Wiped s (suc rounds) i d
Wiped-step s rounds i d w = record {
  missed = λ m away.
      let here : (m == u32 (s.su.start + i)) ≡ false =
        let first : m ≢ u32 (s.su.start + (i + 0)) = away 0 (omega arith) in
        let same : i + 0 ≡ i = omega arith in
        let ne : m ≢ u32 (s.su.start + i) = rw same at first in ground arith in
      w.missed m (λ k h.
        let next : i + 1 + k ≡ i + suc k = omega arith in rw next (away (suc k) (omega arith)))
      ∙ rw here refl;
  hit = Wiped-hit s rounds i d w;
  blank = λ m z. w.blank m (elim (Bool-cases (m == u32 (s.su.start + i))) [
    | inl here ↦ rw here refl
    | inr away ↦ rw away z
  ]);
}

-- The loop of `fs_format` only writes blocks.
pub zero_loop_runs :
    (rounds i : ℕ) (s : Fs)
    → (d : ℕ → Block) × (zero_loop rounds i s ≡ ok tt (record s { disk = d })) × Wiped s rounds i d
unfolding zero_loop
zero_loop_runs zero i s = (
  s.disk,
  refl,
  record { missed = λ m _. refl; hit = λ k h. absurd (omega arith); blank = λ m z. z },
)
zero_loop_runs (suc rounds) i s =
    let (d, run, w) =
      zero_loop_runs rounds (i + 1)
        (record s { disk = update s.disk (u32 (s.su.start + i)) zeros }) in
    (d, run, Wiped-step s rounds i d w)

-- One allocation in a fresh layout.
module _ (p : Partition) (roomy : Roomy p) (s : Fs) (fresh : s.su ≡ layout p) where
  -- What the allocation reads of the layout.
  sinode_eq : s.su.sinode ≡ p.startlba + 31
  unfolding layout
  sinode_eq = omega (arith, roomy, ap (λ (x : Superblock). x.sinode) fresh)

  inode_blocks_eq : s.su.nblock_inode ≡ 25
  unfolding layout
  inode_blocks_eq = ap (λ (x : Superblock). x.nblock_inode) fresh

  outside : (n : ℕ) → n < s.su.nblock_inode * 8 → (p.startlba == inode_block s n) ≡ false
  outside n h = ground (arith, roomy, sinode_eq, inode_blocks_eq)

  -- The allocation leaves the super block alone, in memory and on the disk.
  abbrev Kept : Run ℕ → Type 0
  Kept r =
      (n : ℕ) × (t : Fs) × (r ≡ ok n t) × (t.su ≡ s.su) × (t.disk p.startlba ≡ s.disk p.startlba)

  kept : Kept (alloc_inode t_dir s)
  kept = elim (alloc_inode-Outcome s t_dir (omega arith)) [
    | inl (n, new) ↦
        (u32 n, with_inode s n (new_inode t_dir), new.result, refl, rw (outside n new.in_range))
    | inr out ↦ (0, s, out.result, refl, refl)
  ]

-- The state of `fs_format` before the two allocations.
abbrev pub formatted : Partition → Fs → (ℕ → Block) → Fs
formatted p s d = record s {
  su = layout p;
  disk = update d p.startlba (put_super zeros (layout p));
}

-- A super block in memory and on the disk that agree with a layout are mounted as they are.
mounts :
    (p : Partition) (u : Fs)
    → get_super (u.disk p.startlba) ≡ layout p
    → u.su ≡ layout p
    → fs_init p u ≡ ok true (record u { init = true })
unfolding fs_init set_super
mounts p u disk su =
    let magic : ((layout p).magic == fsmagic) ≡ true = unfold layout in refl in
    rw (disk, magic) (ap (λ x. ok true (record u { su = x; init = true })) (sym su))

-- `fs_format` of a partition that has room for the sections returns, and `fs_init` then mounts the
-- partition with the layout that `fs_format` chose, which the super block in memory and the one on the
-- disk hold.
pub fs_format-fs_init :
    (p : Partition) (s : Fs)
    → Roomy p
    → (t : Fs) × (fs_format p s ≡ ok true t)
      × (fs_init p t ≡ ok true (record t { init = true }))
      × (t.su ≡ layout p)
      × (get_super (t.disk p.startlba) ≡ layout p)
unfolding fs_format set_super
fs_format-fs_init p s roomy =
    let (d, zeroed, _) = zero_loop_runs s.su.nblock_tot 0 s in
    let (n, t, run, su, super) = kept p roomy (formatted p s d) refl in
    let (m, u, run', su', super') = kept p roomy t su in
    let here : u.disk p.startlba ≡ put_super zeros (layout p) =
      super' ∙ super ∙ rw (==_refl p.startlba) in
    let written : get_super (u.disk p.startlba) ≡ layout p =
      ap get_super here ∙ get_super-put_super zeros (layout p) (layout-Fits p roomy) in
    (u, rw (zeroed, run, run'), mounts p u written (su' ∙ su), su' ∙ su, written)

-- `fs_init` mounts, or finds no file system; it loads the super block in both cases.
pub fs_init-cases :
    (p : Partition) (s : Fs)
    → (((get_super (s.disk p.startlba)).magic ≡ fsmagic)
        × (fs_init p s ≡ ok true (record s { su = get_super (s.disk p.startlba); init = true })))
      ⊎ (((get_super (s.disk p.startlba)).magic ≢ fsmagic)
          × (fs_init p s ≡ ok false (record s { su = get_super (s.disk p.startlba) })))
unfolding fs_init set_super
fs_init-cases p s = elim (Bool-cases ((get_super (s.disk p.startlba)).magic == fsmagic)) [
  | inl there ↦ inl (ground arith, rw there refl)
  | inr missing ↦ inr (ground arith, rw missing refl)
]

-- A block with the magic number is taken for the super block.
pub fs_init-ok :
    (p : Partition) (s : Fs)
    → (get_super (s.disk p.startlba)).magic ≡ fsmagic
    → fs_init p s ≡ ok true (record s { su = get_super (s.disk p.startlba); init = true })
unfolding fs_init set_super
fs_init-ok p s magic =
    let there : ((get_super (s.disk p.startlba)).magic == fsmagic) ≡ true = ground arith in
    rw there refl
