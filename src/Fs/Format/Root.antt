-- ===== src/Fs/Format/Root.antt =====
-- What `fs_format` leaves: the inodes 0 and 1, the blocks of its loop, and the other blocks.
use model_lib.Base.{
  ℕ, ◌+◌, ◌%◌, ◌/◌, ◌^◌, ◌<◌, ◌≡◌, ◌≢◌, refl, arith, ap, ◌∙◌, true, false, ◌==◌, ◌⊎◌, inl, inr, sym,
  u32,
}
use mathlib.Core.Path.{subst}
use model_lib.Fs.Layout.{Block, Partition, zeros, get_inode, t_dir}
use model_lib.Fs.Layout.Views.{SameInode, Fits}
use model_lib.Fs.State.{Fs, ok}
use model_lib.Fs.Inode.{alloc_inode, inode_block, new_inode}
use model_lib.Fs.Inode.Access.{
  inode_at, with_inode, inode_at-with_self, inode_at-with_ne, SameInode-trans,
}
use model_lib.Fs.Inode.Alloc.{alloc_inode-first}
use model_lib.Fs.Format.{fs_format, set_super, layout}
use model_lib.Fs.Format.Super.{Roomy}
use model_lib.Fs.Format.Mount.{Wiped, zero_loop_runs, formatted}

-- The blocks that the loop of `fs_format` fills with zeros: those of the file system whose super block
-- was loaded last, and none if none was.
pub record InLoop (s : Fs) (m : ℕ) : Type 0 where
  pub round : ℕ
  pub in_range : round < s.su.nblock_tot
  pub at : u32 (s.su.start + round) ≡ m

-- Each block of the inodes is zeros, or the loop fills it with them.
abbrev pub Blank : Partition → Fs → Type 0
Blank p s =
    (i : ℕ) → i < 25 → (s.disk (p.startlba + 31 + i) ≡ zeros) ⊎ InLoop s (p.startlba + 31 + i)

directory-Fits : Fits (new_inode t_dir)
directory-Fits = record {
  type = omega arith;
  major = omega arith;
  minor = omega arith;
  linkcnt = omega arith;
  size = omega arith;
  ptrs = λ i h. omega arith;
}

module _ (p : Partition) (s : Fs) (roomy : Roomy p) (blank : Blank p s) where
  -- The blocks behind the loop.
  abbrev wiped : ℕ → Block
  wiped = (zero_loop_runs s.su.nblock_tot 0 s).0

  abbrev effect : Wiped s s.su.nblock_tot 0 wiped
  effect = (zero_loop_runs s.su.nblock_tot 0 s).2

  in_loop : (m : ℕ) → InLoop s m → wiped m ≡ zeros
  in_loop m l =
      let same : 0 + l.round ≡ l.round = omega arith in
      subst (λ x. wiped x ≡ zeros) l.at (rw same at (effect.hit l.round l.in_range))

  off_loop : (m : ℕ) → ¬ InLoop s m → wiped m ≡ s.disk m
  off_loop m off = effect.missed m (λ k h e.
      let same : 0 + k ≡ k = omega arith in
      let at : u32 (s.su.start + k) ≡ m = rw same at (sym e) in
      off (record { round = k; in_range = h; at = at }))

  inode_block-wiped : (i : ℕ) → i < 25 → wiped (p.startlba + 31 + i) ≡ zeros
  inode_block-wiped i h = elim (blank i h) [
    | inl z ↦ effect.blank (p.startlba + 31 + i) z
    | inr l ↦ in_loop (p.startlba + 31 + i) l
  ]

  abbrev start : Fs
  start = formatted p s wiped

  abbrev one : Fs
  one = with_inode start 0 (new_inode t_dir)

  abbrev two : Fs
  two = with_inode one 1 (new_inode t_dir)

  block_number : (n : ℕ) → n < 200 → inode_block start n ≡ p.startlba + 31 + n / 8
  unfolding layout
  block_number n h = omega (arith, roomy)

  blank_block : (n : ℕ) → n < 200 → start.disk (inode_block start n) ≡ zeros
  blank_block n h =
      let away : (inode_block start n == p.startlba) ≡ false = ground (arith, block_number n h) in
      rw away (ap wiped (block_number n h) ∙ inode_block-wiped (n / 8) (omega arith))

  start_type : (n : ℕ) → n < 200 → (inode_at start n).type ≡ 0
  unfolding get_inode
  start_type n h = ap (λ (b : Block). (get_inode b (n % 8)).type) (blank_block n h)

  wrap : start.su.sinode + start.su.ninodes / 8 < 2 ^ 32
  unfolding layout
  wrap = omega (arith, roomy)

  enough : (start.su.nblock_inode ≡ 25) × (start.su.ninodes ≡ 200)
  unfolding layout
  enough = (refl, refl)

  first : alloc_inode t_dir start ≡ ok 0 one
  first =
      alloc_inode-first start t_dir 0 (omega arith) (omega (arith, enough)) (omega arith)
        (start_type 0 (omega arith)) (λ j h. absurd (omega arith))

  one_self : SameInode (inode_at one 0) (new_inode t_dir)
  one_self = inode_at-with_self start 0 (new_inode t_dir) directory-Fits

  one_next : SameInode (inode_at one 1) (inode_at start 1)
  one_next =
      inode_at-with_ne start 0 (new_inode t_dir) 1 wrap (omega (arith, enough))
        (omega (arith, enough)) (omega arith)

  second : alloc_inode t_dir one ≡ ok 1 two
  second =
      alloc_inode-first one t_dir 1 (omega arith) (omega (arith, enough)) (omega arith)
        (one_next.type ∙ start_type 1 (omega arith))
        (λ j h e.
          let z : j ≡ 0 = omega arith in
          let t : (inode_at one j).type ≡ 2 = ap (λ n. (inode_at one n).type) z ∙ one_self.type in
          absurd (omega (arith, t, e)))

  kept : (m : ℕ) → m ≢ p.startlba → m ≢ p.startlba + 31 → two.disk m ≡ wiped m
  kept m a b = ground (arith, block_number 0, block_number 1)

  -- `fs_format` of a partition with room for the sections, whose inode blocks are zeros or are among the blocks
  -- that its loop fills with zeros, those of the file system whose super block was loaded last: it
  -- makes inode 1, the root, an empty directory, and inode 0, which stands for no inode, another.
  -- Outside the super block and the first inode block, the blocks of the loop are zeros, and no other
  -- has changed.
  pub fs_format-root :
      (t : Fs) × (fs_format p s ≡ ok true t)
      × SameInode (inode_at t 0) (new_inode t_dir)
      × SameInode (inode_at t 1) (new_inode t_dir)
      × ((m : ℕ) → m ≢ p.startlba → m ≢ p.startlba + 31 → InLoop s m → t.disk m ≡ zeros)
      × ((m : ℕ) → m ≢ p.startlba → m ≢ p.startlba + 31 → ¬ InLoop s m → t.disk m ≡ s.disk m)
  unfolding fs_format set_super
  fs_format-root =
      let zeroed = (zero_loop_runs s.su.nblock_tot 0 s).1 in
      (
        two,
        rw (zeroed, first, second),
        SameInode-trans
            (inode_at-with_ne one 1 (new_inode t_dir) 0 wrap (omega (arith, enough))
              (omega (arith, enough)) (omega arith))
            one_self,
        inode_at-with_self one 1 (new_inode t_dir) directory-Fits,
        λ m a b l. kept m a b ∙ in_loop m l,
        λ m a b off. kept m a b ∙ off_loop m off,
      )
