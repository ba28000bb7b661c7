-- ===== src/Shell/Commands/Listing.antt =====
-- `ide_list` leaves another drive selected.
use model_lib.Base.{
  ℕ, zero, suc, ◌+◌, ◌≤◌, ◌<◌, ◌≡◌, refl, arith, ap, ◌∙◌, true, false, some, ◌==◌, Bool-cases, inl,
  inr,
}
use model_lib.Fs.State.{Fs, ok}
use model_lib.Shell.Commands.{Grab, list_selected, ide_list_loop, ide_list}
use model_lib.Shell.Commands.Selecting.{Selected, select-none, select-Selected}

Selected-trans :
    {g h k : Grab} {s t u : Fs} {x y : ℕ}
    → Selected g s x h t
    → Selected h t y k u
    → Selected g s y k u
Selected-trans {y = y} p q = record {
  sel = q.sel;
  drives = q.drives ∙ p.drives;
  root = q.root ∙ p.root;
  disk = q.disk ∙ p.disks y;
  disks = λ d. q.disks d ∙ p.disks d;
  init = q.init ∙ p.init;
  su = q.su ∙ p.su;
}

-- Drive `x` exists.
abbrev Exists : Grab → ℕ → Type 0
Exists g x = (g.ide.drives x).exist ≡ true

-- The drive that is selected already.
Selected-refl :
    (g h : Grab) (s : Fs) (d : ℕ)
    → g.ide.drive_sel ≡ d
    → h.ide ≡ g.ide
    → h.blocks ≡ g.blocks
    → h.rootdrive ≡ g.rootdrive
    → Selected g s d h s
Selected-refl g h s d sel ide blocks root = record {
  sel = ap (λ i. i.drive_sel) ide ∙ sel;
  drives = ap (λ i. i.drives) ide;
  root = root;
  disk = let hit : (d == g.ide.drive_sel) ≡ true = ground arith in rw hit refl;
  disks = λ e. rw (ide, blocks) refl;
  init = refl;
  su = refl;
}

-- No drive from `x` on exists: nothing more is selected.
ide_list_loop_rest :
    (rounds x d : ℕ) (g : Grab) (s : Fs)
    → g.ide.drive_sel ≡ d
    → ((y : ℕ) → x ≤ y → y < x + rounds → (g.ide.drives y).exist ≡ false)
    → (h : Grab) × (ide_list_loop rounds x g s ≡ ok h s) × Selected g s d h s
unfolding ide_list_loop
ide_list_loop_rest zero x d g s sel gone = (_, refl, Selected-refl g _ s d sel refl refl refl)
ide_list_loop_rest (suc rounds) x d g s sel gone =
    let (h, run, p) =
      ide_list_loop_rest rounds (x + 1) d g s sel (λ y lo hi. gone y (omega arith) (omega arith)) in
    rw (select-none x g s (gone x (omega arith) (omega arith)), run) (h, refl, p)

-- What was printed does not matter.
Selected-printed :
    {g h : Grab} {s t : Fs} {x : ℕ} (y : ℕ)
    → Selected g s x h t
    → Selected g s x (list_selected y g (some h)) t
Selected-printed y p = record {
  sel = p.sel;
  drives = p.drives;
  root = p.root;
  disk = p.disk;
  disks = p.disks;
  init = p.init;
  su = p.su;
}

ide_list_loop_to :
    (rounds x d : ℕ) (g : Grab) (s : Fs)
    → x ≤ d
    → d < x + rounds
    → Exists g d
    → ((y : ℕ) → d < y → y < x + rounds → (g.ide.drives y).exist ≡ false)
    → (h : Grab) × (t : Fs) × (ide_list_loop rounds x g s ≡ ok h t) × Selected g s d h t
unfolding ide_list_loop
ide_list_loop_to zero x d g s lo hi there gone = absurd (omega arith)
ide_list_loop_to (suc rounds) x d g s lo hi there gone = elim (Bool-cases (x == d)) [
  | inl last ↦
      let e : x ≡ d = ground arith in
      let (h, t, run, p) = select-Selected x g s (ap (λ n. (g.ide.drives n).exist) e ∙ there) in
      let (k, rest, q) =
        ide_list_loop_rest rounds (x + 1) d (list_selected x g (some h)) t (p.sel ∙ e)
          (λ y lo hi. ap (λ ds. (ds y).exist) p.drives ∙ gone y (omega arith) (omega arith)) in
      rw (run, rest) (k, t, refl, Selected-trans (Selected-printed x p) q)
  | inr more ↦ elim (Bool-cases (g.ide.drives x).exist) [
    | inl here ↦
        let (h, t, run, p) = select-Selected x g s here in
        let (k, u, rest, q) =
          ide_list_loop_to rounds (x + 1) d (list_selected x g (some h)) t (ground arith)
            (omega arith) (ap (λ ds. (ds d).exist) p.drives ∙ there)
            (λ y lo hi. ap (λ ds. (ds y).exist) p.drives ∙ gone y lo (omega arith)) in
        rw (run, rest) (k, u, refl, Selected-trans (Selected-printed x p) q)
    | inr absent ↦
        let (k, u, rest, q) =
          ide_list_loop_to rounds (x + 1) d g s (ground arith) (omega arith) there
            (λ y lo hi. gone y lo (omega arith)) in
        rw (select-none x g s absent, rest) (k, u, refl, q)
  ]
]

-- `ide_list` leaves the last of the drives that exist selected, whichever was selected before: the file system
-- then works on the blocks of that drive, with the super block that it had. The blocks of all
-- drives are as before.
pub ide_list-Selected :
    (d : ℕ) (g : Grab) (s : Fs)
    → d < 4
    → (g.ide.drives d).exist ≡ true
    → ((y : ℕ) → d < y → y < 4 → (g.ide.drives y).exist ≡ false)
    → (h : Grab) × (t : Fs) × (ide_list g s ≡ ok h t) × Selected g s d h t
unfolding ide_list
ide_list-Selected d g s hd there gone = ide_list_loop_to 4 0 d g s (omega arith) hd there gone
