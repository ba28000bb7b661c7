-- ===== src/Shell/Commands/Selecting.antt =====
-- Which drive the file system works on after `getXY` and after `ide_list`.
use model_lib.Base.{
  ℕ, ◌+◌, ◌-◌, ◌≤◌, ◌<◌, ◌≡◌, ◌≢◌, refl, arith, ap, sym, true, false, ◌==◌, ◌&&◌, ◌||◌, ltb, leb,
  if◌then◌else◌, none, some, List, ◌∷◌, Bool-cases, inl, inr,
}
use model_lib.Fs.Layout.{Block, Partition, get_super, fsmagic}
use model_lib.Fs.State.{Fs, ok}
use model_lib.Fs.Format.Mount.{fs_init-ok}
use model_lib.Ide.Drives.{ide_sel, ide_get_partitions}
use model_lib.Text.{strlen}
use model_lib.Shell.Commands.{Grab, select, mount_entry, mount_table, mount_selected, mount, get_xy}

-- The blocks of a drive.
abbrev pub disk_of : Grab → Fs → ℕ → ℕ → Block
disk_of g s d = if d == g.ide.drive_sel then s.disk else g.blocks d

-- Drive `x` is selected, and nothing else has changed.
pub record Selected (g : Grab) (s : Fs) (x : ℕ) (h : Grab) (t : Fs) : Type 0 where
  pub sel : h.ide.drive_sel ≡ x
  pub drives : h.ide.drives ≡ g.ide.drives
  pub root : h.rootdrive ≡ g.rootdrive
  pub disk : t.disk ≡ disk_of g s x
  pub disks : (d : ℕ) → disk_of h t d ≡ disk_of g s d
  pub init : t.init ≡ s.init
  pub su : t.su ≡ s.su

module _ (x : ℕ) (g : Grab) (s : Fs) where
  ide_sel-none : (g.ide.drives x).exist ≡ false → ide_sel x g.ide ≡ none
  unfolding ide_sel
  ide_sel-none gone = rw gone refl

  pub select-none : (g.ide.drives x).exist ≡ false → select x g s ≡ ok none s
  unfolding select
  select-none gone = rw (ide_sel-none gone) refl

  pub select-Selected :
      (g.ide.drives x).exist ≡ true
      → (h : Grab) × (t : Fs) × (select x g s ≡ ok (some h) t) × Selected g s x h t
  unfolding select
  select-Selected there =
      let found : ide_sel x g.ide ≡ some (record g.ide { drive_sel = x }) =
        unfold ide_sel in rw there refl in
      rw found (
        _,
        _,
        refl,
        record {
          sel = refl;
          drives = refl;
          root = refl;
          disk = refl;
          disks = λ d. elim (Bool-cases (d == x)) [
            | inl here ↦ let e : d ≡ x = ground arith in rw here (ap (disk_of g s) (sym e))
            | inr away ↦ rw away refl
          ];
          init = refl;
          su = refl;
        },
      )

-- `(hdX,Y)`, with what follows.
abbrev pub place : ℕ → ℕ → List ℕ → List ℕ
place x y rest = 40 ∷ 104 ∷ 100 ∷ (48 + x) ∷ 44 ∷ (48 + y) ∷ 41 ∷ rest

-- The partition `p` of drive `x` is mounted, and the blocks of all drives are as before.
pub record MountedAt (g : Grab) (s : Fs) (x : ℕ) (p : Partition) (h : Grab) (t : Fs) : Type 0 where
  pub sel : h.ide.drive_sel ≡ x
  pub root : h.rootdrive ≡ g.rootdrive
  pub disk : t.disk ≡ disk_of g s x
  pub disks : (d : ℕ) → disk_of h t d ≡ disk_of g s d
  pub init : t.init ≡ true
  pub su : t.su ≡ get_super (disk_of g s x p.startlba)

module _ (x y : ℕ) (g : Grab) (s : Fs) (drive : x < 4) (number : y < 4)
    (there : (g.ide.drives x).exist ≡ true) (msdos : (g.ide.drives x).msdos ≡ true)
    (nonempty : ((g.ide.drives x).partitions y).nsectors ≢ 0)
    (magic : (get_super (disk_of g s x ((g.ide.drives x).partitions y).startlba)).magic
      ≡ fsmagic) where
  abbrev p : Partition
  p = (g.ide.drives x).partitions y

  mount_entry-MountedAt :
      (h : Grab) (t : Fs)
      → Selected g s x h t
      → (u : Fs) × (mount_entry x y h p t ≡ ok (some (x, y), h) u) × MountedAt g s x p h u
  unfolding mount_entry
  mount_entry-MountedAt h t e =
      let some_sectors : (p.nsectors == 0) ≡ false = ground arith in
      let here : t.disk p.startlba ≡ disk_of g s x p.startlba = ap (λ b. b p.startlba) e.disk in
      rw (some_sectors, fs_init-ok p t (rw here magic))
        (
          _,
          refl,
          record {
            sel = e.sel;
            root = e.root;
            disk = e.disk;
            disks = e.disks;
            init = refl;
            su = ap get_super here;
          },
        )

  table_lem :
      (h : Grab) (t : Fs)
      → Selected g s x h t
      → ide_get_partitions h.ide ≡ some (g.ide.drives x).partitions
  unfolding ide_get_partitions
  table_lem h t e =
      let slot : h.ide.drives h.ide.drive_sel ≡ g.ide.drives x = rw (e.sel, e.drives) refl in
      rw (slot, msdos) refl

  mount-MountedAt :
      (h : Grab) × (u : Fs) × (mount x y g s ≡ ok (some (x, y), h) u) × MountedAt g s x p h u
  unfolding mount mount_selected mount_table
  mount-MountedAt =
      let (h, t, run, e) = select-Selected x g s there in
      let range : (leb 4 x || leb 4 y) ≡ false = ground arith in
      let (u, mounted, m) = mount_entry-MountedAt h t e in
      rw (range, run, table_lem h t e, mounted) (h, u, refl, m)

  -- With a drive and a partition number below 4, where the drive exists and has a partition table whose
  -- entry has sectors and leads to a block with the magic number, `getXY` of a string `(hdX,Y)`, with or without
  -- more behind it, gives the two numbers and mounts that partition of that drive, with the super
  -- block that its first block holds. The blocks of all drives and the root drive are as before.
  pub get_xy-mounts :
      (rest : List ℕ) (l : ℕ)
      → strlen (place x y rest) ≡ some l
      → 7 ≤ l
      → (h : Grab) × (u : Fs) × (get_xy (place x y rest) g s ≡ ok (some (x, y), h) u)
        × MountedAt g s x p h u
  unfolding get_xy
  get_xy-mounts rest l len long =
      let short : ltb l 7 ≡ false = ground arith in
      let (h, u, run, m) = mount-MountedAt in
      let dx : 48 + x - 48 ≡ x = omega arith in
      let dy : 48 + y - 48 ≡ y = omega arith in
      let first : (leb 48 (48 + x) && leb (48 + x) 57) ≡ true = ground arith in
      let second : (leb 48 (48 + y) && leb (48 + y) 57) ≡ true = ground arith in
      rw (len, short, first, second, dx, dy) (h, u, run, m)
