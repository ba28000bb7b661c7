-- ===== src/Ide/Transfer/Disk.antt =====
-- The transfers of blocks by number: the drive that is selected is an array of blocks.
use model_lib.Base.{ℕ, ◌/◌, ◌<◌, ◌≤◌, ◌≡◌, ◌≢◌, inl, inr, refl, true, ltb, some, Bool-cases}
use model_lib.Fs.Layout.{Bytes}
use model_lib.Ide.{Registers, lba_to_chs, registers_of, passes}
use model_lib.Ide.Address.{registers_of-block_of}
use model_lib.Ide.Drives.{Drives}
use model_lib.Ide.Transfer.{Ports, ide_read, ide_write, ide_read_lba, ide_write_lba}
use model_lib.Ide.Transfer.Controller.{Channel, Controller, Prompt}
use model_lib.Ide.Transfer.Blocks.{ide_read_abs-stored, ide_write_abs-stored}

-- One of the four drives is selected, and it has 1 to 16 heads.
pub record Usable (ide : Drives) : Type 0 where
  pub drive : ide.drive_sel < 4
  pub some_head : 0 < (ide.drives ide.drive_sel).max_h
  pub heads : (ide.drives ide.drive_sel).max_h ≤ 16

-- The number of the cylinder of a block has 16 bits.
abbrev pub Near : Drives → ℕ → Type 0
Near ide lba = lba / 63 / (ide.drives ide.drive_sel).max_h < 65536

-- The registers that name a block of the drive that is selected.
abbrev pub registers : Drives → ℕ → Registers
registers ide lba = registers_of ide.drive_sel (lba_to_chs (ide.drives ide.drive_sel).max_h lba)

registers_of-Channel : (ide : Drives) (lba : ℕ) → Channel (registers ide lba).base
unfolding registers_of
registers_of-Channel ide lba = elim (Bool-cases (ltb ide.drive_sel 2)) [
  | inl first ↦ rw first (inl refl)
  | inr second ↦ rw second (inr refl)
]

module _ (ide : Drives) (u : Usable ide) where
  pass :
      (lba : ℕ)
      → Near ide lba
      → passes
          (lba_to_chs (ide.drives ide.drive_sel).max_h lba)
          (ide.drives ide.drive_sel).max_c
          (ide.drives ide.drive_sel).max_h
        ≡ true
  pass lba near =
      (registers_of-block_of ide.drive_sel (ide.drives ide.drive_sel).max_c
        (ide.drives ide.drive_sel).max_h lba u.drive u.some_head u.heads near).0

  module _ {D : Type 0} (ports : Ports D) (c : Controller ports) (fuel : ℕ)
      (long : c.limit < fuel) where
    pub ide_read_lba-stored :
        (lba : ℕ) (d : D)
        → Near ide lba
        → c.present (registers ide lba) ≡ true
        → (buf : Bytes) × (e : D) × (ide_read_lba ports fuel ide lba d ≡ some (some buf, e))
          × ((j : ℕ) → j < 512 → buf j ≡ c.stored d (registers ide lba) j)
          × ((q : Registers) → c.stored e q ≡ c.stored d q)
    unfolding ide_read_lba ide_read
    ide_read_lba-stored lba d near there = rw (pass lba near) (
        ide_read_abs-stored ports c fuel long (registers ide lba) d (registers_of-Channel ide lba)
          there)

    pub ide_write_lba-stored :
        (lba : ℕ) (buf : Bytes) (d : D)
        → Near ide lba
        → Prompt ports c
        → c.present (registers ide lba) ≡ true
        → (e : D) × (ide_write_lba ports fuel ide lba buf d ≡ some e)
          × (c.stored e (registers ide lba) ≡ buf)
          × ((q : Registers) → q ≢ registers ide lba → c.stored e q ≡ c.stored d q)
    unfolding ide_write_lba ide_write
    ide_write_lba-stored lba buf d near prompt there = rw (pass lba near) (
        ide_write_abs-stored ports c fuel long (registers ide lba) buf d
          (registers_of-Channel ide lba) prompt there)
