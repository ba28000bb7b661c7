-- ===== src/Ide/Transfer.antt =====
-- The transfer of a block over the ports: `ide_rw_abs` of grab/ide.c and the calls that lead to it.
-- The ports, whose instructions are assembly, are a parameter: what a port gives and does on a state
-- of the device. A wait has fuel: `none` is one that does not end.
pub mod Controller
pub mod Blocks
pub mod Disk
pub mod Sample
mod Tests
use model_lib.Base.{
  ℕ, zero, suc, ◌+◌, ◌-◌, ◌*◌, ◌/◌, ◌%◌, Bool, true, false, not, ◌==◌, ◌&&◌, ltb, if◌then◌else◌,
  Option, none, some,
}
use model_lib.Fs.Layout.{Bytes}
use model_lib.Ide.{Chs, Registers, lba_to_chs, registers_of, passes}
use model_lib.Ide.Drives.{Drive, Drives}

-- `inb(port)`, `outb(byte, port)`, `insl(port, buf, cnt)` and `outsl(buf, port, cnt)`.
pub record Ports (D : Type 0) : Type 0 where
  pub inb : ℕ → D → ℕ × D
  pub outb : ℕ → ℕ → D → D
  pub insl : ℕ → ℕ → D → Bytes × D
  pub outsl : Bytes → ℕ → ℕ → D → D

-- `STATUS_BUSY`, `STATUS_DRQ`, `STATUS_ERR`, and `STATUS_READY | STATUS_SEEK`
abbrev pub busy : ℕ → Bool
busy status = status / 128 % 2 == 1

abbrev pub data_request : ℕ → Bool
data_request status = status / 8 % 2 == 1

abbrev pub error : ℕ → Bool
error status = status % 2 == 1

abbrev pub not_ready : ℕ → Bool
not_ready status = not (status / 64 % 2 == 1 && status / 16 % 2 == 1)

module _ {D : Type 0} (ports : Ports D) where
  -- `while (again(status = inb(port)))`
  pub wait : ℕ → (ℕ → Bool) → ℕ → D → Option (ℕ × D)
  wait zero again port d = none
  wait (suc fuel) again port d =
      let (status, d') = ports.inb port d in
      let rest = wait fuel again port d' in if again status then rest else some (status, d')

  -- The registers, in the order in which they are written.
  pub set_registers : Registers → D → D
  set_registers r d = ports.outb r.select (r.base + 6) (
      ports.outb r.cylinder_high (r.base + 5) (
        ports.outb r.cylinder_low (r.base + 4)
          (ports.outb r.sector (r.base + 3) (ports.outb 1 (r.base + 2) d))))

  -- The data of a read, once the controller is ready.
  take_data : Registers → Option (ℕ × D) → Option (Option Bytes × D)
  take_data r none = none
  take_data r (some (status, d)) = let (buf, d') = ports.insl r.base 128 d in some (some buf, d')

  -- What follows the command to read. An error is -1.
  pub after_read : ℕ → Registers → Option (ℕ × D) → Option (Option Bytes × D)
  after_read fuel r none = none
  after_read fuel r (some (status, d)) =
      if error status then some (none, d) else take_data r (wait fuel not_ready (r.base + 7) d)

  pub read_from : ℕ → Registers → Option (ℕ × D) → Option (Option Bytes × D)
  read_from fuel r none = none
  read_from fuel r (some (status, d)) =
      after_read fuel r
        (wait fuel busy (r.base + 7) (ports.outb 0x20 (r.base + 7) (set_registers r d)))

  write_to : Registers → Bytes → Option (ℕ × D) → Option D
  write_to r buf none = none
  write_to r buf (some (status, d)) =
      some (ports.outsl buf r.base 128 (ports.outb 0x30 (r.base + 7) (set_registers r d)))

  -- `ide_rw_abs` for a read: the block, or -1, and for a write, which gives 0.
  pub ide_read_abs : ℕ → Registers → D → Option (Option Bytes × D)
  ide_read_abs fuel r d = read_from fuel r (wait fuel busy (r.base + 7) d)

  pub ide_write_abs : ℕ → Registers → Bytes → D → Option D
  ide_write_abs fuel r buf d = write_to r buf (wait fuel busy (r.base + 7) d)

  -- `ide_rw` and `ide_read`: a request out of bounds gives -1.
  pub ide_read : ℕ → Drives → Chs → D → Option (Option Bytes × D)
  ide_read fuel ide a d =
      let drive = ide.drives ide.drive_sel in
      if passes a drive.max_c drive.max_h
      then ide_read_abs fuel (registers_of ide.drive_sel a) d
      else some (none, d)

  -- `ide_rw` and `ide_write`
  pub ide_write : ℕ → Drives → Chs → Bytes → D → Option D
  ide_write fuel ide a buf d =
      let drive = ide.drives ide.drive_sel in
      if passes a drive.max_c drive.max_h
      then ide_write_abs fuel (registers_of ide.drive_sel a) buf d
      else some d

  abbrev chs_of : Drives → ℕ → Chs
  chs_of ide lba = lba_to_chs (ide.drives ide.drive_sel).max_h lba

  pub ide_read_lba : ℕ → Drives → ℕ → D → Option (Option Bytes × D)
  ide_read_lba fuel ide lba d = ide_read fuel ide (chs_of ide lba) d

  pub ide_write_lba : ℕ → Drives → ℕ → Bytes → D → Option D
  ide_write_lba fuel ide lba buf d = ide_write fuel ide (chs_of ide lba) buf d
