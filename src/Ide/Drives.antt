-- ===== src/Ide/Drives.antt =====
-- The table of drives of grab/ide.c, with `ide_sel` and `ide_get_partitions`.
use model_lib.Base.{ℕ, Bool, not, if◌then◌else◌, Option, none, some}
use model_lib.Fs.Layout.{Partition}

pub record Drive : Type 0 where
  pub exist : Bool
  pub msdos : Bool
  pub max_c : ℕ
  pub max_h : ℕ
  pub partitions : ℕ → Partition

pub record Drives : Type 0 where
  pub drives : ℕ → Drive
  pub drive_sel : ℕ

-- `none` is -1. The number is not compared with the length of the table.
unfoldable pub ide_sel : ℕ → Drives → Option Drives
ide_sel drivenum ide =
    if not (ide.drives drivenum).exist then none else some (record ide { drive_sel = drivenum })

-- `none` is the null pointer.
unfoldable pub ide_get_partitions : Drives → Option (ℕ → Partition)
ide_get_partitions ide =
    if not (ide.drives ide.drive_sel).msdos
    then none
    else some (ide.drives ide.drive_sel).partitions
