-- ===== src/Ide/Init/Geometry.antt =====
-- What `ide_init` finds out about a drive.
use model_lib.Base.{ℕ, ◌<◌, ◌≡◌, true, ltb, if◌then◌else◌}
use model_lib.Fs.Layout.{Bytes}
use model_lib.Ide.Drives.{Drive, Drives}
use model_lib.Ide.Init.{entry, first_of}
use model_lib.Ide.Init.Probe.{cylinders, heads}
use model_lib.Ide.Transfer.{Ports}
use model_lib.Ide.Transfer.Controller.{Controller}

-- Drive `d` has the first sectors of the tracks of head 0 for `cs` cylinders, and those of cylinder 0
-- for `hs` heads, and no others.
pub record Shaped {D : Type 0} {ports : Ports D} (c : Controller ports) (d cs hs : ℕ) : Type 0 where
  pub cylinders : (k : ℕ) → k < 1025 → c.present (first_of d k 0) ≡ ltb k cs
  pub heads : (k : ℕ) → k < 16 → c.present (first_of d 0 k) ≡ ltb k hs

-- What is recorded of a drive whose boot record has the mark.
abbrev recorded : ℕ → ℕ → Bytes → Drive → Drive
recorded cs hs b drive = record drive {
  exist = true;
  msdos = true;
  max_c = cs;
  max_h = hs;
  partitions = λ i. if ltb i 4 then entry b i else drive.partitions i;
}
