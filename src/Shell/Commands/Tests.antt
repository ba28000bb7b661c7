-- ===== src/Shell/Commands/Tests.antt =====
-- Two drives, the first of them with a file system in its first partition.
use model_lib.Base.{ℕ, ◌≡◌, refl, arith, false, none, some, [], ◌∷◌, ltb, ◌==◌, if◌then◌else◌}
use model_lib.Fs.Layout.{zeros, get_super}
use model_lib.Fs.Samples.{super}
use model_lib.Fs.State.{Fs, ok}
use model_lib.Ide.Drives.{Drive}
use model_lib.Text.{strlen}
use model_lib.Shell.Commands.{Grab, get_xy}
use model_lib.Shell.Commands.Selecting.{MountedAt, place, get_xy-mounts}

abbrev drive_of : ℕ → Drive
drive_of d = record {
  exist = ltb d 2;
  msdos = d == 0;
  max_c = 20;
  max_h = 4;
  partitions = λ i. record { startlba = 63; nsectors = if i == 0 then 500 else 0 };
}

-- The second drive is selected.
abbrev grab : Grab
grab = record {
  ide = record { drives = drive_of; drive_sel = 1 };
  blocks = λ d n i.
      if i == 40
      then 0xef
      else if i == 41
      then 0xbe
      else if i == 42
      then 0xad
      else if i == 43
      then 0xde
      else 0;
  rootdrive = none;
  rootpartition = none;
  printed = [];
}

abbrev unmounted : Fs
unmounted = record { init = false; su = super; disk = λ n. zeros }

len : strlen (place 0 0 (0 ∷ [])) ≡ some 7
unfolding strlen
len = refl

get_xy-mounts_example :
    (h : Grab) × (u : Fs) × (get_xy (place 0 0 (0 ∷ [])) grab unmounted ≡ ok (some (0, 0), h) u)
    × MountedAt grab unmounted 0 (record { startlba = 63; nsectors = 500 }) h u
unfolding get_super
get_xy-mounts_example =
    get_xy-mounts 0 0 grab unmounted (omega arith) (omega arith) refl refl (omega arith) refl
      (0 ∷ []) 7 len (omega arith)
