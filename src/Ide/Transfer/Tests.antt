-- ===== src/Ide/Transfer/Tests.antt =====
-- A transfer of the sample controller.
use model_lib.Base.{true, false}
use model_lib.Fs.Layout.{Bytes}
use model_lib.Ide.Drives.{Drives}

-- The second drive of the first channel, with 4 heads.
abbrev drives : Drives
drives = record {
  drives = λ d. record {
    exist = true;
    msdos = false;
    max_c = 20;
    max_h = 4;
    partitions = λ i. record { startlba = 0; nsectors = 0 };
  };
  drive_sel = 1;
}

abbrev sevens : Bytes
sevens i = 7
