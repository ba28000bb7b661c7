-- ===== src/Ide/Init/Tests.antt =====
-- The probe of the sample controller, whose drives have 20 cylinders and 4 heads.
use model_lib.Base.{false, ◌==◌, if◌then◌else◌}
use model_lib.Fs.Layout.{Bytes}
use model_lib.Ide.Drives.{Drives}

abbrev boot_record : Bytes
boot_record i = if i == 510 then 0x55 else if i == 511 then 0xaa else if i == 454 then 63 else 0

abbrev no_drives : Drives
no_drives = record {
  drives = λ d. record {
    exist = false;
    msdos = false;
    max_c = 0;
    max_h = 0;
    partitions = λ i. record { startlba = 0; nsectors = 0 };
  };
  drive_sel = 0;
}
