-- ===== src/Ide/Address.antt =====
-- The registers determine the block, and no block is refused.
use native.Mathlib.Nat.{div-add-mod, mod-lt}
use model_lib.Base.{
  ℕ, ◌+◌, ◌-◌, ◌*◌, ◌/◌, ◌%◌, ◌≤◌, ◌<◌, ◌≡◌, refl, arith, true, leb, if◌then◌else◌, ◌==◌,
}
use model_lib.Ide.{Registers, lba_to_chs, registers_of, passes}

-- The drive and the block that the registers name, for a drive with `max_h` heads.
abbrev pub drive_of : Registers → ℕ
drive_of r = (if r.base == 0x1f0 then 0 else 2) + r.select / 16 % 2

abbrev pub block_of : ℕ → Registers → ℕ
block_of max_h r =
    (max_h * (r.cylinder_low + r.cylinder_high * 256) + r.select % 16) * 63 + (r.sector - 1)

-- For one of the four drives, with 1 to 16 heads, and a block whose cylinder number has 16 bits: the
-- registers that are written name that drive and that block. The cylinder is not compared with the
-- number of cylinders of the drive: a block past its end is sent, too.
pub registers_of-block_of :
    (drive max_c max_h lba : ℕ)
    → drive < 4
    → 0 < max_h
    → max_h ≤ 16
    → lba / 63 / max_h < 65536
    → let r = registers_of drive (lba_to_chs max_h lba) in
      (passes (lba_to_chs max_h lba) max_c max_h ≡ true)
      × (drive_of r ≡ drive)
      × (block_of max_h r ≡ lba)
      × (1 ≤ r.sector)
      × (r.sector ≤ 63)
unfolding registers_of lba_to_chs
registers_of-block_of drive max_c max_h lba four pos heads narrow =
    (sent, ground arith, whole, omega arith, omega arith)
  where
    -- A cylinder number is at least 0, which is all that is tested.
    sent : passes (lba_to_chs max_h lba) max_c max_h ≡ true
    sent = let first : leb 0 (lba / 63 / max_h) ≡ true = ground arith in rw first refl

    q : ℕ
    q = lba / 63

    whole :
        (max_h * (q / max_h % 256 + q / max_h % 65536 / 256 * 256)
              + (0xa0 + drive % 2 * 16 + q % max_h % 16) % 16)
            * 63
          + ((lba % 63 + 1) % 256 - 1)
        ≡ lba
    whole =
        let head : q % max_h < max_h = mod-lt q pos in
        let cylinder : q / max_h % 256 + q / max_h % 65536 / 256 * 256 ≡ q / max_h = omega arith in
        let select : (0xa0 + drive % 2 * 16 + q % max_h % 16) % 16 ≡ q % max_h = omega arith in
        let parts : max_h * (q / max_h) + q % max_h ≡ q = div-add-mod q max_h in
        rw (cylinder, select, parts) (omega arith)
