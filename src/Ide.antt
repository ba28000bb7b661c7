-- ===== src/Ide.antt =====
-- The addresses of the disk driver grab/ide.c: from a block number to a cylinder, a head and a sector,
-- and from these to the registers of the controller, for block numbers that are not negative as an
-- `int`.
pub mod Address
pub mod Transfer
pub mod Drives
pub mod Init
use model_lib.Base.{
  ℕ, ◌+◌, ◌-◌, ◌*◌, ◌/◌, ◌%◌, Bool, true, false, ◌&&◌, ◌||◌, ltb, leb, if◌then◌else◌, Option, none,
  some,
}

-- The results `*c`, `*h` and `*s`.
pub record Chs : Type 0 where
  pub c : ℕ
  pub h : ℕ
  pub s : ℕ

-- On a drive with `max_h` heads.
pub lba_to_chs : ℕ → ℕ → Chs
lba_to_chs max_h lba = record { c = lba / 63 / max_h; h = lba / 63 % max_h; s = lba % 63 + 1 }

-- What `ide_rw_abs` writes to the registers: the first port of the channel, the sector number, the two
-- bytes of the cylinder, and the selection. The bits of the selection do not overlap, so `|` is a sum.
pub record Registers : Type 0 where
  pub base : ℕ
  pub sector : ℕ
  pub cylinder_low : ℕ
  pub cylinder_high : ℕ
  pub select : ℕ

pub registers_of : ℕ → Chs → Registers
registers_of drive a = record {
  base = if ltb drive 2 then 0x1f0 else 0x170;
  sector = a.s % 256;
  cylinder_low = a.c % 256;
  cylinder_high = a.c % 65536 / 256;
  select = 0xa0 + drive % 2 * 16 + a.h % 16;
}

-- The test of `ide_rw`, for a drive with `max_c` cylinders and `max_h` heads.
abbrev pub passes : Chs → ℕ → ℕ → Bool
passes a max_c max_h =
    leb 0 a.c || ltb a.c max_c || leb 0 a.h || ltb a.h max_h || leb 1 a.s || ltb a.s 63
