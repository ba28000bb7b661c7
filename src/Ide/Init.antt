-- ===== src/Ide/Init.antt =====
-- `ide_init` of grab/ide.c: the probe of the four drives over the ports. A wait that does not end in the
-- transfers has fuel. What the uninitialized buffer of each drive holds is a parameter.
pub mod Probe
pub mod Geometry
mod Tests
use model_lib.Base.{
  ℕ, zero, suc, ◌+◌, ◌-◌, ◌*◌, ◌/◌, ◌%◌, ◌^◌, Bool, true, false, ◌==◌, ltb, if◌then◌else◌, Option,
  none, some, update,
}
use model_lib.Fs.Layout.{Bytes, Partition, get_u16, get_u32}
use model_lib.Ide.{Chs, Registers, registers_of}
use model_lib.Ide.Drives.{Drive, Drives}
use model_lib.Ide.Transfer.{Ports, ide_read_abs}

abbrev pub retries : ℕ
retries = 1000

-- Entry `i` of the partition table in the boot record.
abbrev pub entry : Bytes → ℕ → Partition
entry b i = record {
  startlba = get_u32 b (510 - 64 + 16 * i + 8);
  nsectors = get_u32 b (510 - 64 + 16 * i + 12);
}

-- -1 as an `int`
abbrev pub minus_one : ℕ
minus_one = 2 ^ 32 - 1

-- The test for a boot record, and the copy of its table.
abbrev pub with_table : Drive → Bytes → Drive
with_table drive b =
    if get_u16 b 510 == 0xaa55
    then record drive {
      msdos = true;
      partitions = λ i. if ltb i 4 then entry b i else drive.partitions i;
    }
    else drive

-- What is recorded of a drive that answers. Geometry that is not found is -1.
abbrev pub filled : ℕ → ℕ → Bytes → Drive → Drive
filled max_c max_h b drive = record (with_table drive b) {
  exist = true;
  max_c = if ltb 1024 max_c then minus_one else max_c;
  max_h = if ltb 1024 max_c then minus_one else max_h;
}

abbrev pub and_then : {A B : Type 0} → Option A → (A → Option B) → Option B
and_then none k = none
and_then (some a) k = k a

-- The first sector of a track.
abbrev pub first_of : ℕ → ℕ → ℕ → Registers
first_of drivenum c h = registers_of drivenum (record { c = c; h = h; s = 1 })

module _ {D : Type 0} (ports : Ports D) (fuel : ℕ) where
  -- `for (; retry_cnt > 0 && !inb(port); retry_cnt--)`: has it left tries?
  pub answers : ℕ → ℕ → D → Bool × D
  answers zero port d = (false, d)
  answers (suc retry_cnt) port d =
      let (status, d') = ports.inb port d in
      let rest = answers retry_cnt port d' in if status == 0 then rest else (true, d')

  -- A read that fails leaves the buffer as it is.
  pub into : Bytes → Option (Option Bytes × D) → Option (Bool × Bytes × D)
  into b none = none
  into b (some (none, d)) = some (false, b, d)
  into b (some (some buf, d)) = some (true, buf, d)

  -- `ide_rw_abs(drivenum, c, h, 1, &b, 0) >= 0`
  pub read_first : ℕ → ℕ → ℕ → Bytes → D → Option (Bool × Bytes × D)
  read_first drivenum c h b d = into b (ide_read_abs ports fuel (first_of drivenum c h) d)

  -- `for (; read(n) >= 0 && n < limit; n++)`, from `n` on, with `rounds` for the values below the limit:
  -- there is a read at the limit, too.
  pub count_from :
      ℕ → (ℕ → Bytes → D → Option (Bool × Bytes × D)) → ℕ → Bytes → D → Option (ℕ × Bytes × D)
  count_from zero read n b d = and_then (read n b d) λ r. some (n, r.1, r.2)
  count_from (suc rounds) read n b d = and_then (read n b d) λ r.
      let rest = count_from rounds read (n + 1) r.1 r.2 in if r.0 then rest else some (n, r.1, r.2)

  -- The body of the loop of `ide_init` for a drive that answers.
  pub probed : ℕ → Drive → Bytes → D → Option (Drive × D)
  probed drivenum drive b d = and_then (count_from 1025 (λ c. read_first drivenum c 0) 0 b d) λ cs.
      and_then (count_from 16 (λ h. read_first drivenum 0 h) 0 cs.1 cs.2) λ hs.
        and_then (read_first drivenum 0 0 hs.1 hs.2) λ r. some (filled cs.0 hs.0 r.1 drive, r.2)

  -- The body of the loop.
  pub init_drive : (ℕ → Bytes) → ℕ → (ℕ → Drive) → D → Option ((ℕ → Drive) × D)
  init_drive stale drivenum drives d =
      let base = if ltb drivenum 2 then 0x1f0 else 0x170 in
      let (awake, d') =
        answers retries (base + 7) (ports.outb (0xa0 + drivenum % 2 * 16) (base + 6) d) in
      if awake
      then and_then (probed drivenum (drives drivenum) (stale drivenum) d')
          (λ p. some (update drives drivenum p.0, p.1))
      else some (drives, d')

  -- The loop over the drives from `drivenum` on.
  pub init_loop : ℕ → (ℕ → Bytes) → ℕ → (ℕ → Drive) → D → Option ((ℕ → Drive) × D)
  init_loop zero stale drivenum drives d = some (drives, d)
  init_loop (suc rounds) stale drivenum drives d =
      and_then (init_drive stale drivenum drives d)
        λ r. init_loop rounds stale (drivenum + 1) r.0 r.1

  pub ide_init : (ℕ → Bytes) → Drives → D → Option (Drives × D)
  ide_init stale ide d =
      and_then (init_loop 4 stale 0 ide.drives d) λ r. some (record ide { drives = r.0 }, r.1)
