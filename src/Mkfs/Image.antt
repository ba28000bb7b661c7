-- ===== src/Mkfs/Image.antt =====
-- The start of `main` of mkfs/mkfs.c: the partition of the image is found and mounted, and formatted
-- if it is not mounted. `open` of the image and the failure messages are left out.
use model_lib.Base.{
  ℕ, ◌+◌, ◌-◌, ◌*◌, ◌≤◌, ◌≡◌, ◌≢◌, refl, arith, ◌∙◌, true, false, not, ◌==◌, ◌||◌, ltb,
  if◌then◌else◌, Option, none, some, inl, inr, ◌⊎◌,
}
use model_lib.Fs.Layout.{Block, Partition, get_super, fsmagic, get_u16, get_u32}
use model_lib.Fs.State.{Fs, Cmd, ok, pure, ◌>>=◌, ◌>>◌, disk_read, assert}
use model_lib.Fs.Format.{fs_init, fs_format, layout}
use model_lib.Fs.Format.Super.{Roomy}
use model_lib.Fs.Format.Mount.{fs_format-fs_init, fs_init-cases}

-- The offset of entry `n`, counted from 1, in the partition table of a boot record.
abbrev entry_offset : ℕ → ℕ
entry_offset n = 512 - 2 - 16 * 4 + 16 * (n - 1)

abbrev pub sysid : Block → ℕ → ℕ
sysid b n = b (entry_offset n + 4)

abbrev pub partition_of : Block → ℕ → Partition
partition_of b n = record {
  startlba = get_u32 b (entry_offset n + 8);
  nsectors = get_u32 b (entry_offset n + 12);
}

-- `if (fs_init(…) < 0) { fs_format(…); assert(fs_init(…) >= 0); }`
pub mount_or_format : Partition → Cmd (Unit {0})
mount_or_format p = do
  mounted ← fs_init p
  if mounted then pure tt else (do fs_format p; again ← fs_init p; assert again)

-- `none` is `exit(1)`.
pub open_partition : ℕ → Cmd (Option (Unit {0}))
open_partition n = if ltb n 1 || ltb 4 n then pure none else (do
  b ← disk_read 0
  if not (get_u16 b 510 == 0xaa55)
      then pure none
      else if sysid b n == 0
      then pure none
      else do mount_or_format (partition_of b n); pure (some tt))

-- The file system of a partition is mounted: the one that its first sector holds, and then no sector has
-- changed, or a new one, laid out over the partition.
pub record Opened (p : Partition) (s t : Fs) : Type 0 where
  pub init : t.init ≡ true
  pub super :
      (((get_super (s.disk p.startlba)).magic ≡ fsmagic)
        × (t.disk ≡ s.disk)
        × (t.su ≡ get_super (s.disk p.startlba)))
      ⊎ (((get_super (s.disk p.startlba)).magic ≢ fsmagic)
          × (t.su ≡ layout p)
          × (get_super (t.disk p.startlba) ≡ layout p))

mount_or_format-Opened :
    (p : Partition) (s : Fs) → Roomy p → (t : Fs) × (mount_or_format p s ≡ ok tt t) × Opened p s t
unfolding mount_or_format
mount_or_format-Opened p s roomy = elim (fs_init-cases p s) [
  | inl (magic, there) ↦ rw there (_, refl, record { init = refl; super = inl (magic, refl, refl) })
  | inr (magic, missing) ↦
      let t : Fs = record s { su = get_super (s.disk p.startlba) } in
      let (u, made, mounted, su, disk) = fs_format-fs_init p t roomy in
      rw (missing, made, mounted) (_, refl, record { init = refl; super = inr (magic, su, disk) })
]

-- Byte `o` of entry `n` of the partition table, and the number in the four bytes from there on.
abbrev table_byte : Block → ℕ → ℕ → ℕ
table_byte b n o = b (446 + 16 * (n - 1) + o)

abbrev pub table_number : Block → ℕ → ℕ → ℕ
table_number b n o =
    let at = 446 + 16 * (n - 1) + o in
    b at + 256 * (b (at + 1) + 256 * (b (at + 2) + 256 * b (at + 3)))

number_lem :
    (b : Block) (at : ℕ)
    → get_u32 b at ≡ b at + 256 * (b (at + 1) + 256 * (b (at + 2) + 256 * b (at + 3)))
number_lem b at = omega arith

partition_of_lem :
    (b : Block) (n first sectors : ℕ)
    → table_number b n 8 ≡ first
    → table_number b n 12 ≡ sectors
    → partition_of b n ≡ record { startlba = first; nsectors = sectors }
partition_of_lem b n first sectors at size =
    let start : get_u32 b (entry_offset n + 8) ≡ first =
      number_lem b (446 + 16 * (n - 1) + 8) ∙ at in
    let count : get_u32 b (entry_offset n + 12) ≡ sectors =
      number_lem b (446 + 16 * (n - 1) + 12) ∙ size in
    rw (start, count) refl

-- With an image whose first sector has the mark of a boot record, the start of `main` for a partition from 1 to 4
-- whose entry in the table has a type other than 0 in byte 4, and whose first sector and number of
-- sectors, from bytes 8 and 12 of the entry on, leave room for the sections of a file system: it
-- returns with the file system of these sectors mounted. That is the one that their first sector
-- holds, if the magic number is there, and no sector has changed; else it is one that is laid out
-- over these sectors, on the disk as in memory.
pub open_partition-Opened :
    (n first sectors : ℕ) (s : Fs)
    → 1 ≤ n
    → n ≤ 4
    → s.disk 0 510 ≡ 0x55
    → s.disk 0 511 ≡ 0xaa
    → table_byte (s.disk 0) n 4 ≢ 0
    → table_number (s.disk 0) n 8 ≡ first
    → table_number (s.disk 0) n 12 ≡ sectors
    → Roomy (record { startlba = first; nsectors = sectors })
    → (t : Fs) × (open_partition n s ≡ ok (some tt) t)
      × Opened (record { startlba = first; nsectors = sectors }) s t
unfolding open_partition
open_partition-Opened n first sectors s low high mark mark' used at size roomy =
    let range : (ltb n 1 || ltb 4 n) ≡ false = ground arith in
    let marked : (get_u16 (s.disk 0) 510 == 0xaa55) ≡ true = ground arith in
    let there : (sysid (s.disk 0) n == 0) ≡ false = ground arith in
    let p : Partition = record { startlba = first; nsectors = sectors } in
    let same : partition_of (s.disk 0) n ≡ p =
      partition_of_lem (s.disk 0) n first sectors at size in
    let (t, run, opened) = mount_or_format-Opened p s roomy in
    rw (range, marked, there, same, run) (t, refl, opened)
