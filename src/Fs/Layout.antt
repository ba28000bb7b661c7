-- ===== src/Fs/Layout.antt =====
-- kernel/include/fs.h: the constants, the on-disk structures, and `union block` as 512 bytes that
-- are read and written through its little-endian views. A C array in memory is a function from the
-- index; each function of fs.c that indexes one tests the bound.
pub mod Views
use model_lib.Base.{ℕ, ◌+◌, ◌-◌, ◌*◌, ◌/◌, ◌%◌, ◌&&◌, ◌==◌, ltb, leb, if◌then◌else◌}

abbrev pub block_size : ℕ
block_size = 512

abbrev pub nblocks_log : ℕ
nblocks_log = 30

abbrev pub ninodes_max : ℕ
ninodes_max = 200

abbrev pub fsmagic : ℕ
fsmagic = 0xdeadbeef

abbrev pub null_inum : ℕ
null_inum = 0

abbrev pub root_inum : ℕ
root_inum = 1

abbrev pub max_name : ℕ
max_name = 14

abbrev pub max_path : ℕ
max_path = 64

abbrev pub dinode_size : ℕ
dinode_size = 64

abbrev pub dirent_size : ℕ
dirent_size = 16

abbrev pub ninodes_per_block : ℕ
ninodes_per_block = 8

abbrev pub nptrs_per_block : ℕ
nptrs_per_block = 128

abbrev pub ndirect : ℕ
ndirect = 10

abbrev pub nindirect : ℕ
nindirect = 2

abbrev pub nptrs : ℕ
nptrs = 13

abbrev pub t_reg : ℕ
t_reg = 1

abbrev pub t_dir : ℕ
t_dir = 2

abbrev pub t_dev : ℕ
t_dev = 3

abbrev pub Bytes : Type 0
Bytes = ℕ → ℕ

abbrev pub Block : Type 0
Block = Bytes

abbrev pub zeros : Bytes
zeros _ = 0

-- The bytes of a value in memory, lowest first.
abbrev pub byte_of : ℕ → ℕ → ℕ
byte_of v k =
    if k == 0
    then v % 256
    else if k == 1
    then v / 256 % 256
    else if k == 2
    then v / 65536 % 256
    else v / 16777216 % 256

abbrev pub get_u16 : Bytes → ℕ → ℕ
get_u16 b o = b o + b (o + 1) * 256

abbrev pub get_u32 : Bytes → ℕ → ℕ
get_u32 b o = b o + b (o + 1) * 256 + b (o + 2) * 65536 + b (o + 3) * 16777216

-- Replaces `n` bytes from offset `o` on by those of `src`: an assignment, or `memcpy(b + o, src, n)`.
unfoldable pub splice : Bytes → ℕ → ℕ → Bytes → Bytes
splice b o n src j = if leb o j && ltb j (o + n) then src (j - o) else b j

abbrev pub put_u32 : Bytes → ℕ → ℕ → Bytes
put_u32 b o v = splice b o 4 (byte_of v)

pub record Superblock : Type 0 where
  pub start : ℕ
  pub ninodes : ℕ
  pub nblock_tot : ℕ
  pub nblock_log : ℕ
  pub nblock_dat : ℕ
  pub nblock_inode : ℕ
  pub slog : ℕ
  pub sinode : ℕ
  pub sbitmap : ℕ
  pub sdata : ℕ
  pub magic : ℕ

pub record Dinode : Type 0 where
  pub type : ℕ
  pub major : ℕ
  pub minor : ℕ
  pub linkcnt : ℕ
  pub size : ℕ
  pub ptrs : ℕ → ℕ

pub record Partition : Type 0 where
  pub startlba : ℕ
  pub nsectors : ℕ

-- `b.su`
unfoldable pub get_super : Block → Superblock
get_super b = record {
  start = get_u32 b 0;
  ninodes = get_u32 b 4;
  nblock_tot = get_u32 b 8;
  nblock_log = get_u32 b 12;
  nblock_dat = get_u32 b 16;
  nblock_inode = get_u32 b 20;
  slog = get_u32 b 24;
  sinode = get_u32 b 28;
  sbitmap = get_u32 b 32;
  sdata = get_u32 b 36;
  magic = get_u32 b 40;
}

-- `b.su = s`
unfoldable pub put_super : Block → Superblock → Block
put_super b s =
    put_u32
      (put_u32
        (put_u32
          (put_u32
            (put_u32
              (put_u32
                (put_u32
                  (put_u32 (put_u32 (put_u32 (put_u32 b 0 s.start) 4 s.ninodes) 8 s.nblock_tot) 12
                    s.nblock_log)
                  16 s.nblock_dat)
                20 s.nblock_inode)
              24 s.slog)
            28 s.sinode)
          32 s.sbitmap)
        36 s.sdata)
      40 s.magic

-- `b.inodes[k]`
unfoldable pub get_inode : Block → ℕ → Dinode
get_inode b k = record {
  type = get_u16 b (64 * k);
  major = get_u16 b (64 * k + 2);
  minor = get_u16 b (64 * k + 4);
  linkcnt = get_u16 b (64 * k + 6);
  size = get_u32 b (64 * k + 8);
  ptrs = λ i. get_u32 b (64 * k + 12 + 4 * i);
}

-- The byte at offset `o` of a `struct dinode`.
unfoldable pub dinode_byte : Dinode → Bytes
dinode_byte d o =
    if ltb o 2
    then byte_of d.type o
    else if ltb o 4
    then byte_of d.major (o - 2)
    else if ltb o 6
    then byte_of d.minor (o - 4)
    else if ltb o 8
    then byte_of d.linkcnt (o - 6)
    else if ltb o 12
    then byte_of d.size (o - 8)
    else byte_of (d.ptrs ((o - 12) / 4)) ((o - 12) % 4)

-- `b.inodes[k] = d`
unfoldable pub put_inode : Block → ℕ → Dinode → Block
put_inode b k d = splice b (64 * k) 64 (dinode_byte d)
