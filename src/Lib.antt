-- ===== src/Lib.antt =====
-- A hobby system for the 386: the file system fs/fs.c, which the boot loader GRAB (grab/) and the
-- host's tool mkfs/ share, the tool's commands, and the loader's keyboard driver, screen, shell, PCI
-- access and disk driver.
--
-- Parts and files:
--   Base         numbers, Boolean tests, bits of a byte, lists; `u32 n` is `n % 2 ^ 32`.
--   Fs.Layout    kernel/include/fs.h: a block is a function from byte offsets to bytes; `get_super`,
--                `put_super`, `get_inode`, `put_inode`, `get_u32` and `put_u32` are the views of
--                `union block`, low byte first and without padding.
--   Fs.State     the global `fs` of fs/fs.c with the disk behind `disk_read` and `disk_write`. A call
--                is `Cmd`: from a state to a result and a state, to `panicked` (the endless loop of
--                `panic`, where an assertion fails) or to `out_of_bounds` (an index past an array).
--   Fs.Bitmap    `bitmap_alloc`, `bitmap_free`.
--   Fs.Inode     `rw_inode`, `read_inode`, `write_inode`, `fs_geti`, `free_indirect`, `free_inode`,
--                `alloc_inode`.
--   Fs.Rw        `recursive_rw`, `inode_rw`, `fs_read`, `fs_write`. `struct share_arg` is `Share`, which
--                also holds the caller's buffer. `Fs.Rw.View` says what a file holds without the
--                traversal: the block behind each block offset. `Fs.Rw.Written` says how far a
--                write has come, and `Fs.Rw.Room` what it asks and leaves. A write that meets a null
--                pointer goes as if the block had been allocated before it (`Fs.Rw.Hole`).
--   Fs.Format    `fs_init`, `fs_format`.
--   Fs.Dir       `dir_lookup`; an entry is 16 bytes of its directory's file.
--   Fs.Path      `fs_lookup`, `getname`, `fs_mknod`; `Fs.Path.Linked` and `Fs.Path.Entered` are the states
--                between the steps of `fs_mknod`.
--   Text         grab/util.c: a string is the list of the bytes of its array, with the terminating
--                zero; a read past the array is `none`. `Text.Memory` has `memset` and `memcpy`, for which
--                `splice` stands elsewhere.
--   Kbd          grab/kbd.c and grab/include/kbd.h: the parser of scan bytes, the modifier keys,
--                `kbd_poll_event` over the list of bytes that the controller delivers, `apply_shift`.
--   Screen       grab/vga.c and `putchar` and `_string` of grab/printf.c: the text buffer and the
--                registers of the cursor; a panic is `none`.
--   Number       `_int` of grab/printf.c, on the 32-bit pattern of its argument, and `str2uint` of
--                grab/util.c.
--   Printf       the format states of `printf` of grab/printf.c; the output is the list of the
--                characters that `putchar` gets, and the arguments are the bytes of the stack, which
--                `va_arg` (grab/include/arg.h) takes off. `Printf.Pieces` is what its comment promises.
--   Shell        grab/shell.c: the line editor of `shell`, on the screen, and `nextword`.
--   Shell.Commands  `getXY`, `ide_list`, `ls`, `cat`, `set` and `process_command` of grab/shell.c, on
--                the drives of `Ide.Drives`: the blocks of the selected drive are the disk of `Fs`.
--                `Shell.Commands.Names` and `Printing` say what `ls` and `cat` print.
--   Ide          grab/ide.c: the address of a block and the registers that it is put into;
--                `Ide.Transfer` is `ide_rw_abs` and its callers over the ports, whose instructions
--                (grab/pio.c) are the parameter `Ports`; `Controller` is what is documented of the device,
--                a hypothesis of the theorems; `Ide.Init` is `ide_init` over the same ports, and
--                `Ide.Drives` has the table of drives, `ide_sel` and `ide_get_partitions`.
--   Pci          grab/pci.c: the configuration space behind two ports, the probe of the buses, and the
--                table of devices. The hardware is the parameter `Bridge`. `Pci.Listing` is the list
--                of functions that the probe is to find.
--   Mkfs         mkfs/mkfs.c: the commands, the choice of a command, and the mount at the start of
--                `main`. The host's files and output are the record `Host`. `Mkfs.Copied` says
--                how far the loop of `do_migrate` has come; `Mkfs.RoundTrip` follows it by `do_retrieve`
--                for a path in the root. There a file has direct blocks only, hence 5119 bytes.
-- The shell's editor puts characters on the screen and takes its keys from the keyboard driver; paths
-- are looked up through directories, whose entries are read as any file. The shell mounts a partition
-- of the drive that it selects, and mkfs a partition of an image.
-- An inode is read and written whole through its block; a file's blocks come from the allocator.
-- The files called Tests and PrintTests run the code on small inputs.
--
-- Loops are recursion on the rounds left, which the loop's bound gives, so no fuel can run out; the
-- recursion over indirect blocks is on the level, which falls. `kbd_poll_event` recurses on the bytes.
-- `lookup_loop` of `fs_lookup` has the length of the path as fuel: each round takes a character of it.
-- The loops of `ls`, `cat` and `retrieve` over a file have fuel as an argument, one round more than
-- the reads that give something is enough; a loop that goes on beyond it counts as one that does
-- not end. `printf` has two rounds for a character of the format, which is enough, since
-- a round that keeps its character is followed by one that takes it. The probe of the PCI buses has
-- fuel for the depth of the buses, of which there are 256. A wait for a disk controller has fuel, more
-- than the readings of the status for which the controller is busy.
--
-- Not modelled: what `fs.printf` and messages of failure print, the tests for null function pointers,
-- the port instructions (grab/pio.c), the assembly (grab/stage1.S,
-- kernel/), `boot` of grab/shell.c but for its menu (`Shell.Menu`), `pci_list`, the file behind
-- an image in mkfs/mkfs.c, and the parts of grab/ and fs/fs.c that no file above names. No theorem
-- is about a write that allocates a block of pointers, or that finds no free block.
pub mod Base
pub mod Fs
pub mod Kbd
pub mod Text
pub mod Screen
pub mod Shell
pub mod Number
pub mod Printf
pub mod Ide
pub mod Pci
pub mod Mkfs
