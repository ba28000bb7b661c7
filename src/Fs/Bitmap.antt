-- ===== src/Fs/Bitmap.antt =====
-- `bitmap_alloc` and `bitmap_free` of fs/fs.c. An `int` result is a flag: true for 0, false for -1.
pub mod Alloc
pub mod Fresh
pub mod Free
mod Tests
use model_lib.Base.{
  ℕ, zero, suc, ◌+◌, ◌-◌, ◌*◌, ◌/◌, ◌%◌, Bool, true, false, not, ◌==◌, ◌||◌, ltb, leb,
  if◌then◌else◌, u32, update, bit, set_bit, clear_bit,
}
use model_lib.Fs.Layout.{Bytes, Block}
use model_lib.Fs.State.{
  Fs, Run, ok, out_of_bounds, Cmd, pure, ◌>>=◌, ◌>>◌, get, disk_read, disk_write, assert, in_bounds,
}

-- `for (off = 0; off < 8; off++) if (!((byte >> off) & 1)) break;` with `rounds` rounds left.
first_zero : ℕ → ℕ → ℕ → ℕ
first_zero zero byte off = off
first_zero (suc rounds) byte off =
    if bit byte off == 0 then off else first_zero rounds byte (off + 1)

-- The body of the loop for a byte `i` that is not 0xff.
take_bit : Block → ℕ → Cmd ℕ
take_bit b i = do
  s ← get
  let off = first_zero 8 (b i) 0
  if leb s.su.nblock_dat (off + i * 8) then pure 0 else do
    assert (not (off == 8))
    disk_write s.su.sbitmap (update b i (set_bit (b i) off))
    pure (u32 (off + i * 8 + s.su.sdata))

-- The loop over the bytes `i` of the bitmap block, with `rounds` of them left.
alloc_loop : ℕ → Block → ℕ → Cmd ℕ
alloc_loop zero b i = pure 0
alloc_loop (suc rounds) b i =
    let rest = alloc_loop rounds b (i + 1) in
    in_bounds (ltb i 512) >> (if b i == 255 then rest else take_bit b i)

pub bitmap_alloc : Cmd ℕ
unfolding alloc_loop take_bit
bitmap_alloc = do s ← get; b ← disk_read s.su.sbitmap; alloc_loop (s.su.nblock_dat / 8) b 0

pub bitmap_free : ℕ → Cmd Bool
bitmap_free n = do
  s ← get
  if ltb n s.su.sdata || leb (u32 (s.su.sdata + s.su.nblock_dat)) n then pure false else do
    b ← disk_read s.su.sbitmap
    in_bounds (ltb (n / 8) 512)
    if bit (b (n / 8)) (n % 8) == 0 then pure false else do
      disk_write s.su.sbitmap (update b (n / 8) (clear_bit (b (n / 8)) (n % 8)))
      pure true
