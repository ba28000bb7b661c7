-- ===== src/Fs/Rw/FileWrite.antt =====
-- `fs_write` stores the caller's bytes in the file, and nothing else changes in it.
use mathlib.Core.Path.{subst}
use model_lib.Base.{
  ℕ, zero, suc, ◌+◌, ◌*◌, ◌/◌, ◌%◌, ◌^◌, ◌<◌, ◌≡◌, ◌≢◌, refl, arith, ltb, ◌==◌, u32, if◌then◌else◌,
  true, Bool-cases, inl, inr, sym,
}
use model_lib.Fs.Layout.{Bytes, Dinode, get_u32, put_inode, dinode_byte, splice, get_inode}
use model_lib.Fs.Layout.Views.{Fits}
use model_lib.Fs.State.{Fs, ok}
use model_lib.Fs.Inode.{get_ilevel, inode_block}
use model_lib.Fs.Inode.Access.{inode_at, with_inode}
use model_lib.Fs.Rw.{Share, span, inode_loop}
use model_lib.Fs.Rw.View.{file_block, base, base_next, file_block-base}
use model_lib.Fs.Rw.Progress.{Request}
use model_lib.Fs.Rw.Read.{AllBytes, update_self}
use model_lib.Fs.Rw.FileRead.{get_ilevel-le, base_end}
use model_lib.Fs.Rw.Kept.{InodePointers}
use model_lib.Fs.Rw.Written.{InRange, Separate, Written}
use model_lib.Fs.Rw.Write.{recursive_rw-Writes}

module _ (s : Fs) (di : Dinode) (r : Request) (bytes : AllBytes s) (sep : Separate r)
    (buf_bytes : (i : ℕ) → r.buf i < 256) (file : r.file ≡ file_block s di) (Apart : ℕ → Type 0)
    (clear : (p : ℕ) → Apart p → (k : ℕ) → InRange r k → r.file k ≢ p)
    (apart : InodePointers s Apart di) where
  pub inode_loop-Written :
      (rounds i : ℕ) (sa : Share) (t : Fs)
      → rounds + i ≡ 13
      → Written s r (base i) sa t
      → (sb : Share) × (u : Fs) × (inode_loop rounds di.ptrs i sa t ≡ ok (di.ptrs, sb) u)
        × Written s r 16650 sb u
  unfolding inode_loop
  inode_loop-Written zero i sa t e g =
      (sa, t, refl, subst (λ n. Written s r n sa t) (ground arith) g)
  inode_loop-Written (suc rounds) i sa t e g =
      let next : base (i + 1) ≡ base i + span (get_ilevel i) = base_next i (omega arith) in
      let (sb, u, run, g') =
        recursive_rw-Writes s r bytes sep buf_bytes Apart clear (get_ilevel i) (get_ilevel-le i)
          (di.ptrs i) (base i) sa t g (omega (arith, next, base_end i (omega arith)))
          (λ k hk. rw file (file_block-base s di i k (omega arith) hk)) (apart i (omega arith)) in
      rw (run, update_self di.ptrs i)
        (inode_loop-Written rounds (i + 1) sb u (omega arith)
          (subst (λ n. Written s r n sb u) (sym next) g'))

-- The fields of an inode on a disk of bytes fit their widths.
pub inode_at-Fits : (s : Fs) (n : ℕ) → AllBytes s → Fits (inode_at s n)
unfolding get_inode
inode_at-Fits s n bytes = record {
  type = omega (arith, at 0, at 1);
  major = omega (arith, at 2, at 3);
  minor = omega (arith, at 4, at 5);
  linkcnt = omega (arith, at 6, at 7);
  size = omega (arith, at 8, at 9, at 10, at 11);
  ptrs = λ i h. word (64 * (n % 8) + 12 + 4 * i);
}
  where
    at : (c : ℕ) → s.disk (inode_block s n) (64 * (n % 8) + c) < 256
    at c = bytes _ _

    word : (o : ℕ) → get_u32 (s.disk (inode_block s n)) o < 2 ^ 32
    word o = omega (
      arith,
      bytes (inode_block s n) o,
      bytes (inode_block s n) (o + 1),
      bytes (inode_block s n) (o + 2),
      bytes (inode_block s n) (o + 3),
    )

abbrev pub wider : Dinode → ℕ → Dinode
wider di end = record di { size = if ltb end di.size then di.size else end }

pub put_inode-bytes :
    (b : Bytes) (k : ℕ) (d : Dinode) → ((i : ℕ) → b i < 256) → (i : ℕ) → put_inode b k d i < 256
unfolding put_inode splice dinode_byte
put_inode-bytes b k d bytes i = ground (arith, bytes i)

pub with_inode-bytes : (s : Fs) (n : ℕ) (d : Dinode) → AllBytes s → AllBytes (with_inode s n d)
with_inode-bytes s n d bytes m i = elim (Bool-cases (m == inode_block s n)) [
  | inl hit ↦
      rw hit (put_inode-bytes (s.disk (inode_block s n)) (n % 8) d (bytes (inode_block s n)) i)
  | inr miss ↦ rw miss (bytes m i)
]

-- The `struct share_arg` with which a write starts.
abbrev pub start_share : Bytes → ℕ → ℕ → Share
start_share buf sz off = record {
  boff = 0;
  sblock = off / 512;
  eblock = u32 (off + sz) / 512;
  off = off;
  pos = 0;
  left = sz;
  buf = buf;
  w = true;
}
