-- ===== src/Fs/Layout/Views.antt =====
-- The views of a block: what is written to one inode is read back, and the others keep their bytes.
use model_lib.Base.{ℕ, ◌+◌, ◌-◌, ◌*◌, ◌/◌, ◌%◌, ◌^◌, ◌≤◌, ◌<◌, ◌≡◌, ◌≢◌, ◌⊎◌, ap, arith, ◌∙◌}
use model_lib.Fs.Layout.{
  Block, Bytes, Dinode, splice, get_u16, get_u32, byte_of, get_inode, put_inode, dinode_byte, nptrs,
}

module _ (b src : Bytes) (o n : ℕ) where
  pub splice_inside : (i : ℕ) → i < n → splice b o n src (o + i) ≡ src i
  unfolding splice
  splice_inside i h = ground (arith, ap src (let e : o + i - o ≡ i = omega arith in e))

  pub splice_outside : (j : ℕ) → (j < o) ⊎ (o + n ≤ j) → splice b o n src j ≡ b j
  unfolding splice
  splice_outside j h = ground arith

  splice_at : (i c : ℕ) → i + c < n → splice b o n src (o + i + c) ≡ src (i + c)
  splice_at i c h =
      ap (splice b o n src) (let e : o + i + c ≡ o + (i + c) = omega arith in e)
      ∙ splice_inside (i + c) h

  pub get_u16-splice_inside :
      (i : ℕ) → i + 2 ≤ n → get_u16 (splice b o n src) (o + i) ≡ get_u16 src i
  get_u16-splice_inside i h =
      omega (arith, splice_inside i (omega arith), splice_at i 1 (omega arith))

  pub get_u32-splice_inside :
      (i : ℕ) → i + 4 ≤ n → get_u32 (splice b o n src) (o + i) ≡ get_u32 src i
  get_u32-splice_inside i h = omega (
    arith,
    splice_inside i (omega arith),
    splice_at i 1 (omega arith),
    splice_at i 2 (omega arith),
    splice_at i 3 (omega arith),
  )

  pub get_u16-splice_outside :
      (j : ℕ) → (j + 2 ≤ o) ⊎ (o + n ≤ j) → get_u16 (splice b o n src) j ≡ get_u16 b j
  get_u16-splice_outside j h =
      omega (arith, splice_outside j (omega arith), splice_outside (j + 1) (omega arith))

  pub get_u32-splice_outside :
      (j : ℕ) → (j + 4 ≤ o) ⊎ (o + n ≤ j) → get_u32 (splice b o n src) j ≡ get_u32 b j
  get_u32-splice_outside j h = omega (
    arith,
    splice_outside j (omega arith),
    splice_outside (j + 1) (omega arith),
    splice_outside (j + 2) (omega arith),
    splice_outside (j + 3) (omega arith),
  )

-- The fields of a `struct dinode` agree, with the 13 pointers that it holds.
pub record SameInode (d e : Dinode) : Type 0 where
  pub type : d.type ≡ e.type
  pub major : d.major ≡ e.major
  pub minor : d.minor ≡ e.minor
  pub linkcnt : d.linkcnt ≡ e.linkcnt
  pub size : d.size ≡ e.size
  pub ptrs : (i : ℕ) → i < nptrs → d.ptrs i ≡ e.ptrs i

-- Every field fits its width.
pub record Fits (d : Dinode) : Type 0 where
  pub type : d.type < 2 ^ 16
  pub major : d.major < 2 ^ 16
  pub minor : d.minor < 2 ^ 16
  pub linkcnt : d.linkcnt < 2 ^ 16
  pub size : d.size < 2 ^ 32
  pub ptrs : (i : ℕ) → i < nptrs → d.ptrs i < 2 ^ 32

u32_bytes :
    (v : ℕ)
    → v < 2 ^ 32
    → byte_of v 0 + byte_of v 1 * 256 + byte_of v 2 * 65536 + byte_of v 3 * 16777216 ≡ v
u32_bytes v h = omega arith

ptr_byte : (d : Dinode) (i c : ℕ) → c < 4 → dinode_byte d (12 + 4 * i + c) ≡ byte_of (d.ptrs i) c
unfolding dinode_byte
ptr_byte d i c h =
    let q : (12 + 4 * i + c - 12) / 4 ≡ i = omega arith in
    let r : (12 + 4 * i + c - 12) % 4 ≡ c = omega arith in ground (arith, ap d.ptrs q, r)

get_ptr : (d : Dinode) (i : ℕ) → d.ptrs i < 2 ^ 32 → get_u32 (dinode_byte d) (12 + 4 * i) ≡ d.ptrs i
get_ptr d i h = omega (
  arith,
  first,
  ptr_byte d i 1 (omega arith),
  ptr_byte d i 2 (omega arith),
  ptr_byte d i 3 (omega arith),
  u32_bytes (d.ptrs i) h,
)
  where
    first : dinode_byte d (12 + 4 * i) ≡ byte_of (d.ptrs i) 0
    first = ap (dinode_byte d) (omega arith) ∙ ptr_byte d i 0 (omega arith)

-- What the fields of a `struct dinode` read from its own bytes.
record Reads (d : Dinode) : Type 0 where
  type : get_u16 (dinode_byte d) 0 ≡ d.type
  major : get_u16 (dinode_byte d) 2 ≡ d.major
  minor : get_u16 (dinode_byte d) 4 ≡ d.minor
  linkcnt : get_u16 (dinode_byte d) 6 ≡ d.linkcnt
  size : get_u32 (dinode_byte d) 8 ≡ d.size

Fits-Reads : (d : Dinode) → Fits d → Reads d
unfolding dinode_byte
Fits-Reads d f = record {
  type = omega arith;
  major = omega arith;
  minor = omega arith;
  linkcnt = omega arith;
  size = omega arith;
}

module _ (b : Block) (k : ℕ) (d : Dinode) where
  -- An inode that is written to a block is read back, field by field.
  pub get_inode-put_inode_self : Fits d → SameInode (get_inode (put_inode b k d) k) d
  unfolding get_inode put_inode
  get_inode-put_inode_self f = record {
    type = ap (get_u16 new) (omega arith) ∙ inside16 0 (omega arith) ∙ reads.type;
    major = inside16 2 (omega arith) ∙ reads.major;
    minor = inside16 4 (omega arith) ∙ reads.minor;
    linkcnt = inside16 6 (omega arith) ∙ reads.linkcnt;
    size = inside32 8 (omega arith) ∙ reads.size;
    ptrs = λ i h.
        ap (get_u32 new) (omega arith)
        ∙ inside32 (12 + 4 * i) (omega arith)
        ∙ get_ptr d i (f.ptrs i h);
  }
    where
      new : Bytes
      new = splice b (64 * k) 64 (dinode_byte d)

      inside16 : (i : ℕ) → i + 2 ≤ 64 → get_u16 new (64 * k + i) ≡ get_u16 (dinode_byte d) i
      inside16 = get_u16-splice_inside b (dinode_byte d) (64 * k) 64

      inside32 : (i : ℕ) → i + 4 ≤ 64 → get_u32 new (64 * k + i) ≡ get_u32 (dinode_byte d) i
      inside32 = get_u32-splice_inside b (dinode_byte d) (64 * k) 64

      reads : Reads d
      reads = Fits-Reads d f

  -- The other inodes of the block stay as they are.
  pub get_inode-put_inode_ne :
      (j : ℕ) → j ≢ k → SameInode (get_inode (put_inode b k d) j) (get_inode b j)
  unfolding get_inode put_inode
  get_inode-put_inode_ne j ne = record {
    type = outside16 (64 * j) (omega arith);
    major = outside16 (64 * j + 2) (omega arith);
    minor = outside16 (64 * j + 4) (omega arith);
    linkcnt = outside16 (64 * j + 6) (omega arith);
    size = outside32 (64 * j + 8) (omega arith);
    ptrs = λ i h. outside32 (64 * j + 12 + 4 * i) (omega arith);
  }
    where
      outside16 :
          (o : ℕ)
          → (o + 2 ≤ 64 * k) ⊎ (64 * k + 64 ≤ o)
          → get_u16 (splice b (64 * k) 64 (dinode_byte d)) o ≡ get_u16 b o
      outside16 = get_u16-splice_outside b (dinode_byte d) (64 * k) 64

      outside32 :
          (o : ℕ)
          → (o + 4 ≤ 64 * k) ⊎ (64 * k + 64 ≤ o)
          → get_u32 (splice b (64 * k) 64 (dinode_byte d)) o ≡ get_u32 b o
      outside32 = get_u32-splice_outside b (dinode_byte d) (64 * k) 64
