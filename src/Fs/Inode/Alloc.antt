-- ===== src/Fs/Inode/Alloc.antt =====
-- `alloc_inode`: the first free inode is cleared and given its type, and no other changes.
use model_lib.Base.{
  ℕ, zero, suc, ◌+◌, ◌*◌, ◌/◌, ◌%◌, ◌^◌, ◌≤◌, ◌<◌, ◌≡◌, ◌≢◌, ◌⊎◌, refl, false, ◌==◌, ltb, u32,
  arith, inl, inr, Option, none, some, Bool-cases, Option-cases, ltb→lt, ==_iff, sym,
}
use mathlib.Core.Path.{subst}
use model_lib.Fs.Layout.{Block, get_inode, null_inum, t_dev}
use model_lib.Fs.State.{Fs, Run, ok}
use model_lib.Fs.Inode.{
  inode_block, first_free, new_inode, take_inode, alloc_inode_loop, alloc_inode,
}
use model_lib.Fs.Inode.Access.{inode_at, with_inode}

-- What the inner loop finds among `rounds` inodes of a block from `j` on.
abbrev FirstFree : Block → ℕ → ℕ → Option ℕ → Type 0
FirstFree b j rounds none = (x : ℕ) → j ≤ x → x < j + rounds → (get_inode b x).type ≢ 0
FirstFree b j rounds (some k) =
    (j ≤ k)
    × (k < j + rounds)
    × ((get_inode b k).type ≡ 0)
    × ((x : ℕ) → j ≤ x → x < k → (get_inode b x).type ≢ 0)

FirstFree-step :
    (b : Block) (j rounds : ℕ) (r : Option ℕ)
    → (get_inode b j).type ≢ 0
    → FirstFree b (j + 1) rounds r
    → FirstFree b j (suc rounds) r
FirstFree-step b j rounds none ne h = λ x lo hi. elim (Bool-cases (x == j)) [
  | inl here ↦ let e : x ≡ j = (==_iff _ _).0 here in rw e ne
  | inr away ↦ h x (ground arith) (omega arith)
]
FirstFree-step b j rounds (some k) ne (a, c, z, h) = (
  omega arith,
  omega arith,
  z,
  λ x lo hi. elim (Bool-cases (x == j)) [
    | inl here ↦ let e : x ≡ j = (==_iff _ _).0 here in rw e ne
    | inr away ↦ h x (ground arith) hi
  ],
)

first_free-FirstFree : (b : Block) (rounds j : ℕ) → FirstFree b j rounds (first_free rounds b j)
unfolding first_free
first_free-FirstFree b zero j = λ x lo hi. absurd (omega arith)
first_free-FirstFree b (suc rounds) j = elim (Bool-cases ((get_inode b j).type == 0)) [
  | inl free ↦
      rw free (omega arith, omega arith, (==_iff _ _).0 free, λ x lo hi. absurd (omega arith))
  | inr used ↦ rw used (
      FirstFree-step b j rounds (first_free rounds b (j + 1)) (ground arith)
        (first_free-FirstFree b rounds (j + 1)))
]

-- Inode `n` was the first with type 0, and is now empty but for its type.
pub record NewInode (s : Fs) (type n : ℕ) (r : Run ℕ) : Type 0 where
  pub in_range : n < s.su.nblock_inode * 8
  pub free : (inode_at s n).type ≡ 0
  pub least : (j : ℕ) → j < n → (inode_at s j).type ≢ 0
  pub result : r ≡ ok (u32 n) (with_inode s n (new_inode type))

-- Every inode is in use, and nothing changes.
pub record OutOfInodes (s : Fs) (r : Run ℕ) : Type 0 where
  pub used : (j : ℕ) → j < s.su.nblock_inode * 8 → (inode_at s j).type ≢ 0
  pub result : r ≡ ok null_inum s

module _ (s : Fs) (type : ℕ) where
  abbrev pub Outcome : Run ℕ → Type 0
  Outcome r = ((n : ℕ) × NewInode s type n r) ⊎ OutOfInodes s r

  -- What holds of the type of inode `k` of block `i` holds of that inode.
  in_block :
      (P : ℕ → Type 0) (i k x : ℕ)
      → x / 8 ≡ i
      → x % 8 ≡ k
      → P (get_inode (s.disk (u32 (i + s.su.sinode))) k).type
      → P (inode_at s x).type
  in_block P i k x q r h =
      let at : u32 (i + s.su.sinode) ≡ inode_block s x = omega arith in
      subst (λ n. P (get_inode (s.disk n) (x % 8)).type) at
        (subst (λ j. P (get_inode (s.disk (u32 (i + s.su.sinode))) j).type) (sym r) h)

  alloc_inode_loop-Outcome :
      (rounds i : ℕ)
      → rounds + i ≡ s.su.nblock_inode
      → ((j : ℕ) → j < i * 8 → (inode_at s j).type ≢ 0)
      → Outcome (alloc_inode_loop rounds type i s)
  unfolding alloc_inode_loop take_inode
  alloc_inode_loop-Outcome zero i e below =
      inr (record { used = λ j h. below j (omega arith); result = refl })
  alloc_inode_loop-Outcome (suc rounds) i e below = elim (Option-cases (first_free 8 b 0)) [
    | inl missing ↦
        let full : FirstFree b 0 8 none = rw missing at (first_free-FirstFree b 8 0) in
        rw missing (alloc_inode_loop-Outcome rounds (i + 1) (omega arith) (next full))
    | inr (k, found) ↦
        let (_, hi, free, least) : FirstFree b 0 8 (some k) =
          rw found at (first_free-FirstFree b 8 0) in
        let at : inode_block s (i * 8 + k) ≡ u32 (i + s.su.sinode) = omega arith in
        let rem : (i * 8 + k) % 8 ≡ k = omega arith in
        rw found (
          inl (
            i * 8 + k,
            record {
              in_range = omega arith;
              free = in_block (λ t. t ≡ 0) i k (i * 8 + k) (omega arith) rem free;
              least = λ j h. elim (Bool-cases (ltb j (i * 8))) [
                | inl lo ↦ below j (ltb→lt _ _ lo)
                | inr hi ↦
                    let q : j / 8 ≡ i = ground arith in
                    in_block (λ t. t ≢ 0) i (j % 8) j q refl
                      (least (j % 8) (omega arith) (ground arith))
              ];
              result = rw (at, rem);
            },
          ))
  ]
    where
      b : Block
      b = s.disk (u32 (i + s.su.sinode))

      next : FirstFree b 0 8 none → (j : ℕ) → j < (i + 1) * 8 → (inode_at s j).type ≢ 0
      next full j h = elim (Bool-cases (ltb j (i * 8))) [
        | inl lo ↦ below j (ltb→lt _ _ lo)
        | inr hi ↦
            let q : j / 8 ≡ i = ground arith in
            in_block (λ t. t ≢ 0) i (j % 8) j q refl (full (j % 8) (omega arith) (omega arith))
      ]

-- `alloc_inode` of a valid type returns. It takes the first inode with type 0, returns its number
-- modulo 2^32, and leaves there an inode of the given type that is empty otherwise, changing nothing
-- else; or all inodes are in use, it returns 0 and changes nothing.
pub alloc_inode-Outcome : (s : Fs) (type : ℕ) → type ≤ t_dev → Outcome s type (alloc_inode type s)
unfolding alloc_inode
alloc_inode-Outcome s type h =
    let valid : ltb t_dev type ≡ false = ground arith in
    rw valid (
      alloc_inode_loop-Outcome s type s.su.nblock_inode 0 (omega arith)
        (λ j h. absurd (omega arith)))

-- The number is determined: it is that of the first free inode.
pub alloc_inode-first :
    (s : Fs) (type k : ℕ)
    → type ≤ t_dev
    → k < s.su.nblock_inode * 8
    → k < 2 ^ 32
    → (inode_at s k).type ≡ 0
    → ((j : ℕ) → j < k → (inode_at s j).type ≢ 0)
    → alloc_inode type s ≡ ok k (with_inode s k (new_inode type))
alloc_inode-first s type k h hk small free below = elim (alloc_inode-Outcome s type h) [
  | inl (n, new) ↦ elim (Bool-cases (ltb n k)) [
    | inl lo ↦ absurd (below n (ltb→lt _ _ lo) new.free)
    | inr hi ↦ elim (Bool-cases (ltb k n)) [
      | inl lo ↦ absurd (new.least k (ltb→lt _ _ lo) free)
      | inr hi' ↦
          let e : n ≡ k = ground arith in
          let narrow : u32 k ≡ k = omega arith in
          let r : alloc_inode type s ≡ ok (u32 k) (with_inode s k (new_inode type)) =
            subst (λ m. alloc_inode type s ≡ ok (u32 m) (with_inode s m (new_inode type))) e
              new.result in
          rw narrow at r
    ]
  ]
  | inr out ↦ absurd (out.used k hk free)
]
