-- ===== src/Fs/Rw/Kept.antt =====
-- The block map of a file depends on its inode's pointers and on its blocks of pointers only.
use model_lib.Base.{
  ℕ, zero, suc, ◌+◌, ◌-◌, ◌*◌, ◌/◌, ◌%◌, ◌≤◌, ◌<◌, ◌≡◌, ◌≢◌, inl, inr, refl, arith, ◌==◌, ltb,
  Bool-cases,
}
use model_lib.Fs.Layout.{Dinode, get_u32}
use model_lib.Fs.State.{Fs}
use model_lib.Fs.Inode.{get_ilevel}
use model_lib.Fs.Rw.{span}
use model_lib.Fs.Rw.View.{block_of, file_block}

-- `P` holds of every block of pointers below `p`, and of `p` if it is one. A null pointer has none.
unfoldable pub Pointers : Fs → (ℕ → Type 0) → ℕ → ℕ → Type 0
Pointers s P zero p = Unit {0}
Pointers s P (suc l) p =
    p ≢ 0 → P p × ((j : ℕ) → j < 128 → Pointers s P l (get_u32 (s.disk p) (4 * j)))

-- `P` holds of every block of pointers of an inode.
abbrev pub InodePointers : Fs → (ℕ → Type 0) → Dinode → Type 0
InodePointers s P di = (i : ℕ) → i < 13 → Pointers s P (get_ilevel i) (di.ptrs i)

span_index : (l k : ℕ) → l < 2 → k < span (suc l) → (k / span l < 128) × (k % span l < span l)
unfolding span
span_index zero k h hk = omega arith
span_index (suc zero) k h hk = omega arith
span_index (suc (suc l)) k h hk = absurd (omega arith)

module _ (s u : Fs) (P : ℕ → Type 0) (kept : (m : ℕ) → P m → u.disk m ≡ s.disk m) where
  block_of-kept :
      (l p k : ℕ) → l ≤ 2 → k < span l → Pointers s P l p → block_of u l p k ≡ block_of s l p k
  unfolding block_of Pointers
  block_of-kept zero p k hl hk ps = refl
  block_of-kept (suc l) p k hl hk ps = elim (Bool-cases (p == 0)) [
    | inl null ↦ rw null
    | inr there ↦
        let (here, below) = ps (ground arith) in
        let (index, rest) = span_index l k (omega arith) hk in
        rw (there, kept p here)
          (block_of-kept l (get_u32 (s.disk p) (4 * (k / span l))) (k % span l) (omega arith) rest
            (below (k / span l) index))
  ]

  pub file_block-kept :
      (di : Dinode) (n : ℕ)
      → n < 16650
      → InodePointers s P di
      → file_block u di n ≡ file_block s di n
  unfolding file_block
  file_block-kept di n h ps = elim (Bool-cases (ltb n 10)) [
    | inl direct ↦ rw direct
    | inr far ↦ elim (Bool-cases (ltb n 266)) [
      | inl single ↦
          let i : ℕ = 10 + (n - 10) / 128 in
          let level : get_ilevel (10 + (n - 10) / 128) ≡ 1 = unfold get_ilevel in ground arith in
          let p : Pointers s P 1 (di.ptrs (10 + (n - 10) / 128)) =
            rw level at (ps (10 + (n - 10) / 128) (ground arith)) in
          rw (far, single)
            (block_of-kept 1 (di.ptrs (10 + (n - 10) / 128)) ((n - 10) % 128) (omega arith)
              (unfold span in omega arith) p)
      | inr double ↦
          let level : get_ilevel 12 ≡ 2 = unfold get_ilevel in refl in
          let p : Pointers s P 2 (di.ptrs 12) = rw level at (ps 12 (omega arith)) in
          rw (far, double)
            (block_of-kept 2 (di.ptrs 12) (n - 266) (omega arith) (unfold span in ground arith) p)
    ]
  ]

pub file_block-ptrs :
    (s : Fs) (di dj : Dinode) (n : ℕ)
    → n < 16650
    → ((i : ℕ) → i < 13 → di.ptrs i ≡ dj.ptrs i)
    → file_block s di n ≡ file_block s dj n
unfolding file_block
file_block-ptrs s di dj n h same = elim (Bool-cases (ltb n 10)) [
  | inl direct ↦ rw direct (same n (ground arith))
  | inr far ↦ elim (Bool-cases (ltb n 266)) [
    | inl single ↦ rw (far, single, same (10 + (n - 10) / 128) (ground arith))
    | inr double ↦ rw (far, double, same 12 (omega arith))
  ]
]

module _ (s u : Fs) (P Q : ℕ → Type 0) (turn : (p : ℕ) → P p → Q p × (u.disk p ≡ s.disk p)) where
  pub Pointers-turned : (l p : ℕ) → Pointers s P l p → Pointers u Q l p
  unfolding Pointers
  Pointers-turned zero p ps = tt
  Pointers-turned (suc l) p ps = λ ne.
      let (here, below) = ps ne in
      let (holds, same) = turn p here in
      (holds, λ j h. rw same (Pointers-turned l (get_u32 (s.disk p) (4 * j)) (below j h)))

  -- On a disk with the same blocks of pointers, and for an inode with the same pointers.
  pub InodePointers-turned :
      (di dj : Dinode)
      → ((i : ℕ) → i < 13 → dj.ptrs i ≡ di.ptrs i)
      → InodePointers s P di
      → InodePointers u Q dj
  InodePointers-turned di dj same ps i h =
      rw (same i h) (Pointers-turned (get_ilevel i) (di.ptrs i) (ps i h))
