-- ===== src/Fs/Rw/Direct.antt =====
-- The block map of a file without indirect blocks.
use model_lib.Base.{
  ℕ, zero, suc, ◌+◌, ◌-◌, ◌/◌, ◌%◌, ◌≤◌, ◌<◌, ◌≡◌, refl, arith, ltb, if◌then◌else◌, Bool-cases, inl,
  inr,
}
use model_lib.Fs.Layout.{Dinode}
use model_lib.Fs.State.{Fs}
use model_lib.Fs.Inode.{get_ilevel}
use model_lib.Fs.Rw.View.{file_block, block_of_zero}
use model_lib.Fs.Rw.Kept.{Pointers, InodePointers}

-- A file without indirect blocks.
module _ (t : Fs) (d : Dinode) (far : (i : ℕ) → 10 ≤ i → i < 13 → d.ptrs i ≡ 0) where
  pub file_block-direct :
      (j : ℕ) → j < 16650 → file_block t d j ≡ (if ltb j 10 then d.ptrs j else 0)
  unfolding file_block
  file_block-direct j h = elim (Bool-cases (ltb j 10)) [
    | inl direct ↦ rw direct refl
    | inr behind ↦ elim (Bool-cases (ltb j 266)) [
      | inl single ↦
          let null : d.ptrs (10 + (j - 10) / 128) ≡ 0 = far _ (omega arith) (ground arith) in
          rw (behind, single, null) (block_of_zero t 1 ((j - 10) % 128))
      | inr double ↦
          let null : d.ptrs 12 ≡ 0 = far 12 (omega arith) (omega arith) in
          rw (behind, double, null) (block_of_zero t 2 (j - 266))
    ]
  ]

  null-Pointers : (P : ℕ → Type 0) (l : ℕ) → Pointers t P l 0
  unfolding Pointers
  null-Pointers P zero = tt
  null-Pointers P (suc l) = λ ne. absurd (ne refl)

  pub pointers-direct : (P : ℕ → Type 0) → InodePointers t P d
  pointers-direct P i h = elim (Bool-cases (ltb i 10)) [
    | inl direct ↦
        let level : get_ilevel i ≡ 0 = unfold get_ilevel in rw direct refl in
        rw level (unfold Pointers in tt)
    | inr behind ↦ rw (far i (ground arith) h) (null-Pointers P (get_ilevel i))
  ]
