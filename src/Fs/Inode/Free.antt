-- ===== src/Fs/Inode/Free.antt =====
-- `free_inode`: what it does to a file with no data block, and to one with an allocated direct block.
use model_lib.Base.{
  some, ℕ, zero, suc, ◌+◌, ◌≤◌, ◌<◌, ◌≡◌, ◌≢◌, refl, arith, ◌∙◌, true, false, ◌==◌, ltb,
}
use model_lib.Fs.Layout.{Dinode, nptrs}
use model_lib.Fs.State.{Fs, ok, panicked, Cmd}
use model_lib.Fs.Bitmap.{bitmap_free}
use model_lib.Fs.Inode.{each_ptr, free_indirect, free_inode, free_inode_at, get_ilevel}
use model_lib.Fs.Inode.Access.{inode_at, with_inode, Mounted, read_inode-ok, write_inode-ok}

module _ (ptrs : ℕ → ℕ) (f : ℕ → ℕ → Cmd (Unit {0})) (s : Fs) where
  -- Null pointers are passed over.
  each_ptr-null :
      (rounds i : ℕ)
      → ((j : ℕ) → i ≤ j → j < i + rounds → ptrs j ≡ 0)
      → each_ptr rounds ptrs f i s ≡ ok tt s
  unfolding each_ptr
  each_ptr-null zero i null = refl
  each_ptr-null (suc rounds) i null =
      rw (null i (omega arith) (omega arith))
        (each_ptr-null rounds (i + 1) (λ j lo hi. null j (omega arith) (omega arith)))

  -- The first pointer that is not null decides where its call panics.
  each_ptr-panicked :
      (rounds i k : ℕ)
      → k < rounds
      → ((j : ℕ) → i ≤ j → j < i + k → ptrs j ≡ 0)
      → (ptrs (i + k) == 0) ≡ false
      → f (ptrs (i + k)) (i + k) s ≡ panicked
      → each_ptr rounds ptrs f i s ≡ panicked
  unfolding each_ptr
  each_ptr-panicked zero i k h null here bad = absurd (omega arith)
  each_ptr-panicked (suc rounds) i zero h null here bad =
      let e : i + 0 ≡ i = omega arith in rw (rw e at here, rw e at bad)
  each_ptr-panicked (suc rounds) i (suc k) h null here bad =
      let e : i + 1 + k ≡ i + suc k = omega arith in
      rw (null i (omega arith) (omega arith)) (
        each_ptr-panicked rounds (i + 1) k (omega arith)
          (λ j lo hi. null j (omega arith) (omega arith)) (rw e here) (rw e bad))

-- `assert(bitmap_free(n))` fails exactly where `bitmap_free` frees.
free_indirect-panicked :
    (n : ℕ) (s t : Fs) → bitmap_free n s ≡ ok true t → free_indirect 0 n s ≡ panicked
unfolding free_indirect
free_indirect-panicked n s t h = rw h

free_inode-at :
    (s : Fs) (n : ℕ)
    → Mounted s
    → n < s.su.ninodes
    → free_inode n s ≡ free_inode_at n (some (inode_at s n)) s
unfolding free_inode
free_inode-at s n m h = simp m.init (rw (read_inode-ok m n h) refl)

free_inode_at-empty :
    (s : Fs) (n : ℕ)
    → Mounted s
    → n < s.su.ninodes
    → ((i : ℕ) → i < nptrs → (inode_at s n).ptrs i ≡ 0)
    → free_inode_at n (some (inode_at s n)) s
      ≡ ok true (with_inode s n (record (inode_at s n) { type = 0 }))
unfolding free_inode_at
free_inode_at-empty s n m h null =
    rw
      (
        each_ptr-null (inode_at s n).ptrs _ s 13 0 (λ j lo hi. null j (omega arith)),
        write_inode-ok m n (record (inode_at s n) { type = 0 }) h,
      )
      refl

-- On a mounted file system `free_inode` of an inode in range whose pointers are all null returns 0, sets its type to 0 and changes
-- nothing else.
pub free_inode-empty :
    (s : Fs) (n : ℕ)
    → Mounted s
    → n < s.su.ninodes
    → ((i : ℕ) → i < nptrs → (inode_at s n).ptrs i ≡ 0)
    → free_inode n s ≡ ok true (with_inode s n (record (inode_at s n) { type = 0 }))
free_inode-empty s n m h null = free_inode-at s n m h ∙ free_inode_at-empty s n m h null

free_inode_at-panicked :
    (s : Fs) (n i : ℕ) (t : Fs) (d : Dinode)
    → i < 10
    → ((j : ℕ) → j < i → d.ptrs j ≡ 0)
    → (d.ptrs i == 0) ≡ false
    → bitmap_free (d.ptrs i) s ≡ ok true t
    → free_inode_at n (some d) s ≡ panicked
unfolding free_inode_at get_ilevel
free_inode_at-panicked s n i t d small null here freed =
    let direct : ltb i 10 ≡ true = ground arith in
    let at : 0 + i ≡ i = omega arith in
    rw
      (each_ptr-panicked d.ptrs (λ m k. free_indirect (get_ilevel k) m) s 13 0 i (omega arith)
        (λ j lo hi. null j (omega arith)) (rw at here)
        (rw (at, direct) (free_indirect-panicked (d.ptrs i) s t freed)))
      refl

-- On a mounted file system `free_inode` of an inode in range never returns if its first pointer that is not null is a direct one, and
-- `bitmap_free` would free that block.
pub free_inode-panicked :
    (s : Fs) (n i : ℕ) (t : Fs)
    → Mounted s
    → n < s.su.ninodes
    → i < 10
    → ((j : ℕ) → j < i → (inode_at s n).ptrs j ≡ 0)
    → (inode_at s n).ptrs i ≢ 0
    → bitmap_free ((inode_at s n).ptrs i) s ≡ ok true t
    → free_inode n s ≡ panicked
free_inode-panicked s n i t m h small null here freed =
    free_inode-at s n m h
    ∙ free_inode_at-panicked s n i t (inode_at s n) small null (ground arith) freed
