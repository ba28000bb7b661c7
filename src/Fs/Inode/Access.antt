-- ===== src/Fs/Inode/Access.antt =====
-- `read_inode` and `write_inode`: an inode that is written is read back, and no other changes.
use model_lib.Base.{
  ℕ, ◌+◌, ◌/◌, ◌%◌, ◌^◌, ◌≤◌, ◌<◌, ◌≡◌, ◌≢◌, ◌⊎◌, refl, true, false, ◌==◌, update, if◌then◌else◌,
  arith, inl, inr, ◌∙◌, Option, none, some, Bool-cases, ==_iff, ==_refl, sym,
}
use mathlib.Core.Path.{subst}
use model_lib.Fs.Layout.{Dinode, get_inode, put_inode}
use model_lib.Fs.Layout.Views.{SameInode, Fits, get_inode-put_inode_self, get_inode-put_inode_ne}
use model_lib.Fs.State.{Fs, ok}
use model_lib.Fs.Inode.{inode_block, rw_inode, read_inode, write_inode, fs_geti}

-- The inode that the disk holds under number `n`.
abbrev pub inode_at : Fs → ℕ → Dinode
inode_at s n = get_inode (s.disk (inode_block s n)) (n % 8)

-- The file system is mounted, and the numbers of its inode blocks do not wrap.
pub record Mounted (s : Fs) : Type 0 where
  pub init : s.init ≡ true
  pub no_wrap : s.su.sinode + s.su.ninodes / 8 < 2 ^ 32

abbrev pub with_inode : Fs → ℕ → Dinode → Fs
with_inode s n d = record s {
  disk = update s.disk (inode_block s n) (put_inode (s.disk (inode_block s n)) (n % 8) d);
}

module _ {s : Fs} (m : Mounted s) where
  pub read_inode-ok : (n : ℕ) → n < s.su.ninodes → read_inode n s ≡ ok (some (inode_at s n)) s
  unfolding read_inode rw_inode
  read_inode-ok n h = ground arith

  pub write_inode-ok :
      (n : ℕ) (d : Dinode)
      → n < s.su.ninodes
      → write_inode n d s ≡ ok (some (inode_at (with_inode s n d) n)) (with_inode s n d)
  unfolding write_inode rw_inode
  write_inode-ok n d h = ground arith

pub fs_geti-ok :
    {s : Fs} → Mounted s → (n : ℕ) → n < s.su.ninodes → fs_geti n s ≡ ok (some (inode_at s n)) s
unfolding fs_geti
fs_geti-ok m n h = read_inode-ok m n h

pub read_inode-none :
    (n : ℕ) (s : Fs) → (s.init ≡ false) ⊎ (s.su.ninodes ≤ n) → read_inode n s ≡ ok none s
unfolding read_inode rw_inode
read_inode-none n s h = ground arith

pub SameInode-refl : (d : Dinode) → SameInode d d
SameInode-refl d = record {
  type = refl;
  major = refl;
  minor = refl;
  linkcnt = refl;
  size = refl;
  ptrs = λ i h. refl;
}

pub SameInode-trans : {c d e : Dinode} → SameInode c d → SameInode d e → SameInode c e
SameInode-trans p q = record {
  type = p.type ∙ q.type;
  major = p.major ∙ q.major;
  minor = p.minor ∙ q.minor;
  linkcnt = p.linkcnt ∙ q.linkcnt;
  size = p.size ∙ q.size;
  ptrs = λ i h. p.ptrs i h ∙ q.ptrs i h;
}

module _ (s : Fs) (n : ℕ) (d : Dinode) where
  pub inode_at-with_self : Fits d → SameInode (inode_at (with_inode s n d) n) d
  inode_at-with_self f =
      rw (==_refl (inode_block s n))
        (get_inode-put_inode_self (s.disk (inode_block s n)) (n % 8) d f)

  pub inode_at-with_ne :
      (j : ℕ)
      → s.su.sinode + s.su.ninodes / 8 < 2 ^ 32
      → n < s.su.ninodes
      → j < s.su.ninodes
      → j ≢ n
      → SameInode (inode_at (with_inode s n d) j) (inode_at s j)
  inode_at-with_ne j wrap hn hj ne = elim (Bool-cases (inode_block s j == inode_block s n)) [
    | inl same ↦
        let e : inode_block s j ≡ inode_block s n = (==_iff _ _).0 same in
        rw same (
          subst
            (λ x.
              SameInode (get_inode (put_inode (s.disk (inode_block s n)) (n % 8) d) (j % 8))
                (get_inode (s.disk x) (j % 8)))
            (sym e)
            (get_inode-put_inode_ne (s.disk (inode_block s n)) (n % 8) d (j % 8) (omega arith)))
    | inr other ↦ rw other (SameInode-refl (inode_at s j))
  ]

-- On a mounted file system `write_inode` of an inode whose fields fit their widths succeeds, and `read_inode` then gives that
-- inode back under its number, and every other inode as it was before.
pub write_inode-read_inode :
    (s : Fs) (n : ℕ) (d : Dinode)
    → Mounted s
    → Fits d
    → n < s.su.ninodes
    → (t : Fs) × (r : Option Dinode) × (write_inode n d s ≡ ok r t)
      × ((j : ℕ)
          → j < s.su.ninodes
          → (e : Dinode) × (read_inode j t ≡ ok (some e) t)
            × SameInode e (if j == n then d else inode_at s j))
write_inode-read_inode s n d m f hn = (
  with_inode s n d,
  some (inode_at (with_inode s n d) n),
  write_inode-ok m n d hn,
  λ j hj. (inode_at (with_inode s n d) j, read_inode-ok kept j hj, agrees j hj),
)
  where
    kept : Mounted (with_inode s n d)
    kept = record { init = m.init; no_wrap = m.no_wrap }

    agrees :
        (j : ℕ)
        → j < s.su.ninodes
        → SameInode (inode_at (with_inode s n d) j) (if j == n then d else inode_at s j)
    agrees j hj = elim (Bool-cases (j == n)) [
      | inl hit ↦
          let e : j ≡ n = (==_iff _ _).0 hit in
          rw hit (
            subst (λ x. SameInode (inode_at (with_inode s n d) x) d) (sym e)
              (inode_at-with_self s n d f))
      | inr miss ↦
          let ne : j ≢ n = ground arith in rw miss (inode_at-with_ne s n d j m.no_wrap hn hj ne)
    ]
