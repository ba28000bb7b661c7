-- ===== src/Mkfs/RoundTrip/Tests.antt =====
-- A file of two bytes that is copied in and out by its path.
use model_lib.Base.{
  ℕ, zero, suc, ◌+◌, ◌-◌, ◌/◌, ◌<◌, ◌≤◌, ◌≡◌, ◌≢◌, refl, arith, ap, ◌==◌, true, some, Bool-cases,
  inl, inr, List, [], ◌∷◌, get_or,
}
use mathlib.Core.Path.{subst}
use model_lib.Fs.State.{Fs, ok}
use model_lib.Fs.Bitmap.Alloc.{bit_at}
use model_lib.Fs.Bitmap.Fresh.{bitmap}
use model_lib.Fs.Inode.Access.{inode_at}
use model_lib.Fs.Rw.View.{file_block}
use model_lib.Fs.Rw.Grows.{Used}
use model_lib.Fs.Dir.Samples.{two_entries, names, two_entries-Mounted, two_entries-AllBytes}
use model_lib.Fs.Path.Samples.{inode, file_lem, trees, parent, spare}
use model_lib.Fs.Path.Names.{name_end, name_char}
use model_lib.Text.Compare.{chars_end, chars_next}
use model_lib.Mkfs.{Host, set_file, do_migrate, do_retrieve}
use model_lib.Mkfs.RoundTrip.{do_migrate-do_retrieve}
use model_lib.Mkfs.RoundTrip.Root.{Ready}

abbrev text : List ℕ
text = 104 ∷ 105 ∷ []

-- The host has a file of one name.
abbrev host : Host
host = record { files = λ name. some text; may_create = λ name. true; printed = [] }

set : (j : ℕ) → j < 4 → bit_at (bitmap two_entries) j ≡ 1
set zero h = refl
set (suc zero) h = refl
set (suc (suc zero)) h = refl
set (suc (suc (suc zero))) h = refl
set (suc (suc (suc (suc j)))) h = absurd (omega arith)

high_bits : (i : ℕ) → i < 4 → bit_at (bitmap two_entries) (i + 4) ≡ 0
high_bits zero h = refl
high_bits (suc zero) h = refl
high_bits (suc (suc zero)) h = refl
high_bits (suc (suc (suc zero))) h = refl
high_bits (suc (suc (suc (suc i)))) h = absurd (omega arith)

clear : (j : ℕ) → 4 ≤ j → j < 14 → bit_at (bitmap two_entries) j ≡ 0
clear j lo hi = elim (Bool-cases (j / 8 == 0)) [
  | inl first ↦
      let at : j - 4 + 4 ≡ j = omega arith in
      subst (λ i. bit_at (bitmap two_entries) i ≡ 0) at (high_bits (j - 4) (ground arith))
  | inr rest ↦ rw rest (omega arith)
]

root_block : Used two_entries 60
root_block = record { low = omega arith; set = refl }

used :
    (b : ℕ)
    → b < 16650
    → file_block two_entries (inode_at two_entries 1) b ≢ 0
    → Used two_entries (file_block two_entries (inode_at two_entries 1) b)
used b h = rw (file_lem b h) (elim (Bool-cases (b == 0)) [
  | inl first ↦ rw first (λ ne. root_block)
  | inr other ↦ rw other (λ ne. absurd (ne refl))
])

ready : Ready two_entries names 2 2 4
ready = record {
  parent = parent;
  spare = spare;
  inodes = λ j h. (omega arith, omega arith);
  bitmap_high = omega arith;
  no_wrap = omega arith;
  covered = omega arith;
  enough = omega arith;
  set = set;
  clear = clear;
  used = used;
  pointers = λ i hi. rw (inode.ptrs i hi) (trees _ i hi);
}

first_char : List ℕ → ℕ
first_char s = get_or s 0 0

fresh : (j : ℕ) → j < 2 → names j ≢ (100 ∷ [])
unfolding first_char
fresh zero h e = let same : ◌≡◌ {A = ℕ} 97 100 = ap first_char e in absurd (omega arith)
fresh (suc j) h e = let same : ◌≡◌ {A = ℕ} 99 100 = ap first_char e in absurd (omega arith)

text-bytes : (i : ℕ) → get_or text i 0 < 256
text-bytes zero = omega arith
text-bytes (suc zero) = omega arith
text-bytes (suc (suc i)) = omega arith

-- `migrate a /d`, and `retrieve /d b`.
do_migrate-do_retrieve_example :
    (t : Fs) × (do_migrate (32 ∷ 97 ∷ 32 ∷ 47 ∷ 100 ∷ 0 ∷ []) host two_entries ≡ ok host t)
    × (do_retrieve 3 (32 ∷ 47 ∷ 100 ∷ 32 ∷ 98 ∷ 0 ∷ []) host t
        ≡ ok (set_file host (98 ∷ []) text) t)
do_migrate-do_retrieve_example =
    do_migrate-do_retrieve two_entries host (97 ∷ []) (100 ∷ []) (98 ∷ []) text names 2 2 4
      two_entries-Mounted two_entries-AllBytes ready
      (chars_next (omega arith) (omega arith) chars_end)
      (name_char (omega arith) (omega arith) name_end) (omega arith) (omega arith) fresh refl
      text-bytes (omega arith) (refl, tt) (refl, (refl, tt)) (refl, tt) refl
