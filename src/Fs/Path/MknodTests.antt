-- ===== src/Fs/Path/MknodTests.antt =====
-- A run of `fs_mknod` in a directory of two entries.
use model_lib.Base.{ℕ, zero, suc, ◌<◌, ◌≡◌, ◌≢◌, refl, arith, some, ap, get_or, List, [], ◌∷◌}
use model_lib.Fs.Layout.{t_reg}
use model_lib.Fs.State.{Fs, ok}
use model_lib.Fs.Dir.{dir_lookup}
use model_lib.Fs.Dir.Samples.{two_entries, names, two_entries-Mounted, two_entries-AllBytes}
use model_lib.Text.{strnlen}
use model_lib.Text.Compare.{chars_end, chars_next}
use model_lib.Fs.Path.{fs_lookup, fs_mknod}
use model_lib.Fs.Path.Names.{names_end, name_end, name_char, walk, fs_lookup-walk}
use model_lib.Fs.Path.Made.{Linked}
use model_lib.Fs.Path.Mknod.{fs_mknod-Linked}
use model_lib.Fs.Path.Samples.{parent, spare}

root : fs_lookup (47 ∷ 0 ∷ []) two_entries ≡ ok 1 two_entries
unfolding strnlen walk
root = fs_lookup-walk [] two_entries 1 names_end refl (omega arith)

first_char : List ℕ → ℕ
first_char s = get_or s 0 0

fresh : (j : ℕ) → j < 2 → names j ≢ (100 ∷ [])
unfolding first_char
fresh zero h e = let same : ◌≡◌ {A = ℕ} 97 100 = ap first_char e in absurd (omega arith)
fresh (suc j) h e = let same : ◌≡◌ {A = ℕ} 99 100 = ap first_char e in absurd (omega arith)

-- The path `/d`.
fs_mknod-Linked_example :
    (u : Fs) × (fs_mknod (47 ∷ 100 ∷ 0 ∷ []) t_reg two_entries ≡ ok 2 u)
    × Linked two_entries 1 names 2 (100 ∷ []) t_reg 2 u
    × (dir_lookup 1 (100 ∷ 0 ∷ []) u ≡ ok (2, some 32) u)
fs_mknod-Linked_example =
    fs_mknod-Linked two_entries [] (100 ∷ []) 1 names 2 t_reg 2 two_entries-Mounted
      two_entries-AllBytes parent spare (omega arith) chars_end
      (chars_next (omega arith) (omega arith) chars_end)
      (name_char (omega arith) (omega arith) name_end) (omega arith) (omega arith) (omega arith)
      root (omega arith) fresh
