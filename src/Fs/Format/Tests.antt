-- ===== src/Fs/Format/Tests.antt =====
-- Formatting a partition of 500 sectors.
use model_lib.Base.{ℕ, ◌+◌, ◌≡◌, ◌≢◌, arith, true, inr}
use model_lib.Fs.Layout.{Partition, zeros, t_dir, get_super}
use model_lib.Fs.Layout.Views.{SameInode}
use model_lib.Fs.State.{Fs, ok}
use model_lib.Fs.Samples.{mounted}
use model_lib.Fs.Inode.{new_inode}
use model_lib.Fs.Inode.Access.{inode_at}
use model_lib.Fs.Format.{fs_format, fs_init, layout}
use model_lib.Fs.Format.Super.{Roomy}
use model_lib.Fs.Format.Mount.{fs_format-fs_init}
use model_lib.Fs.Format.Root.{Blank, InLoop, fs_format-root}

abbrev partition : Partition
partition = record { startlba = 63; nsectors = 500 }

abbrev partition-Roomy : Roomy partition
partition-Roomy = record { below = omega arith; room = omega arith }

-- The super block of a file system on the first 200 sectors is loaded, and no block is zeros.
abbrev used : Fs
used = record mounted { disk = λ _ i. 7 }

used-Blank : Blank partition used
used-Blank i h = inr (record { round = 63 + 31 + i; in_range = omega arith; at = omega arith })

fs_format-fs_init_example :
    (t : Fs) × (fs_format partition mounted ≡ ok true t)
    × (fs_init partition t ≡ ok true (record t { init = true }))
    × (t.su ≡ layout partition)
    × (get_super (t.disk 63) ≡ layout partition)
fs_format-fs_init_example = fs_format-fs_init partition mounted partition-Roomy

fs_format-root_example :
    (t : Fs) × (fs_format partition used ≡ ok true t)
    × SameInode (inode_at t 0) (new_inode t_dir)
    × SameInode (inode_at t 1) (new_inode t_dir)
    × ((m : ℕ) → m ≢ 63 → m ≢ 63 + 31 → InLoop used m → t.disk m ≡ zeros)
    × ((m : ℕ) → m ≢ 63 → m ≢ 63 + 31 → ¬ InLoop used m → t.disk m ≡ (λ i. 7))
fs_format-root_example = fs_format-root partition used partition-Roomy used-Blank
