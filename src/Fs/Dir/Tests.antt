-- ===== src/Fs/Dir/Tests.antt =====
-- Runs of `dir_lookup`.
use model_lib.Base.{arith, [], ◌∷◌}
use model_lib.Text.Compare.{chars_end, chars_next, terminated}
use model_lib.Fs.Dir.{dir_lookup}
use model_lib.Fs.Dir.Lookup.{Found, dir_lookup-Found}
use model_lib.Fs.Dir.Samples.{
  two_entries, names, two_entries-Mounted, two_entries-AllBytes, two_entries-Directory,
}

dir_lookup-Found_example :
    Found two_entries 1 names
      (99 ∷ [])
      two_entries-Mounted
      two_entries-AllBytes
      two_entries-Directory
      (chars_next (omega arith) (omega arith) chars_end)
      0
      (dir_lookup 1 (terminated (99 ∷ []) []) two_entries)
dir_lookup-Found_example =
    dir_lookup-Found two_entries 1 names (99 ∷ []) two_entries-Mounted two_entries-AllBytes
      two_entries-Directory (chars_next (omega arith) (omega arith) chars_end)
