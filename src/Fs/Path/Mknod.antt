-- ===== src/Fs/Path/Mknod.antt =====
-- `fs_mknod` makes a node that the directory then holds.
use model_lib.Base.{
  ℕ, ◌*◌, ◌<◌, ◌≤◌, ◌≡◌, ◌≢◌, refl, arith, ◌==◌, true, false, some, List, [], ◌∷◌, ◌++◌, length,
}
use model_lib.Fs.Layout.{t_dev}
use model_lib.Fs.State.{Fs, ok}
use model_lib.Fs.Inode.Access.{inode_at, Mounted, read_inode-ok}
use model_lib.Fs.Rw.Read.{AllBytes}
use model_lib.Fs.Dir.{dir_lookup}
use model_lib.Fs.Path.{mknod_in, mknod_named, fs_mknod, fs_lookup, slash}
use model_lib.Fs.Path.Linked.{Parent, Spare}
use model_lib.Fs.Path.Names.{NameChars}
use model_lib.Fs.Path.Getname.{getname-split}
use model_lib.Text.Compare.{Chars}
use model_lib.Fs.Path.Searched.{dir_lookup-absent, dir_lookup-entered}
use model_lib.Fs.Path.Made.{Linked, make_node-Linked}

-- `fs_mknod` of a path `q/name` and a type, on a mounted disk of bytes. The directory `q/` has room for
-- an entry in its last block, which belongs to one place of it only, and its blocks hold no inodes;
-- none of its entries has the name, of 1 to 13 characters, and inode `k`, which is not the null one, is
-- the first that is free. Then `fs_mknod` returns `k`. That inode is empty but for its type and one link. The directory has one entry
-- more, the others unchanged, and `dir_lookup` of the name in it gives `k` and the place of the new entry.
-- The directory's inode is as it was but for its size, and so is every other inode and every block that
-- holds no inodes and that the entry does not enter.
pub fs_mknod-Linked :
    (s : Fs) (q name : List ℕ) (n : ℕ) (names : ℕ → List ℕ) (count type k : ℕ)
    → Mounted s
    → AllBytes s
    → Parent s n names count
    → Spare s k
    → type ≤ t_dev
    → Chars q
    → Chars name
    → NameChars name
    → 1 ≤ length name
    → length name ≤ 13
    → length q < 63
    → fs_lookup ((q ++ (slash ∷ [])) ++ (0 ∷ [])) s ≡ ok n s
    → n ≢ 0
    → ((j : ℕ) → j < count → names j ≢ name)
    → (u : Fs) × (fs_mknod (q ++ (slash ∷ (name ++ (0 ∷ [])))) type s ≡ ok k u)
      × Linked s n names count name type k u
      × (dir_lookup n (name ++ (0 ∷ [])) u ≡ ok (k, some (16 * count)) u)
unfolding fs_mknod mknod_named mknod_in
fs_mknod-Linked s q name n names count type k m bytes p spare valid cq cn nc pos short small found
      ne fresh =
    let (u, run, l) = make_node-Linked s n names count type k m bytes p spare valid name cn short in
    let there : (n == 0) ≡ false = ground arith in
    let directory : ((inode_at s n).type == 2) ≡ true =
      let e : (inode_at s n).type ≡ 2 = p.dir.type in ground arith in
    let absent =
      dir_lookup-absent s n names name m bytes p.dir cn (λ j h. fresh j (omega (arith, p.whole))) in
    (
      u,
      rw
          (
            getname-split q name s cq cn nc pos short small,
            found,
            there,
            read_inode-ok m n p.dir.in_range,
            directory,
            absent,
            run,
          )
          refl,
      l,
      dir_lookup-entered u n names count name k l.mounted l.bytes l.directory l.size l.new cn fresh,
    )
