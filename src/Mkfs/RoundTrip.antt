-- ===== src/Mkfs/RoundTrip.antt =====
-- `do_migrate` into the root directory and `do_retrieve` of the same path.
pub mod Root
mod Tests
use mathlib.Core.Path.{subst}
use model_lib.Base.{
  ℕ, zero, suc, ◌+◌, ◌*◌, ◌<◌, ◌≤◌, ◌≡◌, ◌≢◌, refl, arith, ap, sym, ◌∙◌, ◌==◌, true, false, none,
  some, List, [], ◌∷◌, ◌++◌, length, get_or,
}
use model_lib.Fs.Layout.{t_reg}
use model_lib.Fs.State.{Fs, ok}
use model_lib.Fs.Inode.Access.{inode_at, Mounted}
use model_lib.Fs.Rw.View.{content}
use model_lib.Fs.Rw.Read.{AllBytes}
use model_lib.Fs.Dir.{dir_lookup, field_bytes}
use model_lib.Fs.Dir.Lookup.{field_bytes-cong}
use model_lib.Fs.Path.{fs_lookup, fs_mknod}
use model_lib.Fs.Path.Names.{NameChars, IsName, names_end, names_next, walk, fs_lookup-walk}
use model_lib.Fs.Path.Searched.{dir_lookup-absent}
use model_lib.Fs.Path.Made.{Linked}
use model_lib.Fs.Path.Mknod.{fs_mknod-Linked}
use model_lib.Text.{strnlen}
use model_lib.Text.Compare.{Chars, chars_end, chars_next}
use model_lib.Mkfs.{
  Host, set_file, string, migrate, migrate_loop, migrate_file, do_migrate, do_retrieve,
}
use model_lib.Mkfs.Words.{Word, two_words_lem}
use model_lib.Mkfs.Retrieve.{file_bytes, do_retrieve-bytes}
use model_lib.Mkfs.Copied.{Empty, Copied, start-Copied}
use model_lib.Mkfs.Copied.Round.{Copied-mapped}
use model_lib.Mkfs.Migrate.{migrate_loop-Copied, field_bytes-all}
use model_lib.Mkfs.RoundTrip.Root.{Ready, linked-Empty, copied-found}

strnlen-Chars :
    (name : List ℕ) (n : ℕ)
    → Chars name
    → length name < n
    → strnlen (name ++ (0 ∷ [])) n ≡ some (length name)
unfolding strnlen
strnlen-Chars name zero cs h = absurd (omega arith)
strnlen-Chars [] (suc n) cs h = refl
strnlen-Chars (c ∷ name) (suc n) (chars_next nz small cs) h =
    let other : (c == 0) ≡ false = ground arith in
    rw (other, strnlen-Chars name n cs (omega arith)) (ap some (omega arith))

-- The lookup of a name in the root.
root_lookup :
    (s : Fs) (name : List ℕ)
    → Chars name
    → NameChars name
    → 1 ≤ length name
    → length name ≤ 13
    → fs_lookup (string (47 ∷ name)) s ≡ walk 1 (name ∷ []) s
root_lookup s name cs nc pos short =
    fs_lookup-walk (name ∷ []) s (suc (length name))
      (names_next (record { chars = nc; some_char = omega arith; short = omega arith }) names_end)
      (strnlen-Chars (47 ∷ name) 64 (chars_next (omega arith) (omega arith) cs) (omega arith))
      (omega arith)

root_itself : (s : Fs) → fs_lookup (47 ∷ 0 ∷ []) s ≡ ok 1 s
unfolding strnlen walk
root_itself s = fs_lookup-walk [] s 1 names_end refl (omega arith)

module _ (s : Fs) (name : List ℕ) (cs : Chars name) (nc : NameChars name) (pos : 1 ≤ length name)
    (short : length name ≤ 13) where
  lookup_absent :
      dir_lookup 1 (name ++ (0 ∷ [])) s ≡ ok (0, none) s → fs_lookup (string (47 ∷ name)) s ≡ ok 0 s
  unfolding walk
  lookup_absent miss = root_lookup s name cs nc pos short ∙ rw miss refl

  lookup_found :
      (k o : ℕ)
      → dir_lookup 1 (name ++ (0 ∷ [])) s ≡ ok (k, some o) s
      → k ≢ 0
      → fs_lookup (string (47 ∷ name)) s ≡ ok k s
  unfolding walk
  lookup_found k o hit ne =
      let some_inode : (k == 0) ≡ false = ground arith in
      root_lookup s name cs nc pos short ∙ rw (hit, some_inode) refl

all_bytes : (bytes : List ℕ) → field_bytes (λ i. get_or bytes i 0) 0 (length bytes) ≡ bytes
all_bytes bytes =
    field_bytes-all bytes (λ i. get_or bytes i 0) 0
      (λ i. ap (λ j. get_or bytes j 0) (let z : 0 + i ≡ i = omega arith in z))

migrate_file-all :
    (k : ℕ) (bytes : List ℕ) (u t : Fs)
    → migrate_loop k 0 (field_bytes (λ i. get_or bytes i 0) 0 (length bytes)) u ≡ ok tt t
    → migrate_file k (some bytes) u ≡ ok tt t
unfolding migrate_file
migrate_file-all k bytes u t run = ap (λ l. migrate_loop k 0 l u) (sym (all_bytes bytes)) ∙ run

module _ (s : Fs) (h : Host) (host_path name : List ℕ) (bytes : List ℕ) (names : ℕ → List ℕ)
    (count k c : ℕ) (m : Mounted s) (all : AllBytes s) (r : Ready s names count k c)
    (cs : Chars name) (nc : NameChars name) (pos : 1 ≤ length name) (short : length name ≤ 13)
    (fresh : (j : ℕ) → j < count → names j ≢ name) (file : h.files host_path ≡ some bytes)
    (small : (i : ℕ) → get_or bytes i 0 < 256) (few : length bytes < 5120) where
  abbrev source : ℕ → ℕ
  source i = get_or bytes i 0

  abbrev path : List ℕ
  path = 47 ∷ name

  -- What `migrate` leaves: the copy, and the name of it in the root.
  migrate-Copied :
      (u t : Fs) × (migrate host_path path h s ≡ ok h t)
      × Empty u k c
      × Copied u k c source (length bytes) t
      × (fs_lookup (string path) t ≡ ok k t)
  unfolding migrate
  migrate-Copied =
      let absent =
        dir_lookup-absent s 1 names name m all r.parent.dir cs
          (λ j hj. fresh j (omega (arith, r.parent.whole))) in
      let (u, made, l, found) =
        fs_mknod-Linked s [] name 1 names count t_reg k m all r.parent r.spare (omega arith)
          chars_end cs nc pos short (omega arith) (root_itself s) (omega arith) fresh in
      let e = linked-Empty s names count k c name r u l in
      let (t, run, g) =
        migrate_loop-Copied u k c source e small (length bytes) 0 u
          (start-Copied u k c source e l.mounted l.bytes) (omega arith) in
      let done : Copied u k c source (length bytes) t =
        subst (λ n. Copied u k c source n t)
          (let z : 0 + length bytes ≡ length bytes = omega arith in z) g in
      let made_here : fs_mknod (string path) t_reg s ≡ ok k u = made in
      let there : (k == 0) ≡ false = let ne = r.spare.some_inode in ground (arith, ne) in
      (
        u,
        t,
        rw
            (
              lookup_absent s name cs nc pos short absent,
              made_here,
              there,
              file,
              migrate_file-all k bytes u t run,
            )
            refl,
        e,
        done,
        lookup_found t name cs nc pos short k (16 * count)
            (copied-found s names count k c name r u l source (length bytes) t done cs fresh)
            r.spare.some_inode,
      )

  migrate-retrieve :
      (back : List ℕ)
      → Word host_path
      → Word path
      → Word back
      → h.may_create back ≡ true
      → (t : Fs) × (do_migrate (32 ∷ host_path ++ (32 ∷ path ++ (0 ∷ []))) h s ≡ ok h t)
        × (do_retrieve (length bytes + 1) (32 ∷ path ++ (32 ∷ back ++ (0 ∷ []))) h t
            ≡ ok (set_file h back bytes) t)
  unfolding do_migrate
  migrate-retrieve back wh wp wb create =
      let (u, t, run, e, g, found) = migrate-Copied in
      let size : (inode_at t k).size ≡ length bytes = g.size in
      let text : file_bytes t k ≡ bytes =
        field_bytes-cong (content t (inode_at t k)) source 0 (inode_at t k).size
          (λ i hi. g.content i (omega (arith, size)))
        ∙ ap (field_bytes source 0) size
        ∙ all_bytes bytes in
      (
        t,
        rw (two_words_lem host_path path wh wp, run) refl,
        ap (λ n. do_retrieve (n + 1) (32 ∷ path ++ (32 ∷ back ++ (0 ∷ []))) h t) (sym size)
            ∙ do_retrieve-bytes t h path back k g.mounted g.bytes wp wb found r.spare.some_inode
                (rw (g.su) e.in_range) (omega (arith, size))
                (λ o ho.
                  Copied-mapped u k c source e (length bytes) t g few o (omega (arith, size)))
                create
            ∙ ap (λ b. ok (set_file h back b) t) text,
      )

-- On a mounted disk of bytes, where the inodes, the bitmap and the data section follow each other, let
-- the root be a directory with room for an entry in its last block, which belongs to one place of it
-- only, and inode `k`, which is not the null one, the first that is free. Let the bitmap have its bits
-- below some `c` set, those of the root's blocks set, and the ten from `c` on clear. Then `do_migrate`
-- with the words for a file of the host, of at most 5119 bytes, and for a path `/name`, whose name has 1
-- to 13 characters and is no entry of the root, ends, and prints nothing. On the disk that it leaves,
-- `do_retrieve` with the words for that path and for a name that the host lets it create ends after one
-- round more than there are bytes. It leaves the bytes of the file, all of them and in order, under
-- that name of the host, and the disk unchanged.
pub do_migrate-do_retrieve :
    (s : Fs) (h : Host) (host_path name back bytes : List ℕ) (names : ℕ → List ℕ) (count k c : ℕ)
    → Mounted s
    → AllBytes s
    → Ready s names count k c
    → Chars name
    → NameChars name
    → 1 ≤ length name
    → length name ≤ 13
    → ((j : ℕ) → j < count → names j ≢ name)
    → h.files host_path ≡ some bytes
    → ((i : ℕ) → get_or bytes i 0 < 256)
    → length bytes < 5120
    → Word host_path
    → Word (47 ∷ name)
    → Word back
    → h.may_create back ≡ true
    → (t : Fs) × (do_migrate (32 ∷ host_path ++ (32 ∷ (47 ∷ name) ++ (0 ∷ []))) h s ≡ ok h t)
      × (do_retrieve (length bytes + 1) (32 ∷ (47 ∷ name) ++ (32 ∷ back ++ (0 ∷ []))) h t
          ≡ ok (set_file h back bytes) t)
do_migrate-do_retrieve s h host_path name back bytes names count k c m all r cs nc pos short fresh
      file small few wh wp wb create =
    migrate-retrieve s h host_path name bytes names count k c m all r cs nc pos short fresh file
      small few back wh wp wb create
