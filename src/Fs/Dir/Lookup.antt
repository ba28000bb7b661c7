-- ===== src/Fs/Dir/Lookup.antt =====
-- `dir_lookup` against the entries that the directory's bytes hold.
use model_lib.Base.{
  ℕ, zero, suc, ◌+◌, ◌-◌, ◌*◌, ◌/◌, ◌≤◌, ◌<◌, ◌≡◌, ◌≢◌, ◌⊎◌, inl, inr, refl, arith, true, false,
  ◌==◌, Option, none, some, List, [], Bool-cases, ==_iff, ap, sym, ◌∙◌, u32, min,
}
use model_lib.Fs.Layout.{Bytes, zeros, t_dir}
use model_lib.Fs.State.{Fs, Run, ok}
use model_lib.Fs.Inode.Access.{inode_at, Mounted, read_inode-ok}
use model_lib.Fs.Rw.{fs_read}
use model_lib.Fs.Rw.View.{file_block, content}
use model_lib.Fs.Rw.Read.{AllBytes}
use model_lib.Fs.Rw.FileRead.{fs_read-content}
use model_lib.Text.{Sign, less, equal, greater, strcmp}
use model_lib.Text.Compare.{
  Chars, terminated, compare_chars, strcmp-compare_chars, compare_chars-equal, compare_chars_self,
}
use model_lib.Fs.Dir.{
  field_bytes, entry_name, entry_inum, is_equal, dir_loop, dir_lookup_at, dir_lookup,
}

pub field_bytes-cong :
    (b c : Bytes) (o n : ℕ)
    → ((i : ℕ) → i < o + n → b i ≡ c i)
    → field_bytes b o n ≡ field_bytes c o n
unfolding field_bytes
field_bytes-cong b c o zero h = refl
field_bytes-cong b c o (suc n) h =
    let here : b o ≡ c o = h o (omega arith) in
    let there : field_bytes b (o + 1) n ≡ field_bytes c (o + 1) n =
      field_bytes-cong b c (o + 1) n (λ i lt. h i (omega arith)) in
    cc

-- Entry `k` of the directory `inum`, as the bytes of the file.
abbrev pub entry_at : Fs → ℕ → ℕ → Bytes
entry_at s inum k i = content s (inode_at s inum) (16 * k + i)

-- A directory without holes whose entries have the names that `names` gives.
pub record Directory (s : Fs) (inum : ℕ) (names : ℕ → List ℕ) : Type 0 where
  pub in_range : inum < s.su.ninodes
  pub type : (inode_at s inum).type ≡ t_dir
  pub small : (inode_at s inum).size ≤ 8524800
  pub mapped : (o : ℕ) → o < (inode_at s inum).size → file_block s (inode_at s inum) (o / 512) ≢ 0
  pub pad : ℕ → List ℕ
  pub named :
      (k : ℕ)
      → k < (inode_at s inum).size / 16
      → entry_name (entry_at s inum k) ≡ terminated (names k) (pad k)
  pub chars : (k : ℕ) → k < (inode_at s inum).size / 16 → Chars (names k)

-- The first entry from `k` on with the name, among those below `n`.
pub record FirstEntry (s : Fs) (inum : ℕ) (names : ℕ → List ℕ) (name : List ℕ) (k n : ℕ)
    (r : ℕ × Option ℕ) : Type 0 where
  pub index : ℕ
  pub from : k ≤ index
  pub below : index < n
  pub same : names index ≡ name
  pub first : (j : ℕ) → k ≤ j → j < index → names j ≢ name
  pub result : r ≡ (entry_inum (entry_at s inum index), some (16 * index))

pub record NoEntry (names : ℕ → List ℕ) (name : List ℕ) (k n : ℕ) (r : ℕ × Option ℕ) : Type 0 where
  pub absent : (j : ℕ) → k ≤ j → j < n → names j ≢ name
  pub result : r ≡ (0, none)

is_equal-equal : (g : Sign) → is_equal g ≡ true → g ≡ equal
is_equal-equal less h = cc
is_equal-equal equal h = refl
is_equal-equal greater h = cc

is_equal-differ : (a b : List ℕ) → is_equal (compare_chars a b) ≡ false → b ≢ a
is_equal-differ a b miss e =
    let same : compare_chars a b ≡ equal = rw e (compare_chars_self a) in
    let hit : is_equal (compare_chars a b) ≡ true = ap is_equal same in cc

-- Entry `k` does not have the name, so what holds from `k + 1` on holds from `k` on.
later :
    {s : Fs} {inum : ℕ} {names : ℕ → List ℕ} {name : List ℕ} (k n : ℕ) (r : ℕ × Option ℕ)
    → names k ≢ name
    → FirstEntry s inum names name (k + 1) n r ⊎ NoEntry names name (k + 1) n r
    → FirstEntry s inum names name k n r ⊎ NoEntry names name k n r
later {s} {inum} {names} {name} k n r differs (inl f) = inl (record {
  index = f.index;
  from = omega (arith, f.from);
  below = f.below;
  same = f.same;
  first = λ j lo hi. elim (Bool-cases (j == k)) [
    | inl here ↦ let e : j ≡ k = (==_iff _ _).0 here in rw e differs
    | inr away ↦ f.first j (ground arith) hi
  ];
  result = f.result;
})
later {s} {inum} {names} {name} k n r differs (inr a) = inr (record {
  absent = λ j lo hi. elim (Bool-cases (j == k)) [
    | inl here ↦ let e : j ≡ k = (==_iff _ _).0 here in rw e differs
    | inr away ↦ a.absent j (ground arith) hi
  ];
  result = a.result;
})

module _ (s : Fs) (inum : ℕ) (names : ℕ → List ℕ) (name : List ℕ) (m : Mounted s)
    (bytes : AllBytes s) (d : Directory s inum names) (cs : Chars name) where
  abbrev size : ℕ
  size = (inode_at s inum).size

  -- One round reads entry `k` and compares its name.
  read_entry-ok :
      (k : ℕ)
      → k < size / 16
      → (de : Bytes) × (fs_read inum zeros 16 (16 * k) s ≡ ok (some (16, de)) s)
        × (strcmp (terminated name []) (entry_name de) ≡ some (compare_chars name (names k)))
        × (entry_inum de ≡ entry_inum (entry_at s inum k))
  read_entry-ok k h =
      let (de, run, filled) =
        fs_read-content s inum 16 (16 * k) zeros m bytes d.in_range d.small (omega arith)
          (omega (arith, d.small)) (λ o lo hi lt. d.mapped o lt) in
      let all : min 16 (size - 16 * k) ≡ 16 = omega arith in
      let agree : (i : ℕ) → i < 16 → de i ≡ entry_at s inum k i =
        λ i lt. filled i ∙ rw all (ground arith) in
      let fields : entry_name de ≡ entry_name (entry_at s inum k) =
        field_bytes-cong de (entry_at s inum k) 2 14 (λ i lt. agree i (omega arith)) in
      (
        de,
        rw all at run,
        rw (fields, d.named k h)
            (strcmp-compare_chars name (names k) [] (d.pad k) cs (d.chars k h)),
        omega (arith, agree 0 (omega arith), agree 1 (omega arith)),
      )

  abbrev pub Found : ℕ → Run (ℕ × Option ℕ) → Type 0
  Found k p =
      (r : ℕ × Option ℕ) × (p ≡ ok r s)
      × (FirstEntry s inum names name k (size / 16) r ⊎ NoEntry names name k (size / 16) r)

  dir_loop-Found :
      (rounds k : ℕ)
      → rounds + k ≡ size / 16
      → Found k (dir_loop rounds inum (terminated name []) (16 * k) s)
  unfolding dir_loop
  dir_loop-Found zero k e =
      (_, refl, inr (record { absent = λ j lo hi. absurd (omega arith); result = refl }))
  dir_loop-Found (suc rounds) k e =
      let (de, run, compared, number) = read_entry-ok k (omega arith) in
      let (r, rest, found) = dir_loop-Found rounds (k + 1) (omega arith) in
      let next : u32 (16 * k + 16) ≡ 16 * (k + 1) = omega (arith, d.small) in
      rw (run, compared, next)
        (elim (Bool-cases (is_equal (compare_chars name (names k)))) [
          | inl hit ↦ rw hit (
            (entry_inum de, some (16 * k)),
            refl,
            inl (record {
              index = k;
              from = omega arith;
              below = omega arith;
              same = sym (compare_chars-equal name (names k) (is_equal-equal _ hit));
              first = λ j lo hi. absurd (omega arith);
              result = rw number refl;
            }),
          )
          | inr miss ↦
              rw (miss, rest)
                (r, refl, later k (size / 16) r (is_equal-differ name (names k) miss) found)
        ])

  dir_lookup_at-Found : Found 0 (dir_lookup_at inum (terminated name []) (some (inode_at s inum)) s)
  unfolding dir_lookup_at
  dir_lookup_at-Found = rw d.type (dir_loop-Found (size / 16) 0 (omega arith))

  -- On a mounted disk of bytes, `dir_lookup` of a terminated name in a directory without holes, all of
  -- whose entries have terminated names, returns the inode number of the first entry with that name
  -- and gives its offset, or returns 0 where no entry has that name. It changes nothing.
  pub dir_lookup-Found : Found 0 (dir_lookup inum (terminated name []) s)
  unfolding dir_lookup
  dir_lookup-Found = rw (read_inode-ok m inum d.in_range) dir_lookup_at-Found
