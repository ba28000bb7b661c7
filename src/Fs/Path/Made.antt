-- ===== src/Fs/Path/Made.antt =====
-- What `make_node` of `fs_mknod` leaves.
use model_lib.Base.{
  ℕ, ◌+◌, ◌-◌, ◌*◌, ◌/◌, ◌<◌, ◌≤◌, ◌≡◌, ◌≢◌, refl, arith, ◌==◌, if◌then◌else◌, ltb, leb, ◌&&◌, true,
  false, Bool-cases, inl, inr, ap, ◌∙◌, u16, List, length,
}
use model_lib.Fs.Layout.{Bytes, Dinode, t_dev}
use model_lib.Fs.Layout.Views.{SameInode}
use model_lib.Fs.State.{Fs, ok}
use model_lib.Fs.Inode.{new_inode, inode_block}
use model_lib.Fs.Inode.Access.{inode_at, with_inode, Mounted, read_inode-ok, write_inode-ok}
use model_lib.Fs.Rw.View.{file_block, content}
use model_lib.Fs.Rw.Read.{AllBytes}
use model_lib.Fs.Rw.Room.{Stored}
use model_lib.Fs.Rw.Stored.{fs_write-content}
use model_lib.Fs.Dir.{entry_name, entry_inum}
use model_lib.Fs.Dir.Lookup.{Directory, entry_at, field_bytes-cong}
use model_lib.Fs.Path.{make_node, count_link}
use model_lib.Fs.Path.Entry.{NewEntry, new_entry-NewEntry}
use model_lib.Fs.Path.Linked.{
  Enters, Parent, Spare, taken, taken-run, taken-Mounted, taken-AllBytes, taken-Room,
}
use model_lib.Fs.Path.Entered.{
  after, after-inode, after-blocks, after-fields, after-others, after-spared, after-content,
  after-size, after-type, after-Mounted, after-AllBytes,
}
use model_lib.Text.Compare.{Chars}
use model_lib.Fs.Path.Searched.{with_name}

-- What `fs_mknod` leaves: an empty inode of the type with one link, and a directory with one more
-- entry, which has the name and that inode's number; the other entries are as they were, and so are the
-- directory's inode but for its size, its blocks, every other inode, and every block that holds no
-- inodes and that the entry does not enter.
pub record Linked (s : Fs) (n : ℕ) (names : ℕ → List ℕ) (count : ℕ) (name : List ℕ) (type k : ℕ)
    (u : Fs) : Type 0 where
  pub mounted : Mounted u
  pub bytes : AllBytes u
  pub su : u.su ≡ s.su
  pub inode : SameInode (inode_at u k) (record (new_inode type) { linkcnt = 1 })
  pub directory : Directory u n (with_name names count name)
  pub size : (inode_at u n).size ≡ 16 * (count + 1)
  pub old : (j : ℕ) → j < count → entry_inum (entry_at u n j) ≡ entry_inum (entry_at s n j)
  pub new : entry_inum (entry_at u n count) ≡ k
  pub blocks : (b : ℕ) → b < 16650 → file_block u (inode_at u n) b ≡ file_block s (inode_at s n) b
  pub fields : SameInode (inode_at u n) (record (inode_at s n) { size = (inode_at u n).size })
  pub others : (j : ℕ) → j < s.su.ninodes → j ≢ n → j ≢ k → SameInode (inode_at u j) (inode_at s j)
  pub spared :
      (q : ℕ)
      → ((j : ℕ) → j < s.su.ninodes → inode_block s j ≢ q)
      → ((b : ℕ) → Enters s n b → file_block s (inode_at s n) b ≢ q)
      → u.disk q ≡ s.disk q

count_link-ok :
    (k : ℕ) (di : Dinode) (w : Fs)
    → Mounted w
    → k < w.su.ninodes
    → count_link k di w
      ≡ ok k (with_inode w k (record (inode_at w k) { linkcnt = u16 ((inode_at w k).linkcnt + 1) }))
unfolding count_link
count_link-ok k di w m h =
    rw
      (
        read_inode-ok m k h,
        write_inode-ok m k (record (inode_at w k) { linkcnt = u16 ((inode_at w k).linkcnt + 1) }) h,
      )
      refl

module _ (s : Fs) (n : ℕ) (names : ℕ → List ℕ) (count type k : ℕ) (m : Mounted s)
    (bytes : AllBytes s) (p : Parent s n names count) (spare : Spare s k) (valid : type ≤ t_dev)
    (name : List ℕ) (cs : Chars name) where
  abbrev size : ℕ
  size = (inode_at s n).size

  module _ (de : Bytes) (ne : NewEntry k name de) (w : Fs)
      (st : Stored (taken s n names count type k m bytes p spare valid) n de 16 size w) where
    abbrev u : Fs
    u = after s n names count type k m bytes p spare valid de w st

    byte :
        (o : ℕ)
        → o < 8524800
        → content u (inode_at u n) o
          ≡ (if leb size o && ltb o (size + 16) then de (o - size) else content s (inode_at s n) o)
    byte = after-content s n names count type k m bytes p spare valid de w st

    -- The bytes of the entries that were there, and of the new one.
    old_entry : (j : ℕ) → j < count → (i : ℕ) → i < 16 → entry_at u n j i ≡ entry_at s n j i
    old_entry j hj i hi =
        let miss : (leb size (16 * j + i) && ltb (16 * j + i) (size + 16)) ≡ false =
          ground (arith, p.whole) in
        byte (16 * j + i) (omega (arith, p.whole, p.end)) ∙ rw miss refl

    last_entry : (i : ℕ) → i < 16 → entry_at u n count i ≡ de i
    last_entry i hi =
        let hit : (leb size (16 * count + i) && ltb (16 * count + i) (size + 16)) ≡ true =
          ground (arith, p.whole) in
        let index : 16 * count + i - size ≡ i = omega (arith, p.whole) in
        byte (16 * count + i) (omega (arith, p.whole, p.end)) ∙ rw (hit, index) refl

    fields :
        (b c : Bytes)
        → ((i : ℕ) → i < 16 → b i ≡ c i)
        → (entry_name b ≡ entry_name c) × (entry_inum b ≡ entry_inum c)
    fields b c same = (
      field_bytes-cong b c 2 14 (λ i h. same i (omega arith)),
      omega (arith, same 0 (omega arith), same 1 (omega arith)),
    )

    count_lem : (inode_at u n).size ≡ 16 * count + 16
    count_lem =
        after-size s n names count type k m bytes p spare valid de w st ∙ omega (arith, p.whole)

    -- Every block of the directory is there.
    mapped : (o : ℕ) → o < 16 * count + 16 → file_block u (inode_at u n) (o / 512) ≢ 0
    mapped o h =
        let same =
          after-blocks s n names count type k m bytes p spare valid de w st (o / 512)
            (omega (arith, p.whole, p.end)) in
        rw same (elim (Bool-cases (ltb o size)) [
          | inl old ↦ p.dir.mapped o (ground arith)
          | inr new ↦
              p.present (o / 512)
                (record { low = ground (arith, p.whole); high = ground (arith, p.whole) })
        ])

    directory : Directory u n (with_name names count name)
    directory = record {
      in_range = omega (arith, p.dir.in_range, ap (λ su. su.ninodes) st.su);
      type = after-type s n names count type k m bytes p spare valid de w st;
      small = omega (arith, count_lem, p.whole, p.end);
      mapped = λ o h. mapped o (omega (arith, count_lem));
      pad = λ j. if ltb j count then p.dir.pad j else ne.pad;
      named = λ j h. elim (Bool-cases (ltb j count)) [
        | inl old ↦
            rw old (
              (fields _ _ (old_entry j (ground arith))).0 ∙ p.dir.named j (ground (arith, p.whole)))
        | inr new ↦
            let last : j ≡ count = ground (arith, count_lem) in
            rw new
              (ap (λ i. entry_name (entry_at u n i)) last ∙ (fields _ _ last_entry).0 ∙ ne.text)
      ];
      chars = λ j h. elim (Bool-cases (ltb j count)) [
        | inl old ↦ rw old (p.dir.chars j (ground (arith, p.whole)))
        | inr new ↦ rw new cs
      ];
    }

    linked : Linked s n names count name type k u
    linked = record {
      mounted = after-Mounted s n names count type k m bytes p spare valid de w st;
      bytes = after-AllBytes s n names count type k m bytes p spare valid de w st;
      su = st.su;
      inode = after-inode s n names count type k m bytes p spare valid de w st;
      directory = directory;
      size = omega (arith, count_lem);
      old = λ j h. (fields _ _ (old_entry j h)).1;
      new = (fields _ _ last_entry).1 ∙ ne.number;
      blocks = after-blocks s n names count type k m bytes p spare valid de w st;
      fields = after-fields s n names count type k m bytes p spare valid de w st;
      others = after-others s n names count type k m bytes p spare valid de w st;
      spared = after-spared s n names count type k m bytes p spare valid de w st;
    }

  pub make_node-Linked :
      length name ≤ 13
      → (u : Fs) × (make_node n (inode_at s n) name type s ≡ ok k u)
        × Linked s n names count name type k u
  unfolding make_node
  make_node-Linked short =
      let before = taken s n names count type k m bytes p spare valid in
      let before-Mounted = taken-Mounted s n names count type k m bytes p spare valid in
      let (de, made, ne) =
        new_entry-NewEntry k name before (omega (arith, spare.in_range, spare.small)) cs short in
      let (w, wrote, st) =
        fs_write-content before n de 16 size before-Mounted
          (taken-AllBytes s n names count type k m bytes p spare valid) p.dir.in_range p.end
          ne.bytes (taken-Room s n names count type k m bytes p spare valid de) in
      let narrow : u16 k ≡ k = omega (arith, spare.in_range, spare.small) in
      let there : (k == 0) ≡ false = ground (arith, spare.some_inode) in
      let hk : k < w.su.ninodes = rw (st.su) spare.in_range in
      (
        u de ne w st,
        rw
            (
              taken-run s n names count type k m bytes p spare valid,
              narrow,
              there,
              made,
              wrote,
              count_link-ok k (inode_at s n) w st.mounted hk,
            )
            refl,
        linked de ne w st,
      )
