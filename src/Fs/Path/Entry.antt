-- ===== src/Fs/Path/Entry.antt =====
-- The directory entry that `fs_mknod` fills in.
use model_lib.Base.{
  ℕ, zero, suc, ◌+◌, ◌<◌, ◌≤◌, ◌≡◌, refl, arith, ◌==◌, ==_refl, false, Bool-cases, inl, inr, ◌∙◌,
  update, u16, some, List, [], ◌∷◌, ◌++◌, length,
}
use model_lib.Fs.Layout.{Bytes, zeros, byte_of, splice}
use model_lib.Fs.State.{Fs, ok}
use model_lib.Fs.Dir.{field_bytes, entry_name, entry_inum}
use model_lib.Fs.Path.{new_entry}
use model_lib.Text.{strncpy}
use model_lib.Text.Compare.{Chars, chars_next, terminated}

-- What a copy from offset `o` on leaves: the bytes in front of it, and bytes.
record Behind (d e : Bytes) (o : ℕ) : Type 0 where
  before : (i : ℕ) → i < o → e i ≡ d i
  bytes : ((i : ℕ) → d i < 256) → (i : ℕ) → e i < 256

Behind-step : (d e : Bytes) (o c : ℕ) → c < 256 → Behind (update d o c) e (o + 1) → Behind d e o
Behind-step d e o c h b = record {
  before = λ i lt.
      b.before i (omega arith) ∙ (let miss : (i == o) ≡ false = ground arith in rw miss refl);
  bytes = λ old.
      b.bytes λ i. elim (Bool-cases (i == o)) [ inl hit ↦ rw hit h | inr miss ↦ rw miss (old i) ];
}

here : (d e : Bytes) (o c : ℕ) → Behind (update d o c) e (o + 1) → e o ≡ c
here d e o c b = b.before o (omega arith) ∙ rw (==_refl o) refl

fill_zeros :
    (n : ℕ) (d : Bytes) (o : ℕ) → (e : Bytes) × (strncpy d o (0 ∷ []) n ≡ some e) × Behind d e o
unfolding strncpy
fill_zeros zero d o = (d, refl, record { before = λ i h. refl; bytes = λ old. old })
fill_zeros (suc n) d o =
    let (e, run, b) = fill_zeros n (update d o 0) (o + 1) in
    (e, run, Behind-step d e o 0 (omega arith) b)

copy_name :
    (name : List ℕ) (n : ℕ) (d : Bytes) (o : ℕ)
    → Chars name
    → length name < n
    → (e : Bytes) × (pad : List ℕ) × (strncpy d o (name ++ (0 ∷ [])) n ≡ some e)
      × (field_bytes e o n ≡ terminated name pad)
      × Behind d e o
unfolding strncpy field_bytes terminated
copy_name name zero d o cs h = absurd (omega arith)
copy_name [] (suc n) d o cs h =
    let (e, run, b) = fill_zeros n (update d o 0) (o + 1) in
    (e, field_bytes e (o + 1) n, run, rw (here d e o 0 b) refl, Behind-step d e o 0 (omega arith) b)
copy_name (c ∷ name) (suc n) d o (chars_next lo hi cs) h =
    let there : (c == 0) ≡ false = ground arith in
    let (e, pad, run, text, b) = copy_name name n (update d o c) (o + 1) cs (omega arith) in
    (e, pad, rw there run, rw (here d e o c b, text) refl, Behind-step d e o c hi b)

-- The entry has the number and the name, and is made of bytes.
pub record NewEntry (inum : ℕ) (name : List ℕ) (de : Bytes) : Type 0 where
  pub number : entry_inum de ≡ inum
  pub pad : List ℕ
  pub text : entry_name de ≡ terminated name pad
  pub bytes : (i : ℕ) → de i < 256

pub new_entry-NewEntry :
    (inum : ℕ) (name : List ℕ) (s : Fs)
    → inum < 65536
    → Chars name
    → length name ≤ 13
    → (de : Bytes) × (new_entry inum name s ≡ ok de s) × NewEntry inum name de
unfolding new_entry splice
new_entry-NewEntry inum name s small cs short =
    let (de, pad, run, text, b) =
      copy_name name 14 (splice zeros 0 2 (byte_of (u16 inum))) 2 cs (omega arith) in
    (
      de,
      rw run refl,
      record {
        number = omega (arith, b.before 0 (omega arith), b.before 1 (omega arith));
        pad = pad;
        text = text;
        bytes = b.bytes λ i. ground arith;
      },
    )
