-- ===== src/Mkfs/Migrate.antt =====
-- The loop of `do_migrate` copies the bytes of a file of the host.
use mathlib.Core.Path.{subst}
use model_lib.Base.{
  ℕ, zero, suc, ◌+◌, ◌^◌, ◌<◌, ◌≡◌, refl, arith, ap, ◌∙◌, u32, some, List, [], ◌∷◌, length, get_or,
}
use model_lib.Fs.Layout.{Bytes}
use model_lib.Fs.State.{Fs, ok}
use model_lib.Fs.Rw.{fs_write}
use model_lib.Fs.Dir.{field_bytes}
use model_lib.Mkfs.{migrate_loop}
use model_lib.Mkfs.Copied.{Empty, Copied}
use model_lib.Mkfs.Copied.Round.{next-Copied}

pub field_bytes-all :
    (bytes : List ℕ) (b : Bytes) (o : ℕ)
    → ((i : ℕ) → b (o + i) ≡ get_or bytes i 0)
    → field_bytes b o (length bytes) ≡ bytes
unfolding field_bytes
field_bytes-all [] b o same = refl
field_bytes-all (x ∷ bytes) b o same =
    let here : b o ≡ x = (let e : o ≡ o + 0 = omega arith in ap b e) ∙ same 0 in
    let there : field_bytes b (o + 1) (length bytes) ≡ bytes =
      field_bytes-all bytes b (o + 1)
        (λ i. (let e : o + 1 + i ≡ o + suc i = omega arith in ap b e) ∙ same (suc i)) in
    cc

migrate_loop-next :
    (inum n x : ℕ) (bytes : List ℕ) (t u : Fs)
    → fs_write inum (λ i. x) 1 n t ≡ ok (some (1, λ i. x)) u
    → n + 1 < 2 ^ 32
    → migrate_loop inum n (x ∷ bytes) t ≡ migrate_loop inum (n + 1) bytes u
unfolding migrate_loop
migrate_loop-next inum n x bytes t u run small =
    let next : u32 (n + 1) ≡ n + 1 = omega arith in rw (run, next) refl

module _ (s : Fs) (inum c : ℕ) (source : ℕ → ℕ) (e : Empty s inum c)
    (small : (i : ℕ) → source i < 256) where
  pub migrate_loop-Copied :
      (rounds n : ℕ) (t : Fs)
      → Copied s inum c source n t
      → n + rounds < 5120
      → (u : Fs) × (migrate_loop inum n (field_bytes source n rounds) t ≡ ok tt u)
        × Copied s inum c source (n + rounds) u
  unfolding migrate_loop field_bytes
  migrate_loop-Copied zero n t g room = (
    t,
    refl,
    (let all : n ≡ n + 0 = omega arith in subst (λ k. Copied s inum c source k t) all g),
  )
  migrate_loop-Copied (suc rounds) n t g room =
      let (u, run, g') = next-Copied s inum c source e n t g (omega arith) (small n) in
      let (v, rest, g'') = migrate_loop-Copied rounds (n + 1) u g' (omega arith) in
      (
        v,
        migrate_loop-next inum n (source n) (field_bytes source (n + 1) rounds) t u run
              (omega arith)
            ∙ rest,
        (let all : n + 1 + rounds ≡ n + suc rounds = omega arith in
            subst (λ k. Copied s inum c source k v) all g''),
      )
