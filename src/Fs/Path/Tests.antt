-- ===== src/Fs/Path/Tests.antt =====
-- Runs of `fs_lookup`.
use model_lib.Base.{ℕ, ◌≡◌, refl, arith, List, [], ◌∷◌, ◌++◌}
use model_lib.Fs.Layout.{root_inum}
use model_lib.Fs.State.{out_of_bounds}
use model_lib.Fs.Samples.{mounted}
use model_lib.Text.{strnlen}
use model_lib.Fs.Path.{fs_lookup, lookup_loop}
use model_lib.Fs.Path.Fuel.{lookup_loop-enough}
use model_lib.Fs.Path.Names.{
  NameChars, name_end, name_char, Names, names_end, names_next, joined, separated, walk,
  fs_lookup-walk, fs_lookup-overflow,
}

abbrev a_b : List (List ℕ)
a_b = (97 ∷ []) ∷ (98 ∷ 98 ∷ []) ∷ []

a_b-Names : Names a_b
a_b-Names =
    names_next
      (record {
        chars = name_char (omega arith) (omega arith) name_end;
        some_char = omega arith;
        short = omega arith;
      })
      (names_next
        (record {
          chars =
              name_char (omega arith) (omega arith)
                (name_char (omega arith) (omega arith) name_end);
          some_char = omega arith;
          short = omega arith;
        })
        names_end)

fs_lookup-walk_example : fs_lookup (47 ∷ joined a_b) mounted ≡ walk root_inum a_b mounted
unfolding strnlen
fs_lookup-walk_example = fs_lookup-walk a_b mounted 5 a_b-Names refl (omega arith)

-- Fourteen times `a`.
abbrev long_name : List ℕ
long_name = 97 ∷ 97 ∷ 97 ∷ 97 ∷ 97 ∷ 97 ∷ 97 ∷ 97 ∷ 97 ∷ 97 ∷ 97 ∷ 97 ∷ 97 ∷ 97 ∷ []

more : {s : List ℕ} → NameChars s → NameChars (97 ∷ s)
more cs = name_char (omega arith) (omega arith) cs

long_name-NameChars : NameChars long_name
long_name-NameChars = more (
    more
      (more (more (more (more (more (more (more (more (more (more (more (more name_end)))))))))))))

fs_lookup-overflow_example : fs_lookup (47 ∷ (long_name ++ separated [])) mounted ≡ out_of_bounds
unfolding strnlen
fs_lookup-overflow_example =
    fs_lookup-overflow long_name [] mounted 15 long_name-NameChars refl refl (omega arith)

-- `/a` behind the first slash, with the fuel of `fs_lookup` and with more.
lookup_loop-enough_example :
    lookup_loop 3 root_inum (47 ∷ 97 ∷ 0 ∷ []) mounted
    ≡ lookup_loop 10 root_inum (47 ∷ 97 ∷ 0 ∷ []) mounted
lookup_loop-enough_example =
    lookup_loop-enough 3 10 root_inum (47 ∷ 97 ∷ 0 ∷ []) mounted (omega arith) (omega arith)
