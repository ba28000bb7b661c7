-- ===== src/Pci/Settles.antt =====
-- Commands of grab/pci.c that do to the table of devices what adding a listing does.
use model_lib.Base.{
  ℕ, ◌*◌, ◌/◌, ◌≡◌, refl, ap, ◌∙◌, if◌then◌else◌, Bool, true, false, List, [], ◌∷◌, ◌++◌, Option,
  none, some, ltb, inl, inr, Bool-cases,
}
use model_lib.Pci.{
  Bridge, Pci, PciDev, Run, Cmd, ok, failed, Fault, too_deep, pure, ◌>>◌, ◌>>=◌, and_then, add_dev,
  npcidev_max, read_word_at, read_byte_at, mkaddr,
}
use model_lib.Pci.Access.{word, byte, looked, read_word_lem, read_byte_lem}
use model_lib.Pci.Listing.{add_all}

-- A run with the address port left at `a`.
abbrev pub with_address : {H A : Type 0} → ℕ → Run H A → Run H A
with_address a (ok x s) = ok x (record s { address = a })
with_address a (failed f) = failed f

module _ {H : Type 0} where
  -- Adding does not look at the address port, and leaves it and the hardware alone.
  add_dev_lem :
      (p : PciDev) (a : ℕ) (s : Pci H)
      → add_dev p (record s { address = a }) ≡ with_address a (add_dev p s)
  unfolding add_dev
  add_dev_lem p a s = elim (Bool-cases (ltb s.npcidev npcidev_max)) [
    | inl room ↦ rw room refl
    | inr full ↦ rw full refl
  ]

  -- The result of adding: a state with the same hardware, or a fault.
  data Added (s : Pci H) : Run H (Unit {0}) → Type 0 where
    added : (t : Pci H) → t.hw ≡ s.hw → Added s (ok tt t)
    refused : (f : Fault) → Added s (failed f)

  add_dev-Added : (p : PciDev) (s : Pci H) → Added s (add_dev p s)
  unfolding add_dev
  add_dev-Added p s = elim (Bool-cases (ltb s.npcidev npcidev_max)) [
    | inl room ↦ rw room (added _ refl)
    | inr full ↦ rw full (refused _)
  ]

  then_address :
      (r : Run H (Unit {0})) (a : ℕ) (l : List (Option PciDev))
      → ((t : Pci H) → add_all l (record t { address = a }) ≡ with_address a (add_all l t))
      → and_then (with_address a r) (λ _. add_all l) ≡ with_address a (and_then r (λ _. add_all l))
  then_address (ok x t) a l rest = rest t
  then_address (failed f) a l rest = refl

  add_all_lem :
      (l : List (Option PciDev)) (a : ℕ) (s : Pci H)
      → add_all l (record s { address = a }) ≡ with_address a (add_all l s)
  unfolding add_all
  add_all_lem [] a s = refl
  add_all_lem (none ∷ l) a s = refl
  add_all_lem (some p ∷ l) a s =
      rw (add_dev_lem p a s) (then_address (add_dev p s) a l (add_all_lem l a))

  Added-trans : {s t : Pci H} {r : Run H (Unit {0})} → t.hw ≡ s.hw → Added t r → Added s r
  Added-trans e (added u same) = added u (same ∙ e)
  Added-trans e (refused f) = refused f

  Added-then :
      {s : Pci H} {r : Run H (Unit {0})} {n : Cmd H (Unit {0})}
      → Added s r
      → ((t : Pci H) → Added t (n t))
      → Added s (and_then r (λ _. n))
  Added-then (added t same) next = Added-trans same (next t)
  Added-then (refused f) next = refused f

  add_all-Added : (l : List (Option PciDev)) (s : Pci H) → Added s (add_all l s)
  unfolding add_all
  add_all-Added [] s = added s refl
  add_all-Added (none ∷ l) s = refused too_deep
  add_all-Added (some p ∷ l) s = Added-then (add_dev-Added p s) (add_all-Added l)

  then_assoc :
      (r : Run H (Unit {0})) (m n k : Cmd H (Unit {0}))
      → ((t : Pci H) → k t ≡ and_then (m t) (λ _. n))
      → and_then r (λ _. k) ≡ and_then (and_then r (λ _. m)) (λ _. n)
  then_assoc (ok x t) m n k e = e t
  then_assoc (failed f) m n k e = refl

  add_all_append :
      (l k : List (Option PciDev)) (s : Pci H)
      → add_all (l ++ k) s ≡ and_then (add_all l s) (λ _. add_all k)
  unfolding add_all
  add_all_append [] k s = refl
  add_all_append (none ∷ l) k s = refl
  add_all_append (some p ∷ l) k s =
      then_assoc (add_dev p s) (add_all l) (add_all k) (add_all (l ++ k)) (add_all_append l k)

  with_twice :
      (a b : ℕ) (r : Run H (Unit {0})) → with_address a (with_address b r) ≡ with_address a r
  with_twice a b (ok x s) = refl
  with_twice a b (failed f) = refl

-- On the hardware `h`, a command does what adding the listing does, up to the address port.
abbrev pub Settles : {H : Type 0} → H → List (Option PciDev) → Cmd H (Unit {0}) → Type 0
Settles {H} h l m = (s : Pci H) → s.hw ≡ h → (a : ℕ) × (m s ≡ with_address a (add_all l s))

module _ {H : Type 0} (h : H) where
  pub Settles-nothing : Settles h [] (pure tt)
  unfolding add_all
  Settles-nothing s e = (s.address, refl)

  with_own : (r : Run H (Unit {0})) → (a : ℕ) × (r ≡ with_address a (and_then r (λ _. pure tt)))
  with_own (ok x t) = (t.address, refl)
  with_own (failed f) = (0, refl)

  pub Settles-add_dev : (p : PciDev) → Settles h (some p ∷ []) (add_dev p)
  unfolding add_all
  Settles-add_dev p s e = with_own (add_dev p s)

  pub Settles-moved :
      (l : List (Option PciDev)) {m : Cmd H (Unit {0})} (a : ℕ) (s : Pci H)
      → Settles h l m
      → s.hw ≡ h
      → (b : ℕ) × (m (record s { address = a }) ≡ with_address b (add_all l s))
  Settles-moved l a s settles e =
      let (b, run) = settles (record s { address = a }) e in
      (b, run ∙ ap (with_address b) (add_all_lem l a s) ∙ with_twice b a (add_all l s))

  glue :
      {s : Pci H} {r : Run H (Unit {0})} (a : ℕ) (k : List (Option PciDev)) {n : Cmd H (Unit {0})}
      → Added s r
      → Settles h k n
      → s.hw ≡ h
      → (b : ℕ) × (and_then (with_address a r) (λ _. n)
          ≡ with_address b (and_then r (λ _. add_all k)))
  glue a k (added t same) next e = Settles-moved k a t next (same ∙ e)
  glue a k (refused f) next e = (0, refl)

  pub Settles-append :
      (l k : List (Option PciDev)) {m n : Cmd H (Unit {0})}
      → Settles h l m
      → Settles h k n
      → Settles h (l ++ k) (m >> n)
  Settles-append l k first second s e =
      let (a, run) = first s e in
      rw (run, add_all_append l k s) (glue a k (add_all-Added l s) second e)

  pub Settles-if :
      (b : Bool) (l k : List (Option PciDev)) {m n : Cmd H (Unit {0})}
      → Settles h l m
      → Settles h k n
      → Settles h (if b then l else k) (if b then m else n)
  Settles-if true l k first second = first
  Settles-if false l k first second = second

  module _ (bridge : Bridge H) (bus dev func : ℕ) where
    pub Settles-word :
        (woff : ℕ) (l : List (Option PciDev)) (k : ℕ → Cmd H (Unit {0}))
        → Settles h l (k (word bridge h bus dev func woff))
        → Settles h l (read_word_at bridge bus dev func woff >>= k)
    Settles-word woff l k next s e =
        let (b, run) = Settles-moved l (mkaddr 1 bus dev func (woff / 2 * 4)) s next e in
        (
          b,
          ap (λ r. and_then r k) (read_word_lem bridge bus dev func s woff)
              ∙ ap
                  (λ g.
                    k (word bridge g bus dev func woff) (looked bridge s bus dev func (woff / 2)))
                  e
              ∙ run,
        )

    pub Settles-byte :
        (boff : ℕ) (l : List (Option PciDev)) (k : ℕ → Cmd H (Unit {0}))
        → Settles h l (k (byte bridge h bus dev func boff))
        → Settles h l (read_byte_at bridge bus dev func boff >>= k)
    Settles-byte boff l k next s e =
        let (b, run) = Settles-moved l (mkaddr 1 bus dev func (boff / 4 * 4)) s next e in
        (
          b,
          ap (λ r. and_then r k) (read_byte_lem bridge bus dev func s boff)
              ∙ ap
                  (λ g.
                    k (byte bridge g bus dev func boff) (looked bridge s bus dev func (boff / 4)))
                  e
              ∙ run,
        )
