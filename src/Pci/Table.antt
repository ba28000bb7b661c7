-- ===== src/Pci/Table.antt =====
-- The table of devices after the probe.
use model_lib.Base.{
  ℕ, zero, suc, ◌+◌, ◌≤◌, ◌<◌, ◌≡◌, refl, arith, ap, ◌∙◌, sym, ◌==◌, if◌then◌else◌, Bool, true,
  false, List, [], ◌∷◌, ◌++◌, map, length, get_elem?, Option, some, ltb, leb, ◌⊎◌, inl, inr,
  Bool-cases, update,
}
use model_lib.Pci.{
  Bridge, Pci, PciDev, ok, failed, out_of_bounds, add_dev, is_bridge, ndev_per_bus, pci_prob_dev,
}
use model_lib.Pci.Access.{byte}
use model_lib.Pci.Listing.{
  upto, concat_map, entry, absent, nfun, below, at_fun, at_dev, listing, add_all,
}
use model_lib.Pci.Settles.{with_address}
use model_lib.Pci.Probe.{prob_dev-listing}

-- The entries of `l` are in the table behind those that were there.
pub record Extended {H : Type 0} (s : Pci H) (l : List PciDev) (t : Pci H) : Type 0 where
  pub npcidev : t.npcidev ≡ s.npcidev + length l
  pub hw : t.hw ≡ s.hw
  pub new : (i : ℕ) (p : PciDev) → get_elem? l i ≡ some p → t.pcidevs (s.npcidev + i) ≡ p
  pub old : (i : ℕ) → i < s.npcidev → t.pcidevs i ≡ s.pcidevs i

module _ {H : Type 0} where
  abbrev pushed : Pci H → PciDev → Pci H
  pushed s p = record s { npcidev = s.npcidev + 1; pcidevs = update s.pcidevs s.npcidev p }

  add_dev-ok : (p : PciDev) (s : Pci H) → s.npcidev < 10 → add_dev p s ≡ ok tt (pushed s p)
  unfolding add_dev
  add_dev-ok p s h = let room : ltb s.npcidev 10 ≡ true = ground arith in rw room refl

  Extended-cons :
      (s : Pci H) (p : PciDev) (l : List PciDev) (t : Pci H)
      → Extended (pushed s p) l t
      → Extended s (p ∷ l) t
  Extended-cons s p l t e = record {
    npcidev = omega (arith, e.npcidev);
    hw = e.hw;
    new = new;
    old = λ i h.
        e.old i (omega arith)
        ∙ (let miss : (i == s.npcidev) ≡ false = ground arith in rw miss refl);
  }
    where
      new : (i : ℕ) (q : PciDev) → get_elem? (p ∷ l) i ≡ some q → t.pcidevs (s.npcidev + i) ≡ q
      new zero q h =
          ap t.pcidevs (omega arith)
          ∙ e.old s.npcidev (omega arith)
          ∙ (let hit : (s.npcidev == s.npcidev) ≡ true = ground arith in rw hit refl)
          ∙ (let same : p ≡ q = cc in same)
      new (suc i) q h = ap t.pcidevs (omega arith) ∙ e.new i q h

  add_all-Extended :
      (l : List PciDev) (s : Pci H)
      → s.npcidev + length l ≤ 10
      → (t : Pci H) × (add_all (map some l) s ≡ ok tt t) × Extended s l t
  unfolding add_all
  add_all-Extended [] s h =
      (s, refl, record { npcidev = omega arith; hw = refl; new = λ i p k. cc; old = λ i k. refl })
  add_all-Extended (p ∷ l) s h =
      let (t, run, e) = add_all-Extended l (pushed s p) (omega arith) in
      (t, rw (add_dev-ok p s (omega arith)) run, Extended-cons s p l t e)

  add_all-full :
      (l : List PciDev) (s : Pci H)
      → s.npcidev ≤ 10
      → 10 < s.npcidev + length l
      → add_all (map some l) s ≡ failed out_of_bounds
  unfolding add_all add_dev
  add_all-full [] s small h = absurd (omega arith)
  add_all-full (p ∷ l) s small h = elim (Bool-cases (ltb s.npcidev 10)) [
    | inl room ↦ rw room (add_all-full l (pushed s p) (ground arith) (omega arith))
    | inr full ↦ rw full refl
  ]

-- A listing that the fuel was enough for.
abbrev Whole : List (Option PciDev) → Type 0
Whole l = (devs : List PciDev) × (l ≡ map some devs)

map_append :
    (xs ys : List PciDev) → map some (xs ++ ys) ≡ map some xs ++ map {B = Option PciDev} some ys
map_append [] ys = refl
map_append (x ∷ xs) ys = ap (λ l. some x ∷ l) (map_append xs ys)

Whole-append : (l k : List (Option PciDev)) → Whole l → Whole k → Whole (l ++ k)
Whole-append l k (xs, e) (ys, f) = (xs ++ ys, rw (e, f) (sym (map_append xs ys)))

Whole-concat_map :
    (f : ℕ → List (Option PciDev)) (ns : List ℕ) → ((n : ℕ) → Whole (f n)) → Whole (concat_map f ns)
unfolding concat_map
Whole-concat_map f [] each = ([], refl)
Whole-concat_map f (n ∷ ns) each =
    Whole-append (f n) (concat_map f ns) (each n) (Whole-concat_map f ns each)

Whole-unless :
    (b : Bool) (l : List (Option PciDev)) → (b ≡ false → Whole l) → Whole (if b then [] else l)
Whole-unless true l rest = ([], refl)
Whole-unless false l rest = rest refl

-- Each bridge on one of the 256 buses leads to a bus with a greater number.
abbrev pub Ascending : {H : Type 0} → Bridge H → H → Type 0
Ascending bridge h =
    (bus dev fun : ℕ)
    → bus < 256
    → is_bridge (entry bridge h bus dev fun) ≡ true
    → bus < byte bridge h bus dev fun 25

module _ {H : Type 0} (bridge : Bridge H) (h : H) (ascending : Ascending bridge h) where
  below-Whole :
      (list : ℕ → List (Option PciDev)) (bus dev fun : ℕ) (b : Bool)
      → (b ≡ true → bus < byte bridge h bus dev fun 25)
      → ((next : ℕ) → bus < next → next < 256 → Whole (list next))
      → Whole (below bridge h list bus dev fun b)
  unfolding below
  below-Whole list bus dev fun false up each = ([], refl)
  below-Whole list bus dev fun true up each =
      each (byte bridge h bus dev fun 25) (up refl) (omega arith)

  at_fun-Whole :
      (list : ℕ → List (Option PciDev)) (bus dev fun : ℕ)
      → bus < 256
      → ((next : ℕ) → bus < next → next < 256 → Whole (list next))
      → Whole (at_fun bridge h list bus dev fun)
  unfolding at_fun
  at_fun-Whole list bus dev fun small each = Whole-unless (absent bridge h bus dev fun) _ λ present.
      let p : PciDev = entry bridge h bus dev fun in
      let (devs, e) =
        below-Whole list bus dev fun (is_bridge (entry bridge h bus dev fun))
          (ascending bus dev fun small) each in
      (entry bridge h bus dev fun ∷ devs, ap (λ l. some (entry bridge h bus dev fun) ∷ l) e)

  at_dev-Whole :
      (list : ℕ → List (Option PciDev)) (bus dev : ℕ)
      → bus < 256
      → ((next : ℕ) → bus < next → next < 256 → Whole (list next))
      → Whole (at_dev bridge h list bus dev)
  unfolding at_dev
  at_dev-Whole list bus dev small each = Whole-unless (absent bridge h bus dev 0) _ λ present.
      Whole-concat_map (at_fun bridge h list bus dev) (upto (nfun bridge h bus dev) 0)
        (λ fun. at_fun-Whole list bus dev fun small each)

  listing-Whole :
      (depth bus : ℕ) → bus < 256 → 256 ≤ depth + bus → Whole (listing bridge h depth bus)
  unfolding listing
  listing-Whole zero bus small enough = absurd (omega arith)
  listing-Whole (suc depth) bus small enough =
      Whole-concat_map (at_dev bridge h (listing bridge h depth) bus) (upto ndev_per_bus 0) λ dev.
        at_dev-Whole (listing bridge h depth) bus dev small
          λ next up byte_size. listing-Whole depth next byte_size (omega arith)

-- Where each bridge on a bus below 256 leads to a bus with a greater number, a depth of 256 is enough for `pci_prob_dev`. From a
-- table that has room, it puts the functions behind bus 0 in the table, in the order of their
-- listing and behind the entries that are there, if they have room, and else it writes past the
-- table. It leaves the hardware alone.
pub pci_prob_dev-Extended :
    {H : Type 0} (bridge : Bridge H) (s : Pci H)
    → Ascending bridge s.hw
    → s.npcidev ≤ 10
    → (devs : List PciDev) × (listing bridge s.hw 256 0 ≡ map some devs)
      × (((s.npcidev + length devs ≤ 10)
            × ((t : Pci H) × (pci_prob_dev bridge 256 s ≡ ok tt t) × Extended s devs t))
          ⊎ ((10 < s.npcidev + length devs) × (pci_prob_dev bridge 256 s ≡ failed out_of_bounds)))
unfolding pci_prob_dev
pci_prob_dev-Extended bridge s ascending small =
    let (devs, whole) = listing-Whole bridge s.hw ascending 256 0 (omega arith) (omega arith) in
    let (a, run) = prob_dev-listing bridge 256 0 s in
    (
      devs,
      whole,
      elim (Bool-cases (leb (s.npcidev + length devs) 10)) [
        | inl room ↦
            let (t, add, e) = add_all-Extended devs s (ground arith) in
            inl (
              ground arith,
              (
                record t { address = a },
                run ∙ ap (with_address a) (ap (λ l. add_all l s) whole ∙ add),
                record { npcidev = e.npcidev; hw = e.hw; new = e.new; old = e.old },
              ),
            )
        | inr full ↦ inr (
          ground arith,
          run
              ∙ ap (with_address a)
                  (ap (λ l. add_all l s) whole ∙ add_all-full devs s small (ground arith)),
        )
      ],
    )
