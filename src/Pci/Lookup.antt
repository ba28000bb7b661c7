-- ===== src/Pci/Lookup.antt =====
-- `pci_get_dev` gives the first device of the table with the two numbers.
use mathlib.Core.Path.{subst}
use model_lib.Base.{
  ℕ, zero, suc, ◌+◌, ◌≤◌, ◌<◌, ◌≡◌, arith, ◌==◌, ◌&&◌, Option, none, some, inl, inr, Bool-cases,
}
use model_lib.Pci.{Pci, PciDev, pci_get_dev, get_dev_loop}

-- What the device is asked for.
abbrev pub Matches : (ℕ → PciDev) → ℕ → ℕ → ℕ → Type 0
Matches pcidevs vendorid deviceid i =
    ((pcidevs i).hdr.vendorid ≡ vendorid) × ((pcidevs i).hdr.deviceid ≡ deviceid)

-- The outcome of a search among the entries from `i` to before `n`.
pub data First (P : ℕ → Type 0) (i n : ℕ) : Option ℕ → Type 0 where
  first : (j : ℕ) → i ≤ j → j < n → P j → ((k : ℕ) → i ≤ k → k < j → P k → ⊥) → First P i n (some j)
  nowhere : ((k : ℕ) → i ≤ k → k < n → P k → ⊥) → First P i n none

module _ (P : ℕ → Type 0) where
  later : (i k : ℕ) → (P i → ⊥) → i ≤ k → (i + 1 ≤ k → P k → ⊥) → P k → ⊥
  later i k miss lo rest p = elim (Bool-cases (k == i)) [
    | inl here ↦ miss (subst P (let e : k ≡ i = ground arith in e) p)
    | inr above ↦ rest (ground arith) p
  ]

  First-after : {i n : ℕ} {r : Option ℕ} → (P i → ⊥) → First P (i + 1) n r → First P i n r
  First-after {i} miss (first j lo hi here before) =
      first j (omega arith) hi here λ k a b p. later i k miss a (λ c. before k c b) p
  First-after {i} miss (nowhere all) = nowhere λ k a b p. later i k miss a (λ c. all k c b) p

get_dev_loop-First :
    (pcidevs : ℕ → PciDev) (vendorid deviceid rounds i n : ℕ)
    → i + rounds ≡ n
    → First
        (Matches pcidevs vendorid deviceid)
        i
        n
        (get_dev_loop rounds pcidevs vendorid deviceid i)
unfolding get_dev_loop
get_dev_loop-First pcidevs vendorid deviceid zero i n e = nowhere λ k a b p. omega arith
get_dev_loop-First pcidevs vendorid deviceid (suc rounds) i n e =
    elim (Bool-cases
      (vendorid == (pcidevs i).hdr.vendorid && deviceid == (pcidevs i).hdr.deviceid)) [
        | inl hit ↦ rw hit (
            first i (omega arith) (omega arith) (ground arith, ground arith) λ k a b p. omega arith)
        | inr miss ↦ rw miss (
            First-after (Matches pcidevs vendorid deviceid) (λ (v, d). ground arith)
              (get_dev_loop-First pcidevs vendorid deviceid rounds (i + 1) n (omega arith)))
      ]

-- `pci_get_dev` gives the handle of the first device in the table that has the vendor and the device
-- number, or -1 if no device of the table has both.
pub pci_get_dev-First :
    {H : Type 0} (vendorid deviceid : ℕ) (s : Pci H)
    → First (Matches s.pcidevs vendorid deviceid) 0 s.npcidev (pci_get_dev vendorid deviceid s)
unfolding pci_get_dev
pci_get_dev-First vendorid deviceid s =
    get_dev_loop-First s.pcidevs vendorid deviceid s.npcidev 0 s.npcidev (omega arith)
