-- ===== src/Pci/Tests.antt =====
-- Runs of the PCI access on a register file.
use model_lib.Base.{
  ℕ, ◌+◌, ◌-◌, ◌*◌, ◌%◌, ◌^◌, ◌≤◌, ◌<◌, ◌≡◌, ◌⊎◌, inl, inr, refl, ◌∙◌, arith, ◌==◌, Bool, true,
  false, Bool-cases, if◌then◌else◌, List, map, length, some, update, bit_or,
}
use model_lib.Pci.{
  Bridge, Pci, PciDev, ok, mkaddr, failed, out_of_bounds, read_word_at, write_word_at, prob_dev_at,
  pci_prob_dev, pci_get_dev,
}
use model_lib.Pci.Address.{mkaddr-sum}
use model_lib.Pci.Access.{looked, write_word-clobbers}
use model_lib.Pci.Listing.{listing, add_all}
use model_lib.Pci.Settles.{with_address}
use model_lib.Pci.Probe.{prob_dev-listing}
use model_lib.Pci.Table.{Extended, Ascending, pci_prob_dev-Extended}

-- Every address is a register that keeps what is written to it.
abbrev registers : Bridge (ℕ → ℕ)
registers = record { data_in = λ h a. h a; data_out = update }

abbrev no_device : PciDev
no_device = record {
  bus = 0;
  dev = 0;
  fun = 0;
  hdr = record {
    vendorid = 0;
    deviceid = 0;
    command = 0;
    status = 0;
    revisonid = 0;
    progif = 0;
    subclass = 0;
    class = 0;
    cachelinesz = 0;
    latencytimer = 0;
    headertype = 0;
    bist = 0;
  };
}

-- One device, in slot 0 of bus 0.
abbrev one_device : Pci (ℕ → ℕ)
one_device = record {
  npcidev = 0;
  pcidevs = λ i. no_device;
  address = 0;
  hw = λ a. if a == 0x80000000 then 0x12378086 else 0xffffffff;
}

-- A bridge in slot 1 of bus 0, and a device behind it in slot 0 of bus 1. The last is the register of the
-- bridge with the number of its secondary bus.
abbrev bridged : Pci (ℕ → ℕ)
bridged = record one_device {
  hw = λ a.
      if a == 0x80000800
      then 0x12378086
      else if a == 0x80000808
      then 0x04060000
      else if a == 0x80010000
      then 0x70108086
      else if a == 0x80000818
      then 0x100
      else 0xffffffff;
}

masked : (bus dev fun off : ℕ) → mkaddr 1 bus dev fun off ≡ mkaddr 1 bus (dev % 32) (fun % 8) off
unfolding mkaddr
masked bus dev fun off =
    let d : dev % 32 % 32 ≡ dev % 32 = omega arith in
    let f : fun % 8 % 8 ≡ fun % 8 = omega arith in rw (d, f) refl

address :
    (bus dev fun off : ℕ)
    → bus < 256
    → off < 256
    → mkaddr 1 bus dev fun off
      ≡ (((2 ^ 15 + bus) * 2 ^ 5 + dev % 32) * 2 ^ 3 + fun % 8) * 2 ^ 8 + off
address bus dev fun off hb ho =
    masked bus dev fun off
    ∙ mkaddr-sum 1 bus (dev % 32) (fun % 8) off (omega arith) hb (omega arith) (omega arith) ho

bridged-Ascending : Ascending registers bridged.hw
bridged-Ascending bus dev fun small h =
    let class_at = address bus dev fun 8 small (omega arith) in
    let bus_at = address bus dev fun 24 small (omega arith) in
    elim (Bool-cases (mkaddr 1 bus dev fun 8 == 0x80000808)) [
      | inl here ↦
          let zero_bus : bus ≡ 0 = ground (arith, class_at) in
          let secondary : mkaddr 1 bus dev fun 24 ≡ 0x80000818 = ground (arith, class_at, bus_at) in
          rw secondary (omega (arith, zero_bus))
      | inr away ↦
          let a : (mkaddr 1 bus dev fun 8 == 0x80000800) ≡ false = ground (arith, class_at) in
          let b : (mkaddr 1 bus dev fun 8 == 0x80010000) ≡ false = ground (arith, class_at) in
          let c : (mkaddr 1 bus dev fun 8 == 0x80000818) ≡ false = ground (arith, class_at) in
          let no : ◌≡◌ {A = Bool} false true = rw (a, away, b, c) at h in absurd (ground arith)
    ]

pci_prob_dev-Extended_example :
    (devs : List PciDev) × (listing registers bridged.hw 256 0 ≡ map some devs)
    × (((bridged.npcidev + length devs ≤ 10)
          × ((t : Pci (ℕ → ℕ)) × (pci_prob_dev registers 256 bridged ≡ ok tt t)
              × Extended bridged devs t))
        ⊎ ((10 < bridged.npcidev + length devs)
            × (pci_prob_dev registers 256 bridged ≡ failed out_of_bounds)))
pci_prob_dev-Extended_example =
    pci_prob_dev-Extended registers bridged bridged-Ascending (omega arith)

prob_dev-listing_example :
    (a : ℕ) × (prob_dev_at registers 2 0 one_device
      ≡ with_address a (add_all (listing registers one_device.hw 2 0) one_device))
prob_dev-listing_example = prob_dev-listing registers 2 0 one_device

-- The command register, word 2.
write_word-clobbers_example :
    (t : Pci (ℕ → ℕ)) × (old : ℕ) × (write_word_at registers 0 0 0 (2 * 1 + 0) 5 one_device
      ≡ ok tt t)
    × (read_word_at registers 0 0 0 (2 * 1 + 0) one_device
        ≡ ok old (looked registers one_device 0 0 0 1))
    × (read_word_at registers 0 0 0 (2 * 1 + 0) t ≡ ok (bit_or old 5) t)
    × (read_word_at registers 0 0 0 (2 * 1 + (1 - 0)) t ≡ ok 0 t)
write_word-clobbers_example =
    write_word-clobbers registers 0 0 0 1 0 5 one_device (omega arith) (omega arith)
      λ dw h. ground arith

-- Two entries, the second of them an IDE controller.
abbrev two_devices : Pci (ℕ → ℕ)
two_devices = record one_device {
  npcidev = 2;
  pcidevs = λ i.
      if i == 1
      then record no_device { hdr = record no_device.hdr { vendorid = 0x8086; deviceid = 0x7010 } }
      else no_device;
}

second : pci_get_dev 0x8086 0x7010 two_devices ≡ some 1
unfolding pci_get_dev
second = refl
