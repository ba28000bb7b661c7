-- ===== src/Pci/Address.antt =====
-- The value that `mkaddr` of grab/pci.c writes to the address port.
use model_lib.Base.{ℕ, ◌+◌, ◌*◌, ◌/◌, ◌%◌, ◌^◌, ◌<◌, ◌≡◌, arith, ◌∙◌, bit_or, bit_or-apart}
use model_lib.Pci.{mkaddr}

-- The fields of an address that reaches a register within the first 256 bytes do not overlap.
pub mkaddr-sum :
    (enable bus dev func off : ℕ)
    → enable < 2
    → bus < 256
    → dev < 32
    → func < 8
    → off < 256
    → mkaddr enable bus dev func off
      ≡ (((enable * 2 ^ 15 + bus) * 2 ^ 5 + dev) * 2 ^ 3 + func) * 2 ^ 8 + off
unfolding mkaddr
mkaddr-sum enable bus dev func off he hb hd hf ho =
    let e : enable % 2 ≡ enable = omega arith in
    let b : bus % 256 ≡ bus = omega arith in
    let d : dev % 32 ≡ dev = omega arith in
    let f : func % 8 ≡ func = omega arith in
    let with_bus : bit_or (enable * 2 ^ 31) (bus * 2 ^ 16) ≡ (enable * 2 ^ 15 + bus) * 2 ^ 16 =
      bit_or-apart 31 enable (bus * 2 ^ 16) (omega arith) ∙ omega arith in
    let with_dev : bit_or ((enable * 2 ^ 15 + bus) * 2 ^ 16) (dev * 2 ^ 11)
        ≡ ((enable * 2 ^ 15 + bus) * 2 ^ 5 + dev) * 2 ^ 11 =
      bit_or-apart 16 (enable * 2 ^ 15 + bus) (dev * 2 ^ 11) (omega arith) ∙ omega arith in
    let with_func : bit_or (((enable * 2 ^ 15 + bus) * 2 ^ 5 + dev) * 2 ^ 11) (func * 2 ^ 8)
        ≡ (((enable * 2 ^ 15 + bus) * 2 ^ 5 + dev) * 2 ^ 3 + func) * 2 ^ 8 =
      bit_or-apart 11 ((enable * 2 ^ 15 + bus) * 2 ^ 5 + dev) (func * 2 ^ 8) (omega arith)
      ∙ omega arith in
    rw (e, b, d, f, with_bus, with_dev, with_func)
      (bit_or-apart 8 (((enable * 2 ^ 15 + bus) * 2 ^ 5 + dev) * 2 ^ 3 + func) off ho)

-- The fields that grab/pci.c lists for an address are read back from what `mkaddr` gives for a bus, a device, a function and an offset
-- in their ranges: bit 31, the bits 23 to 16, 15 to 11, 10 to 8 and 7 to 0.
pub mkaddr-fields :
    (bus dev func off : ℕ)
    → bus < 256
    → dev < 32
    → func < 8
    → off < 256
    → (mkaddr 1 bus dev func off / 2 ^ 31 ≡ 1)
      × (mkaddr 1 bus dev func off / 2 ^ 16 % 256 ≡ bus)
      × (mkaddr 1 bus dev func off / 2 ^ 11 % 32 ≡ dev)
      × (mkaddr 1 bus dev func off / 2 ^ 8 % 8 ≡ func)
      × (mkaddr 1 bus dev func off % 256 ≡ off)
mkaddr-fields bus dev func off hb hd hf ho =
    let sum = mkaddr-sum 1 bus dev func off (omega arith) hb hd hf ho in
    (
      omega (arith, sum),
      omega (arith, sum),
      omega (arith, sum),
      omega (arith, sum),
      omega (arith, sum),
    )
