-- ===== src/Pci.antt =====
-- The PCI access of grab/pci.c: the two ports of the host bridge, the reads and writes of the
-- configuration space, and the table of the devices that the probe finds. The bridge and what is
-- behind it is a parameter. The table that `pci_list` prints is left out.
pub mod Address
pub mod Access
pub mod Listing
pub mod Settles
pub mod Probe
pub mod Table
pub mod Lookup
mod Tests
use model_lib.Base.{
  ℕ, zero, suc, ◌+◌, ◌-◌, ◌*◌, ◌/◌, ◌%◌, ◌^◌, Bool, true, false, not, ◌==◌, ◌&&◌, ltb, leb,
  if◌then◌else◌, u8, u16, u32, Option, none, some, update, bit_and, bit_or,
}

-- The hardware: what `inl` from the data port gives, and what `outl` to it leaves, while the address
-- port holds a value. A read changes nothing.
pub record Bridge (H : Type 0) : Type 0 where
  pub data_in : H → ℕ → ℕ
  pub data_out : H → ℕ → ℕ → H

pub record PciHdr : Type 0 where
  pub vendorid : ℕ
  pub deviceid : ℕ
  pub command : ℕ
  pub status : ℕ
  pub revisonid : ℕ
  pub progif : ℕ
  pub subclass : ℕ
  pub class : ℕ
  pub cachelinesz : ℕ
  pub latencytimer : ℕ
  pub headertype : ℕ
  pub bist : ℕ

pub record PciDev : Type 0 where
  pub bus : ℕ
  pub dev : ℕ
  pub fun : ℕ
  pub hdr : PciHdr

-- The statics of pci.c, the address port, and the hardware.
pub record Pci (H : Type 0) : Type 0 where
  pub npcidev : ℕ
  pub pcidevs : ℕ → PciDev
  pub address : ℕ
  pub hw : H

-- Why a call does not return: the endless loop of `assert`, an index past an array, a shift by the
-- width of an `int` or more, a recursion deeper than the fuel.
pub data Fault : Type 0 where
  asserted : Fault
  out_of_bounds : Fault
  wide_shift : Fault
  too_deep : Fault

pub data Run (H A : Type 0) : Type 0 where
  ok : A → Pci H → Run H A
  failed : Fault → Run H A

abbrev pub Cmd : Type 0 → Type 0 → Type 0
Cmd H A = Pci H → Run H A

module _ {H : Type 0} where
  abbrev pub pure : {A : Type 0} → A → Cmd H A
  pure = ok

  abbrev pub fail : {A : Type 0} → Fault → Cmd H A
  fail f s = failed f

  module _ {A B : Type 0} where
    abbrev pub and_then : Run H A → (A → Cmd H B) → Run H B
    and_then (ok a s) k = k a s
    and_then (failed f) k = failed f

    infixl 5 ◌>>=◌ ◌>>◌
    abbrev pub ◌>>=◌ : Cmd H A → (A → Cmd H B) → Cmd H B
    ◌>>=◌ m k s = and_then (m s) k

    abbrev pub ◌>>◌ : Cmd H A → Cmd H B → Cmd H B
    ◌>>◌ m n s = and_then (m s) (λ _. n)

  abbrev pub get : Cmd H (Pci H)
  get s = ok s s

  abbrev pub assert : Bool → Cmd H (Unit {0})
  assert true = pure tt
  assert false = fail asserted

abbrev pub ndev_per_bus : ℕ
ndev_per_bus = 32

abbrev pub nfun_per_dev : ℕ
nfun_per_dev = 8

abbrev pub class_bridge : ℕ
class_bridge = 4

abbrev pub subclass_pci2pci : ℕ
subclass_pci2pci = 6

abbrev pub nullvendor : ℕ
nullvendor = 0xffff

abbrev pub npcidev_max : ℕ
npcidev_max = 10

-- The masks of low bits are remainders.
pub mkaddr : ℕ → ℕ → ℕ → ℕ → ℕ → ℕ
mkaddr enable bus dev func off =
    bit_or
      (bit_or (bit_or (bit_or (enable % 2 * 2 ^ 31) (bus % 256 * 2 ^ 16)) (dev % 32 * 2 ^ 11))
        (func % 8 * 2 ^ 8))
      off

-- `pcidevs[npcidev++] = p`
pub add_dev : {H : Type 0} → PciDev → Cmd H (Unit {0})
add_dev p s =
    if ltb s.npcidev npcidev_max
    then ok tt (record s { npcidev = s.npcidev + 1; pcidevs = update s.pcidevs s.npcidev p })
    else failed out_of_bounds

abbrev pub is_bridge : PciDev → Bool
is_bridge p = p.hdr.class == class_bridge && p.hdr.subclass == subclass_pci2pci

module _ {H : Type 0} (bridge : Bridge H) where
  abbrev pub outl_addr : ℕ → Cmd H (Unit {0})
  outl_addr a s = ok tt (record s { address = a })

  abbrev pub inl_data : Cmd H ℕ
  inl_data s = ok (u32 (bridge.data_in s.hw s.address)) s

  abbrev pub outl_data : ℕ → Cmd H (Unit {0})
  outl_data v s = ok tt (record s { hw = bridge.data_out s.hw s.address v })

  -- `_pci_read_dword` and the other functions that take a location.
  pub read_dword_at : ℕ → ℕ → ℕ → ℕ → Cmd H ℕ
  read_dword_at bus dev func dwoff = outl_addr (mkaddr 1 bus dev func (dwoff * 4)) >> inl_data

  pub write_dword_at : ℕ → ℕ → ℕ → ℕ → ℕ → Cmd H (Unit {0})
  write_dword_at bus dev func dwoff v = outl_addr (mkaddr 1 bus dev func (dwoff * 4)) >> outl_data v

  pub read_word_at : ℕ → ℕ → ℕ → ℕ → Cmd H ℕ
  read_word_at bus dev func woff = do
    dw ← read_dword_at bus dev func (woff / 2)
    pure (u16 (dw / 2 ^ (16 * (woff % 2))))

  pub write_word_at : ℕ → ℕ → ℕ → ℕ → ℕ → Cmd H (Unit {0})
  write_word_at bus dev func woff v = do
    dw ← read_dword_at bus dev func (woff / 2)
    write_dword_at bus dev func (woff / 2)
        (bit_or (bit_and dw (0xffff * 2 ^ (16 * (woff % 2)))) (v * 2 ^ (16 * (woff % 2))))

  pub read_byte_at : ℕ → ℕ → ℕ → ℕ → Cmd H ℕ
  read_byte_at bus dev func boff = do
    dw ← read_dword_at bus dev func (boff / 4)
    pure (u8 (dw / 2 ^ (8 * (boff % 4))))

  -- The data is shifted by `16 * (boff % 4)`, which is too wide for the upper two bytes.
  pub write_byte_at : ℕ → ℕ → ℕ → ℕ → ℕ → Cmd H (Unit {0})
  write_byte_at bus dev func boff v = do
    dw ← read_dword_at bus dev func (boff / 4)
    if leb 2 (boff % 4)
        then fail wide_shift
        else write_dword_at bus dev func (boff / 4)
            (bit_or (bit_and dw (0xff * 2 ^ (8 * (boff % 4)))) (v * 2 ^ (16 * (boff % 4))))

  -- What the probe reads of a function.
  pub read_dev : ℕ → ℕ → ℕ → Cmd H PciDev
  read_dev bus dev fun = do
    vendorid ← read_word_at bus dev fun 0
    deviceid ← read_word_at bus dev fun 1
    status ← read_word_at bus dev fun 3
    revisonid ← read_byte_at bus dev fun 8
    progif ← read_byte_at bus dev fun 9
    subclass ← read_byte_at bus dev fun 10
    class ← read_byte_at bus dev fun 11
    cachelinesz ← read_byte_at bus dev fun 12
    latencytimer ← read_byte_at bus dev fun 13
    headertype ← read_byte_at bus dev fun 14
    bist ← read_byte_at bus dev fun 15
    pure (record {
      bus = bus;
      dev = dev;
      fun = fun;
      hdr = record {
        vendorid = vendorid;
        deviceid = deviceid;
        command = 0;
        status = status;
        revisonid = revisonid;
        progif = progif;
        subclass = subclass;
        class = class;
        cachelinesz = cachelinesz;
        latencytimer = latencytimer;
        headertype = headertype;
        bist = bist;
      };
    })

  -- A bridge has its secondary bus probed: `deeper` is that probe.
  pub descend : (ℕ → Cmd H (Unit {0})) → ℕ → ℕ → ℕ → Bool → Cmd H (Unit {0})
  descend deeper bus dev fun false = pure tt
  descend deeper bus dev fun true = do
    secondarybus ← read_byte_at bus dev fun 25
    deeper secondarybus

  -- The body of the loop over the functions, for one that is there.
  pub add_fun : (ℕ → Cmd H (Unit {0})) → ℕ → ℕ → ℕ → Cmd H (Unit {0})
  add_fun deeper bus dev fun = do
    p ← read_dev bus dev fun
    add_dev p
    descend deeper bus dev fun (is_bridge p)

  pub probe_fun : (ℕ → Cmd H (Unit {0})) → ℕ → ℕ → ℕ → Cmd H (Unit {0})
  probe_fun deeper bus dev fun = do
    vendor ← read_word_at bus dev fun 0
    if vendor == nullvendor then pure tt else add_fun deeper bus dev fun

  fun_loop : ℕ → (ℕ → Cmd H (Unit {0})) → ℕ → ℕ → ℕ → Cmd H (Unit {0})
  fun_loop zero deeper bus dev fun = pure tt
  fun_loop (suc rounds) deeper bus dev fun =
      probe_fun deeper bus dev fun >> fun_loop rounds deeper bus dev (fun + 1)

  -- The body of the loop over the devices.
  probe_slot : (ℕ → Cmd H (Unit {0})) → ℕ → ℕ → Cmd H (Unit {0})
  probe_slot deeper bus dev = do
    vendor ← read_word_at bus dev 0 0
    if vendor == nullvendor then pure tt else do
      headertype ← read_byte_at bus dev 0 14
      fun_loop (if headertype / 128 % 2 == 0 then 1 else nfun_per_dev) deeper bus dev 0

  dev_loop : ℕ → (ℕ → Cmd H (Unit {0})) → ℕ → ℕ → Cmd H (Unit {0})
  dev_loop zero deeper bus dev = pure tt
  dev_loop (suc rounds) deeper bus dev =
      probe_slot deeper bus dev >> dev_loop rounds deeper bus (dev + 1)

  -- `_pci_prob_dev`, with fuel for the depth of the buses.
  pub prob_dev_at : ℕ → ℕ → Cmd H (Unit {0})
  prob_dev_at zero bus = fail too_deep
  prob_dev_at (suc depth) bus = dev_loop ndev_per_bus (prob_dev_at depth) bus 0

  pub pci_prob_dev : ℕ → Cmd H (Unit {0})
  pci_prob_dev depth = prob_dev_at depth 0

-- The loop of `pci_get_dev`, with `rounds` entries left; `none` is -1.
get_dev_loop : ℕ → (ℕ → PciDev) → ℕ → ℕ → ℕ → Option ℕ
get_dev_loop zero pcidevs vendorid deviceid i = none
get_dev_loop (suc rounds) pcidevs vendorid deviceid i =
    let rest = get_dev_loop rounds pcidevs vendorid deviceid (i + 1) in
    if vendorid == (pcidevs i).hdr.vendorid && deviceid == (pcidevs i).hdr.deviceid
    then some i
    else rest

pub pci_get_dev : {H : Type 0} → ℕ → ℕ → Pci H → Option ℕ
unfolding get_dev_loop
pci_get_dev vendorid deviceid s = get_dev_loop s.npcidev s.pcidevs vendorid deviceid 0

module _ {H : Type 0} (bridge : Bridge H) where
  -- The test of every function that takes a handle, and the entry behind it. The handle is a natural
  -- number here: -1 would pass the first test of the source.
  abbrev pub device : ℕ → Cmd H PciDev
  device dev s =
      and_then (assert {H = H} (ltb dev s.npcidev && not ((s.pcidevs dev).hdr.vendorid == 0)) s)
        (λ _. pure (s.pcidevs dev))

  pub pci_read_dword : ℕ → ℕ → Cmd H ℕ
  pci_read_dword dev dwoff = do p ← device dev; read_dword_at bridge p.bus p.dev p.fun dwoff

  pub pci_write_dword : ℕ → ℕ → ℕ → Cmd H (Unit {0})
  pci_write_dword dev dwoff v = do p ← device dev; write_dword_at bridge p.bus p.dev p.fun dwoff v

  pub pci_read_word : ℕ → ℕ → Cmd H ℕ
  pci_read_word dev woff = do p ← device dev; read_word_at bridge p.bus p.dev p.fun woff

  pub pci_write_word : ℕ → ℕ → ℕ → Cmd H (Unit {0})
  pci_write_word dev woff v = do p ← device dev; write_word_at bridge p.bus p.dev p.fun woff v

  pub pci_read_byte : ℕ → ℕ → Cmd H ℕ
  pci_read_byte dev boff = do p ← device dev; read_byte_at bridge p.bus p.dev p.fun boff

  pub pci_write_byte : ℕ → ℕ → ℕ → Cmd H (Unit {0})
  pci_write_byte dev boff v = do p ← device dev; write_byte_at bridge p.bus p.dev p.fun boff v

  pub pci_read_hdr : ℕ → Cmd H PciHdr
  pci_read_hdr dev = do p ← device dev; pure p.hdr
