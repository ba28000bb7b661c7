-- ===== src/Pci/Listing.antt =====
-- The functions behind a PCI bus, as a list: what the probe of grab/pci.c is to find, with no table
-- and no address port.
use model_lib.Base.{
  ℕ, zero, suc, ◌+◌, ◌/◌, ◌%◌, ◌==◌, if◌then◌else◌, Bool, true, false, List, [], ◌∷◌, ◌++◌, Option,
  none, some,
}
use model_lib.Pci.{
  Bridge, PciDev, Cmd, too_deep, pure, fail, ◌>>◌, add_dev, is_bridge, nfun_per_dev, ndev_per_bus,
  nullvendor,
}
use model_lib.Pci.Access.{word, byte}

-- `rounds` numbers from `i` on.
unfoldable pub upto : ℕ → ℕ → List ℕ
upto zero i = []
upto (suc rounds) i = i ∷ upto rounds (i + 1)

unfoldable pub concat_map {ℓ} : {A : Type ℓ} → (ℕ → List A) → List ℕ → List A
concat_map f [] = []
concat_map f (n ∷ ns) = f n ++ concat_map f ns

module _ {H : Type 0} (bridge : Bridge H) (h : H) where
  -- The entry for a function.
  abbrev pub entry : ℕ → ℕ → ℕ → PciDev
  entry bus dev fun = record {
    bus = bus;
    dev = dev;
    fun = fun;
    hdr = record {
      vendorid = word bridge h bus dev fun 0;
      deviceid = word bridge h bus dev fun 1;
      command = 0;
      status = word bridge h bus dev fun 3;
      revisonid = byte bridge h bus dev fun 8;
      progif = byte bridge h bus dev fun 9;
      subclass = byte bridge h bus dev fun 10;
      class = byte bridge h bus dev fun 11;
      cachelinesz = byte bridge h bus dev fun 12;
      latencytimer = byte bridge h bus dev fun 13;
      headertype = byte bridge h bus dev fun 14;
      bist = byte bridge h bus dev fun 15;
    };
  }

  abbrev pub absent : ℕ → ℕ → ℕ → Bool
  absent bus dev fun = word bridge h bus dev fun 0 == nullvendor

  -- How many functions a device may have: bit 7 of the header type of function 0.
  abbrev pub nfun : ℕ → ℕ → ℕ
  nfun bus dev = if byte bridge h bus dev 0 14 / 128 % 2 == 0 then 1 else nfun_per_dev

  -- The functions of a bus in order, each bridge followed by those behind it. `none` stands where the
  -- fuel for the depth ends.
  unfoldable pub below : (ℕ → List (Option PciDev)) → ℕ → ℕ → ℕ → Bool → List (Option PciDev)
  below deeper bus dev fun false = []
  below deeper bus dev fun true = deeper (byte bridge h bus dev fun 25)

  unfoldable pub at_fun : (ℕ → List (Option PciDev)) → ℕ → ℕ → ℕ → List (Option PciDev)
  at_fun deeper bus dev fun =
      if absent bus dev fun
      then []
      else some (entry bus dev fun) ∷ below deeper bus dev fun (is_bridge (entry bus dev fun))

  unfoldable pub at_dev : (ℕ → List (Option PciDev)) → ℕ → ℕ → List (Option PciDev)
  at_dev deeper bus dev =
      if absent bus dev 0 then [] else concat_map (at_fun deeper bus dev) (upto (nfun bus dev) 0)

  unfoldable pub listing : ℕ → ℕ → List (Option PciDev)
  listing zero bus = none ∷ []
  listing (suc depth) bus = concat_map (at_dev (listing depth) bus) (upto ndev_per_bus 0)

-- What the probe is to do with a listing.
unfoldable pub add_all : {H : Type 0} → List (Option PciDev) → Cmd H (Unit {0})
add_all [] = pure tt
add_all (none ∷ l) = fail too_deep
add_all (some p ∷ l) = add_dev p >> add_all l
