-- ===== src/Pci/Probe.antt =====
-- `_pci_prob_dev` adds to the table what the listing of the bus holds, in order.
use model_lib.Base.{
  ℕ, zero, suc, ◌+◌, ◌≡◌, refl, ap, ◌∙◌, Bool, true, false, List, [], ◌∷◌, Option, some,
}
use model_lib.Pci.{
  Bridge, Pci, PciDev, Cmd, ok, ◌>>◌, and_then, add_dev, is_bridge, read_dev, descend, add_fun,
  probe_fun, fun_loop, probe_slot, dev_loop, prob_dev_at, read_word_at, read_byte_at, read_dword_at,
  mkaddr,
}
use model_lib.Pci.Access.{looked}
use model_lib.Pci.Listing.{
  upto, concat_map, entry, absent, nfun, below, at_fun, at_dev, listing, add_all,
}
use model_lib.Pci.Settles.{
  Settles, with_address, Settles-nothing, Settles-add_dev, Settles-moved, Settles-append,
  Settles-if, Settles-word, Settles-byte,
}

module _ {H : Type 0} (bridge : Bridge H) (h : H) where
  read_dev_lem :
      (bus dev fun : ℕ) (s : Pci H)
      → read_dev bridge bus dev fun s
        ≡ ok (entry bridge s.hw bus dev fun) (looked bridge s bus dev fun 3)
  unfolding read_dev read_word_at read_byte_at read_dword_at
  read_dev_lem bus dev fun s = refl

  module _ (deeper : ℕ → Cmd H (Unit {0})) (list : ℕ → List (Option PciDev))
      (settles : (bus : ℕ) → Settles h (list bus) (deeper bus)) where
    descend-Settles :
        (bus dev fun : ℕ) (b : Bool)
        → Settles h (below bridge h list bus dev fun b) (descend bridge deeper bus dev fun b)
    unfolding descend below
    descend-Settles bus dev fun false = Settles-nothing h
    descend-Settles bus dev fun true = Settles-byte h bridge bus dev fun 25 _ deeper (settles _)

    add_fun-Settles :
        (bus dev fun : ℕ)
        → Settles h
            (some (entry bridge h bus dev fun)
              ∷ below bridge h list bus dev fun (is_bridge (entry bridge h bus dev fun)))
            (add_fun bridge deeper bus dev fun)
    unfolding add_fun
    add_fun-Settles bus dev fun s e =
        let (a, run) =
          Settles-moved h _ (mkaddr 1 bus dev fun 12) s
            (Settles-append h (some (entry bridge h bus dev fun) ∷ []) _
              (Settles-add_dev h (entry bridge h bus dev fun))
              (descend-Settles bus dev fun (is_bridge (entry bridge h bus dev fun))))
            e in
        (
          a,
          ap (λ r. and_then r λ p. add_dev p >> descend bridge deeper bus dev fun (is_bridge p))
                (read_dev_lem bus dev fun s)
              ∙ ap
                  (λ g.
                    (add_dev (entry bridge g bus dev fun)
                        >> descend bridge deeper bus dev fun
                            (is_bridge (entry bridge g bus dev fun)))
                      (looked bridge s bus dev fun 3))
                  e
              ∙ run,
        )

    probe_fun-Settles :
        (bus dev fun : ℕ)
        → Settles h (at_fun bridge h list bus dev fun) (probe_fun bridge deeper bus dev fun)
    unfolding probe_fun at_fun
    probe_fun-Settles bus dev fun = Settles-word h bridge bus dev fun 0 _ _ (
        Settles-if h (absent bridge h bus dev fun) [] _ (Settles-nothing h)
          (add_fun-Settles bus dev fun))

    fun_loop-Settles :
        (rounds bus dev fun : ℕ)
        → Settles h
            (concat_map (at_fun bridge h list bus dev) (upto rounds fun))
            (fun_loop bridge rounds deeper bus dev fun)
    unfolding fun_loop concat_map upto
    fun_loop-Settles zero bus dev fun = Settles-nothing h
    fun_loop-Settles (suc rounds) bus dev fun =
        Settles-append h (at_fun bridge h list bus dev fun) _ (probe_fun-Settles bus dev fun)
          (fun_loop-Settles rounds bus dev (fun + 1))

    probe_slot-Settles :
        (bus dev : ℕ) → Settles h (at_dev bridge h list bus dev) (probe_slot bridge deeper bus dev)
    unfolding probe_slot at_dev
    probe_slot-Settles bus dev = Settles-word h bridge bus dev 0 0 _ _ (
        Settles-if h (absent bridge h bus dev 0) [] _ (Settles-nothing h) (
          Settles-byte h bridge bus dev 0 14 _ _
            (fun_loop-Settles (nfun bridge h bus dev) bus dev 0)))

    dev_loop-Settles :
        (rounds bus dev : ℕ)
        → Settles h
            (concat_map (at_dev bridge h list bus) (upto rounds dev))
            (dev_loop bridge rounds deeper bus dev)
    unfolding dev_loop concat_map upto
    dev_loop-Settles zero bus dev = Settles-nothing h
    dev_loop-Settles (suc rounds) bus dev =
        Settles-append h (at_dev bridge h list bus dev) _ (probe_slot-Settles bus dev)
          (dev_loop-Settles rounds bus (dev + 1))

  prob_dev_at-Settles :
      (depth bus : ℕ) → Settles h (listing bridge h depth bus) (prob_dev_at bridge depth bus)
  unfolding prob_dev_at listing add_all
  prob_dev_at-Settles zero bus = λ s e. (s.address, refl)
  prob_dev_at-Settles (suc depth) bus =
      dev_loop-Settles (prob_dev_at bridge depth) (listing bridge h depth)
        (prob_dev_at-Settles depth) 32 bus 0

-- Whatever the hardware and the depth, `_pci_prob_dev` of a bus does what adding the functions of the listing of
-- that bus to the table does, one after the other and to the same fault, but for the address port.
pub prob_dev-listing :
    {H : Type 0} (bridge : Bridge H) (depth bus : ℕ) (s : Pci H)
    → (a : ℕ) × (prob_dev_at bridge depth bus s
        ≡ with_address a (add_all (listing bridge s.hw depth bus) s))
prob_dev-listing bridge depth bus s = prob_dev_at-Settles bridge s.hw depth bus s refl
