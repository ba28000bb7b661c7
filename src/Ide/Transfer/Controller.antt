-- ===== src/Ide/Transfer/Controller.antt =====
-- A disk controller as the driver expects it, and what the transfers then do.
use model_lib.Base.{
  ℕ, zero, suc, ◌+◌, ◌<◌, ◌≤◌, ◌≡◌, ◌≢◌, ◌⊎◌, inl, inr, refl, arith, ◌∙◌, Bool, true, false, not,
  ◌==◌, if◌then◌else◌, Option, some, Bool-cases,
}
use model_lib.Fs.Layout.{Bytes}
use model_lib.Ide.{Registers}
use model_lib.Ide.Transfer.{Ports, busy, data_request, error, not_ready, wait, set_registers}

-- The first ports of the two channels.
abbrev pub Channel : ℕ → Type 0
Channel base = (base ≡ 0x1f0) ⊎ (base ≡ 0x170)

-- The registers of a channel, as the values of its ports give them.
abbrev pub addressed : (ℕ → ℕ) → ℕ → Registers
addressed reg base = record {
  base = base;
  sector = reg (base + 3);
  cylinder_low = reg (base + 4);
  cylinder_high = reg (base + 5);
  select = reg (base + 6);
}

-- What is documented of the controllers: the values of the ports, the settings of the registers that have
-- a sector and the blocks there, the last command, whether it failed, and for how many readings of the
-- status a channel is busy yet.
pub record Controller {D : Type 0} (ports : Ports D) : Type 0 where
  pub reg : D → ℕ → ℕ
  pub stored : D → Registers → Bytes
  pub present : Registers → Bool
  pub command : D → ℕ → ℕ
  pub failed : D → ℕ → Bool
  pub waits : D → ℕ
  pub limit : ℕ
  pub bounded : (d : D) → waits d ≤ limit
  -- The status shows busy until the controller is done, then ready, and an error if the command failed.
  pub status_busy :
      (base : ℕ) (d : D)
      → Channel base
      → waits d ≢ 0
      → (busy (ports.inb (base + 7) d).0 ≡ true) × (waits (ports.inb (base + 7) d).1 < waits d)
  pub status_done :
      (base : ℕ) (d : D)
      → Channel base
      → waits d ≡ 0
      → (busy (ports.inb (base + 7) d).0 ≡ false)
        × (error (ports.inb (base + 7) d).0 ≡ failed d base)
        × (not_ready (ports.inb (base + 7) d).0 ≡ false)
        × (waits (ports.inb (base + 7) d).1 ≡ 0)
  -- Reading the status changes nothing else.
  pub status_keeps :
      (base : ℕ) (d : D)
      → Channel base
      → ((q : ℕ) → reg (ports.inb (base + 7) d).1 q ≡ reg d q)
        × ((r : Registers) → stored (ports.inb (base + 7) d).1 r ≡ stored d r)
        × ((b : ℕ) → command (ports.inb (base + 7) d).1 b ≡ command d b)
        × ((b : ℕ) → failed (ports.inb (base + 7) d).1 b ≡ failed d b)
  -- The registers keep what is written to them.
  pub register_set :
      (base o v : ℕ) (d : D)
      → Channel base
      → 2 ≤ o
      → o ≤ 6
      → ((q : ℕ) → reg (ports.outb v (base + o) d) q ≡ (if q == base + o then v else reg d q))
        × ((r : Registers) → stored (ports.outb v (base + o) d) r ≡ stored d r)
        × (waits (ports.outb v (base + o) d) ≡ waits d)
  pub command_set :
      (base v : ℕ) (d : D)
      → Channel base
      → ((q : ℕ) → reg (ports.outb v (base + 7) d) q ≡ reg d q)
        × ((r : Registers) → stored (ports.outb v (base + 7) d) r ≡ stored d r)
        × (command (ports.outb v (base + 7) d) base ≡ v)
  -- A command to read fails where there is no sector.
  pub read_fails :
      (base : ℕ) (d : D)
      → Channel base
      → failed (ports.outb 0x20 (base + 7) d) base ≡ not (present (addressed (reg d) base))
  -- One sector behind the command to read, once the controller is done, and behind the command to write,
  -- while the status shows a data request and not busy.
  pub data_in :
      (base : ℕ) (d : D)
      → Channel base
      → command d base ≡ 0x20
      → failed d base ≡ false
      → waits d ≡ 0
      → reg d (base + 2) ≡ 1
      → ((j : ℕ) → j < 512 → (ports.insl base 128 d).0 j ≡ stored d (addressed (reg d) base) j)
        × ((r : Registers) → stored (ports.insl base 128 d).1 r ≡ stored d r)
  pub data_out :
      (base : ℕ) (buf : Bytes) (d : D)
      → Channel base
      → command d base ≡ 0x30
      → present (addressed (reg d) base) ≡ true
      → busy (ports.inb (base + 7) d).0 ≡ false
      → data_request (ports.inb (base + 7) d).0 ≡ true
      → reg d (base + 2) ≡ 1
      → (stored (ports.outsl buf base 128 d) (addressed (reg d) base) ≡ buf)
        × ((r : Registers)
            → r ≢ addressed (reg d) base
            → stored (ports.outsl buf base 128 d) r ≡ stored d r)

module _ {D : Type 0} (ports : Ports D) (c : Controller ports) where
  -- A controller that is not busy requests the data as soon as the command to write a sector is sent. The
  -- driver, which does not look at the status before it sends the data, relies on it.
  abbrev pub Prompt : Type 0
  Prompt =
      (base : ℕ) (d : D)
      → Channel base
      → c.waits d ≡ 0
      → c.present (addressed (c.reg d) base) ≡ true
      → (busy (ports.inb (base + 7) (ports.outb 0x30 (base + 7) d)).0 ≡ false)
        × (data_request (ports.inb (base + 7) (ports.outb 0x30 (base + 7) d)).0 ≡ true)

  -- Only waiting lies between the two states.
  pub record Waited (d e : D) : Type 0 where
    pub reg : (q : ℕ) → c.reg e q ≡ c.reg d q
    pub stored : (r : Registers) → c.stored e r ≡ c.stored d r
    pub command : (b : ℕ) → c.command e b ≡ c.command d b
    pub failed : (b : ℕ) → c.failed e b ≡ c.failed d b
    pub done : c.waits e ≡ 0

  -- A wait ends, and finds the controller ready, with an error if the last command failed.
  pub record Done (base : ℕ) (d : D) (r : Option (ℕ × D)) : Type 0 where
    pub status : ℕ
    pub after : D
    pub run : r ≡ some (status, after)
    pub ready : not_ready status ≡ false
    pub outcome : error status ≡ c.failed d base
    pub waited : Waited d after

  pub wait-busy :
      (fuel base : ℕ) (d : D)
      → Channel base
      → c.waits d < fuel
      → Done base d (wait ports fuel busy (base + 7) d)
  unfolding wait
  wait-busy zero base d ch h = absurd (omega arith)
  wait-busy (suc fuel) base d ch h = elim (Bool-cases (c.waits d == 0)) [
    | inl done ↦
        let s = c.status_done base d ch (ground arith) in
        let k = c.status_keeps base d ch in
        rw s.0 (record {
          status = _;
          after = _;
          run = refl;
          ready = s.2;
          outcome = s.1;
          waited = record { reg = k.0; stored = k.1; command = k.2; failed = k.3; done = s.3 };
        })
    | inr more ↦
        let s = c.status_busy base d ch (ground arith) in
        let k = c.status_keeps base d ch in
        let rest = wait-busy fuel base (ports.inb (base + 7) d).1 ch (omega (arith, s.1)) in
        rw s.0 (record {
          status = rest.status;
          after = rest.after;
          run = rest.run;
          ready = rest.ready;
          outcome = rest.outcome ∙ k.3 base;
          waited = record {
            reg = λ q. rest.waited.reg q ∙ k.0 q;
            stored = λ r. rest.waited.stored r ∙ k.1 r;
            command = λ b. rest.waited.command b ∙ k.2 b;
            failed = λ b. rest.waited.failed b ∙ k.3 b;
            done = rest.waited.done;
          };
        })
  ]

  -- The wait until the controller is ready, where it is.
  pub wait-ready :
      (fuel base : ℕ) (d : D)
      → Channel base
      → c.waits d ≡ 0
      → 0 < fuel
      → Done base d (wait ports fuel not_ready (base + 7) d)
  unfolding wait
  wait-ready zero base d ch h pos = absurd (omega arith)
  wait-ready (suc fuel) base d ch h pos =
      let s = c.status_done base d ch h in
      let k = c.status_keeps base d ch in
      rw s.2 (record {
        status = _;
        after = _;
        run = refl;
        ready = s.2;
        outcome = s.1;
        waited = record { reg = k.0; stored = k.1; command = k.2; failed = k.3; done = s.3 };
      })

  module _ (base : ℕ) (ch : Channel base) where
    -- Register `k` once register `o` is written.
    register_lem :
        (o v k : ℕ) (d : D)
        → 2 ≤ o
        → o ≤ 6
        → c.reg (ports.outb v (base + o) d) (base + k) ≡ (if k == o then v else c.reg d (base + k))
    register_lem o v k d lo hi =
        let same : (base + k == base + o) ≡ (k == o) = ground arith in
        (c.register_set base o v d ch lo hi).0 (base + k) ∙ rw same refl

    stored_lem :
        (o v : ℕ) (d : D) (r : Registers)
        → 2 ≤ o
        → o ≤ 6
        → c.stored (ports.outb v (base + o) d) r ≡ c.stored d r
    stored_lem o v d r lo hi = (c.register_set base o v d ch lo hi).1 r

  module _ (r : Registers) (ch : Channel r.base) (d : D) where
    abbrev d1 : D
    d1 = ports.outb 1 (r.base + 2) d

    abbrev d2 : D
    d2 = ports.outb r.sector (r.base + 3) d1

    abbrev d3 : D
    d3 = ports.outb r.cylinder_low (r.base + 4) d2

    abbrev d4 : D
    d4 = ports.outb r.cylinder_high (r.base + 5) d3

    at :
        (o v k : ℕ) (e : D)
        → 2 ≤ o
        → o ≤ 6
        → c.reg (ports.outb v (r.base + o) e) (r.base + k)
          ≡ (if k == o then v else c.reg e (r.base + k))
    at o v k e lo hi = register_lem r.base ch o v k e lo hi

    behind :
        (k v : ℕ)
        → c.reg d4 (r.base + k) ≡ v
        → (k == 6) ≡ false
        → c.reg (set_registers ports r d) (r.base + k) ≡ v
    unfolding set_registers
    behind k v e other = at 6 r.select k d4 (omega arith) (omega arith) ∙ rw other e

    count_set : c.reg (set_registers ports r d) (r.base + 2) ≡ 1
    count_set =
        behind 2 1
          (at 5 r.cylinder_high 2 d3 (omega arith) (omega arith)
            ∙ at 4 r.cylinder_low 2 d2 (omega arith) (omega arith)
            ∙ at 3 r.sector 2 d1 (omega arith) (omega arith)
            ∙ at 2 1 2 d (omega arith) (omega arith))
          refl

    pub addressed_set : addressed (c.reg (set_registers ports r d)) r.base ≡ r
    addressed_set =
        let sector : c.reg (set_registers ports r d) (r.base + 3) ≡ r.sector =
          behind 3 r.sector
            (at 5 r.cylinder_high 3 d3 (omega arith) (omega arith)
              ∙ at 4 r.cylinder_low 3 d2 (omega arith) (omega arith)
              ∙ at 3 r.sector 3 d1 (omega arith) (omega arith))
            refl in
        let low : c.reg (set_registers ports r d) (r.base + 4) ≡ r.cylinder_low =
          behind 4 r.cylinder_low
            (at 5 r.cylinder_high 4 d3 (omega arith) (omega arith)
              ∙ at 4 r.cylinder_low 4 d2 (omega arith) (omega arith))
            refl in
        let high : c.reg (set_registers ports r d) (r.base + 5) ≡ r.cylinder_high =
          behind 5 r.cylinder_high (at 5 r.cylinder_high 5 d3 (omega arith) (omega arith)) refl in
        let select : c.reg (set_registers ports r d) (r.base + 6) ≡ r.select =
          unfold set_registers in at 6 r.select 6 d4 (omega arith) (omega arith) in
        rw (sector, low, high, select) refl

    stored_set : (q : Registers) → c.stored (set_registers ports r d) q ≡ c.stored d q
    unfolding set_registers
    stored_set q =
        stored_lem r.base ch 6 r.select d4 q (omega arith) (omega arith)
        ∙ stored_lem r.base ch 5 r.cylinder_high d3 q (omega arith) (omega arith)
        ∙ stored_lem r.base ch 4 r.cylinder_low d2 q (omega arith) (omega arith)
        ∙ stored_lem r.base ch 3 r.sector d1 q (omega arith) (omega arith)
        ∙ stored_lem r.base ch 2 1 d q (omega arith) (omega arith)

    pub waits_set : c.waits (set_registers ports r d) ≡ c.waits d
    unfolding set_registers
    waits_set =
        (c.register_set r.base 6 r.select d4 ch (omega arith) (omega arith)).2
        ∙ (c.register_set r.base 5 r.cylinder_high d3 ch (omega arith) (omega arith)).2
        ∙ (c.register_set r.base 4 r.cylinder_low d2 ch (omega arith) (omega arith)).2
        ∙ (c.register_set r.base 3 r.sector d1 ch (omega arith) (omega arith)).2
        ∙ (c.register_set r.base 2 1 d ch (omega arith) (omega arith)).2

    -- The registers are set and a command is sent.
    abbrev pub commanded : (v : ℕ) → D
    commanded v = ports.outb v (r.base + 7) (set_registers ports r d)

    pub commanded_lem :
        (v : ℕ)
        → (addressed (c.reg (commanded v)) r.base ≡ r)
          × (c.reg (commanded v) (r.base + 2) ≡ 1)
          × ((q : Registers) → c.stored (commanded v) q ≡ c.stored d q)
          × (c.command (commanded v) r.base ≡ v)
    commanded_lem v =
        let k = c.command_set r.base v (set_registers ports r d) ch in
        (
          rw (k.0 (r.base + 3), k.0 (r.base + 4), k.0 (r.base + 5), k.0 (r.base + 6)) addressed_set,
          k.0 (r.base + 2) ∙ count_set,
          λ q. k.1 q ∙ stored_set q,
          k.2,
        )
