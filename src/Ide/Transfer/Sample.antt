-- ===== src/Ide/Transfer/Sample.antt =====
-- A controller that is busy for three readings of its status after a command to read, and requests the
-- data of a write at once; each drive has 20 cylinders and 4 heads.
use model_lib.Base.{
  ℕ, ◌+◌, ◌-◌, ◌*◌, ◌%◌, ◌≡◌, inl, inr, refl, arith, Bool, true, false, not, ltb, ◌==◌, ◌&&◌, ◌||◌,
  if◌then◌else◌, Bool-cases, update, min, ==_refl,
}
use model_lib.Fs.Layout.{Bytes}
use model_lib.Ide.{Registers}
use model_lib.Ide.Transfer.{Ports, busy, error, not_ready, data_request}
use model_lib.Ide.Transfer.Controller.{addressed, Controller, Prompt}

pub record Device : Type 0 where
  regs : ℕ → ℕ
  cmds : ℕ → ℕ
  errors : ℕ → Bool
  blocks : Registers → Bytes
  pending : ℕ

abbrev same_registers : Registers → Registers → Bool
same_registers q r =
    q.base == r.base
    && q.sector == r.sector
    && q.cylinder_low == r.cylinder_low
    && q.cylinder_high == r.cylinder_high
    && q.select == r.select

-- 20 cylinders and 4 heads
abbrev exists : Registers → Bool
exists r = ltb (r.cylinder_low + 256 * r.cylinder_high) 20 && ltb (r.select % 16) 4

abbrev pub ports : Ports Device
ports = record {
  inb = λ port d.
      if min d.pending 3 == 0
      then (if d.errors port then 0x59 else 0x58, d)
      else (0x80, record d { pending = min d.pending 3 - 1 });
  outb = λ v port d.
      if port == 0x1f7 || port == 0x177
      then record d {
        cmds = update d.cmds port v;
        errors = update d.errors port (v == 0x20 && not (exists (addressed d.regs (port - 7))));
        pending = if v == 0x30 then 0 else 3;
      }
      else record d { regs = update d.regs port v };
  insl = λ port cnt d. (d.blocks (addressed d.regs port), d);
  outsl = λ buf port cnt d. record d {
    blocks = λ r. if same_registers r (addressed d.regs port) then buf else d.blocks r;
  };
}

abbrev same_registers_refl : (r : Registers) → same_registers r r ≡ true
same_registers_refl r =
    rw
      (
        ==_refl r.base,
        ==_refl r.sector,
        ==_refl r.cylinder_low,
        ==_refl r.cylinder_high,
        ==_refl r.select,
      )
      refl

abbrev same_registers-path : (q r : Registers) → same_registers q r ≡ true → q ≡ r
same_registers-path q r h =
    let a : q.base ≡ r.base = ground arith in
    let b : q.sector ≡ r.sector = ground arith in
    let c : q.cylinder_low ≡ r.cylinder_low = ground arith in
    let d : q.cylinder_high ≡ r.cylinder_high = ground arith in
    let e : q.select ≡ r.select = ground arith in
    λ i. record { base = a i; sector = b i; cylinder_low = c i; cylinder_high = d i; select = e i }

abbrev status_lem :
    (base : ℕ) (d : Device)
    → ((q : ℕ) → (ports.inb (base + 7) d).1.regs q ≡ d.regs q)
      × ((r : Registers) → (ports.inb (base + 7) d).1.blocks r ≡ d.blocks r)
      × ((q : ℕ) → (ports.inb (base + 7) d).1.cmds q ≡ d.cmds q)
      × ((q : ℕ) → (ports.inb (base + 7) d).1.errors q ≡ d.errors q)
status_lem base d = elim (Bool-cases (min d.pending 3 == 0)) [
  | inl done ↦ rw done (λ q. refl, λ r. refl, λ q. refl, λ q. refl)
  | inr more ↦ rw more (λ q. refl, λ r. refl, λ q. refl, λ q. refl)
]

-- The bits of the status when the device is done.
abbrev shown : (b : Bool) → error (if b then 0x59 else 0x58) ≡ b
shown true = refl
shown false = refl

abbrev idle_lem :
    (b : Bool)
    → (busy (if b then 0x59 else 0x58) ≡ false)
      × (data_request (if b then 0x59 else 0x58) ≡ true)
      × (not_ready (if b then 0x59 else 0x58) ≡ false)
idle_lem true = (refl, refl, refl)
idle_lem false = (refl, refl, refl)

abbrev pub controller : Controller ports
controller = record {
  reg = λ d. d.regs;
  stored = λ d. d.blocks;
  present = exists;
  failed = λ d base. d.errors (base + 7);
  command = λ d base. d.cmds (base + 7);
  waits = λ d. min d.pending 3;
  limit = 3;
  bounded = λ d. omega arith;
  status_busy = λ base d ch more.
      let e : (min d.pending 3 == 0) ≡ false = ground arith in rw e (refl, omega arith);
  status_done = λ base d ch done.
      let e : (min d.pending 3 == 0) ≡ true = ground arith in
      rw e (
        (idle_lem (d.errors (base + 7))).0,
        shown (d.errors (base + 7)),
        (idle_lem (d.errors (base + 7))).2,
        omega arith,
      );
  status_keeps = λ base d ch. (
    (status_lem base d).0,
    (status_lem base d).1,
    λ b. (status_lem base d).2 (b + 7),
    λ b. (status_lem base d).3 (b + 7),
  );
  register_set = λ base o v d ch lo hi.
      let e : (base + o == 0x1f7 || base + o == 0x177) ≡ false = ground arith in
      rw e (λ q. refl, λ r. refl, refl);
  command_set = λ base v d ch.
      let e : (base + 7 == 0x1f7 || base + 7 == 0x177) ≡ true = ground arith in
      rw (e, ==_refl (base + 7)) (λ q. refl, λ r. refl, refl);
  read_fails = λ base d ch.
      let e : (base + 7 == 0x1f7 || base + 7 == 0x177) ≡ true = ground arith in
      let back : base + 7 - 7 ≡ base = omega arith in rw (e, ==_refl (base + 7), back) refl;
  data_in = λ base d ch sent well done one. (λ j h. refl, λ r. refl);
  data_out = λ base buf d ch sent there free asked one. (
    rw (same_registers_refl (addressed d.regs base)) refl,
    λ r ne. elim (Bool-cases (same_registers r (addressed d.regs base))) [
      | inl same ↦ absurd (ne (same_registers-path r (addressed d.regs base) same))
      | inr other ↦ rw other refl
    ],
  );
}

pub controller-Prompt : Prompt ports controller
controller-Prompt base d ch idle there =
    let e : (base + 7 == 0x1f7 || base + 7 == 0x177) ≡ true = ground arith in
    rw (e, ==_refl (base + 7)) (refl, refl)

abbrev pub device : (Registers → Bytes) → Device
device blocks = record {
  regs = λ q. 0;
  cmds = λ q. 0;
  errors = λ q. false;
  blocks = blocks;
  pending = 2;
}
