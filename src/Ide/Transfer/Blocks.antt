-- ===== src/Ide/Transfer/Blocks.antt =====
-- A transfer reads and writes the block that its registers name.
use model_lib.Base.{ℕ, ◌+◌, ◌<◌, ◌≡◌, ◌≢◌, refl, arith, ap, sym, ◌∙◌, some, none, true, false, not}
use model_lib.Fs.Layout.{Bytes}
use model_lib.Ide.{Registers}
use model_lib.Ide.Transfer.{
  Ports, after_read, ide_read_abs, ide_write_abs, take_data, read_from, write_to, set_registers,
  error,
}
use model_lib.Ide.Transfer.Controller.{
  Channel, addressed, Controller, wait-busy, wait-ready, commanded, commanded_lem, Prompt,
  waits_set, addressed_set,
}

module _ {D : Type 0} (ports : Ports D) (c : Controller ports) (fuel : ℕ)
    (long : c.limit < fuel) where
  -- The registers that the controller sees depend on the values of its ports.
  addressed-cong :
      (f g : ℕ → ℕ) (base : ℕ) → ((q : ℕ) → f q ≡ g q) → addressed f base ≡ addressed g base
  addressed-cong f g base same =
      rw (same (base + 3), same (base + 4), same (base + 5), same (base + 6)) refl

  -- Whether the command to read fails.
  read_outcome :
      (r : Registers) (d : D) (ch : Channel r.base)
      → c.failed (commanded ports c r ch d 0x20) r.base ≡ not (c.present r)
  read_outcome r d ch =
      c.read_fails r.base (set_registers ports r d) ch
      ∙ ap (λ q. not (c.present q)) (addressed_set ports c r ch d)

  -- Where there is no sector, a read is -1.
  pub ide_read_abs-absent :
      (r : Registers) (d : D)
      → Channel r.base
      → c.present r ≡ false
      → (e : D) × (ide_read_abs ports fuel r d ≡ some (none, e))
        × ((q : Registers) → c.stored e q ≡ c.stored d q)
  unfolding ide_read_abs read_from after_read
  ide_read_abs-absent r d ch missing =
      let first = wait-busy ports c fuel r.base d ch (omega (arith, long, c.bounded d)) in
      let sent : D = commanded ports c r ch first.after 0x20 in
      let k = commanded_lem ports c r ch first.after 0x20 in
      let second = wait-busy ports c fuel r.base sent ch (omega (arith, long, c.bounded sent)) in
      let bad : error second.status ≡ true =
        second.outcome ∙ read_outcome r first.after ch ∙ rw missing refl in
      (
        second.after,
        rw (first.run, second.run, bad) refl,
        λ q. second.waited.stored q ∙ k.2 q ∙ first.waited.stored q,
      )

  pub ide_read_abs-stored :
      (r : Registers) (d : D)
      → Channel r.base
      → c.present r ≡ true
      → (buf : Bytes) × (e : D) × (ide_read_abs ports fuel r d ≡ some (some buf, e))
        × ((j : ℕ) → j < 512 → buf j ≡ c.stored d r j)
        × ((q : Registers) → c.stored e q ≡ c.stored d q)
  unfolding ide_read_abs read_from after_read take_data
  ide_read_abs-stored r d ch there =
      let first = wait-busy ports c fuel r.base d ch (omega (arith, long, c.bounded d)) in
      let sent : D = commanded ports c r ch first.after 0x20 in
      let k = commanded_lem ports c r ch first.after 0x20 in
      let second = wait-busy ports c fuel r.base sent ch (omega (arith, long, c.bounded sent)) in
      let well : c.failed sent r.base ≡ false = read_outcome r first.after ch ∙ rw there refl in
      let fine : error second.status ≡ false = second.outcome ∙ well in
      let third =
        wait-ready ports c fuel r.base second.after ch second.waited.done (omega (arith, long)) in
      let named : addressed (c.reg third.after) r.base ≡ r =
        addressed-cong (c.reg third.after) (c.reg sent) r.base
          (λ q. third.waited.reg q ∙ second.waited.reg q)
        ∙ k.0 in
      let block =
        c.data_in r.base third.after ch
          (third.waited.command r.base ∙ second.waited.command r.base ∙ k.3)
          (third.waited.failed r.base ∙ second.waited.failed r.base ∙ well) third.waited.done
          (third.waited.reg (r.base + 2) ∙ second.waited.reg (r.base + 2) ∙ k.1) in
      let same : (q : Registers) → c.stored third.after q ≡ c.stored d q =
        λ q. third.waited.stored q ∙ second.waited.stored q ∙ k.2 q ∙ first.waited.stored q in
      (
        (ports.insl r.base 128 third.after).0,
        (ports.insl r.base 128 third.after).1,
        rw (first.run, second.run, fine, third.run) refl,
        λ j h. block.0 j h ∙ ap (λ x. c.stored third.after x j) named ∙ ap (λ b. b j) (same r),
        λ q. block.1 q ∙ same q,
      )

  pub ide_write_abs-stored :
      (r : Registers) (buf : Bytes) (d : D)
      → Channel r.base
      → Prompt ports c
      → c.present r ≡ true
      → (e : D) × (ide_write_abs ports fuel r buf d ≡ some e)
        × (c.stored e r ≡ buf)
        × ((q : Registers) → q ≢ r → c.stored e q ≡ c.stored d q)
  unfolding ide_write_abs write_to
  ide_write_abs-stored r buf d ch prompt there =
      let first = wait-busy ports c fuel r.base d ch (omega (arith, long, c.bounded d)) in
      let sent : D = commanded ports c r ch first.after 0x30 in
      let k = commanded_lem ports c r ch first.after 0x30 in
      let idle : c.waits (set_registers ports r first.after) ≡ 0 =
        waits_set ports c r ch first.after ∙ first.waited.done in
      let open_now =
        prompt r.base (set_registers ports r first.after) ch idle
          (ap c.present (addressed_set ports c r ch first.after) ∙ there) in
      let out =
        c.data_out r.base buf sent ch k.3 (ap c.present k.0 ∙ there) open_now.0 open_now.1 k.1 in
      (
        ports.outsl buf r.base 128 sent,
        rw (first.run) refl,
        ap (λ x. c.stored (ports.outsl buf r.base 128 sent) x) (sym k.0) ∙ out.0,
        λ q ne. out.1 q (λ e. ne (e ∙ k.0)) ∙ k.2 q ∙ first.waited.stored q,
      )
