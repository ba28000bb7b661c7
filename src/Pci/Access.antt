-- ===== src/Pci/Access.antt =====
-- What a read of the configuration space gives, and what a write leaves there.
use model_lib.Base.{
  ℕ, zero, suc, ◌+◌, ◌-◌, ◌*◌, ◌/◌, ◌%◌, ◌^◌, ◌<◌, ◌≡◌, refl, arith, ap, ◌∙◌, bit_or, bit_and, u8,
  u16, u32, bit_or-scale, bit_or-lt, bit_and-low, bit_and-high,
}
use model_lib.Pci.{
  Bridge, Pci, ok, mkaddr, read_dword_at, read_word_at, read_byte_at, write_dword_at, write_word_at,
}

module _ {H : Type 0} (bridge : Bridge H) where
  -- The dwords, words and bytes behind the bridge.
  abbrev pub dword : H → ℕ → ℕ → ℕ → ℕ → ℕ
  dword h bus dev func dwoff = u32 (bridge.data_in h (mkaddr 1 bus dev func (dwoff * 4)))

  abbrev pub word : H → ℕ → ℕ → ℕ → ℕ → ℕ
  word h bus dev func woff = u16 (dword h bus dev func (woff / 2) / 2 ^ (16 * (woff % 2)))

  abbrev pub byte : H → ℕ → ℕ → ℕ → ℕ → ℕ
  byte h bus dev func boff = u8 (dword h bus dev func (boff / 4) / 2 ^ (8 * (boff % 4)))

  -- Where a read leaves the address port.
  abbrev pub looked : Pci H → ℕ → ℕ → ℕ → ℕ → Pci H
  looked s bus dev func dwoff = record s { address = mkaddr 1 bus dev func (dwoff * 4) }

  module _ (bus dev func : ℕ) (s : Pci H) where
    pub read_dword_lem :
        (dwoff : ℕ)
        → read_dword_at bridge bus dev func dwoff s
          ≡ ok (dword s.hw bus dev func dwoff) (looked s bus dev func dwoff)
    unfolding read_dword_at
    read_dword_lem dwoff = refl

    pub read_word_lem :
        (woff : ℕ)
        → read_word_at bridge bus dev func woff s
          ≡ ok (word s.hw bus dev func woff) (looked s bus dev func (woff / 2))
    unfolding read_word_at read_dword_at
    read_word_lem woff = refl

    pub read_byte_lem :
        (boff : ℕ)
        → read_byte_at bridge bus dev func boff s
          ≡ ok (byte s.hw bus dev func boff) (looked s bus dev func (boff / 4))
    unfolding read_byte_at read_dword_at
    read_byte_lem boff = refl

    byte_lem :
        (dwoff k : ℕ)
        → k < 4
        → byte s.hw bus dev func (4 * dwoff + k) ≡ dword s.hw bus dev func dwoff / 2 ^ (8 * k) % 256
    byte_lem dwoff k h =
        let q : (4 * dwoff + k) / 4 ≡ dwoff = omega arith in
        let r : (4 * dwoff + k) % 4 ≡ k = omega arith in rw (q, r) refl

    word_lem :
        (dwoff k : ℕ)
        → k < 2
        → word s.hw bus dev func (2 * dwoff + k)
          ≡ dword s.hw bus dev func dwoff / 2 ^ (16 * k) % 65536
    word_lem dwoff k h =
        let q : (2 * dwoff + k) / 2 ≡ dwoff = omega arith in
        let r : (2 * dwoff + k) % 2 ≡ k = omega arith in rw (q, r) refl

    read_half :
        (dwoff k : ℕ)
        → k < 2
        → read_word_at bridge bus dev func (2 * dwoff + k) s
          ≡ ok (dword s.hw bus dev func dwoff / 2 ^ (16 * k) % 65536) (looked s bus dev func dwoff)
    read_half dwoff k h =
        let q : (2 * dwoff + k) / 2 ≡ dwoff = omega arith in
        rw (read_word_lem (2 * dwoff + k), word_lem dwoff k h, q) refl

-- The reads of a dword of the configuration space agree, whatever the hardware: there are four bytes that
-- the byte reads at its offsets give, the two word reads give the lower and the upper two of them,
-- and the dword read gives all four, lowest first. They leave nothing changed but the address port.
pub reads_agree :
    {H : Type 0} (bridge : Bridge H) (bus dev func dwoff : ℕ) (s : Pci H)
    → (b : ℕ → ℕ) × ((k : ℕ)
        → k < 4
        → (b k < 256)
          × (read_byte_at bridge bus dev func (4 * dwoff + k) s
              ≡ ok (b k) (looked bridge s bus dev func dwoff)))
      × (read_word_at bridge bus dev func (2 * dwoff) s
          ≡ ok (b 0 + b 1 * 256) (looked bridge s bus dev func dwoff))
      × (read_word_at bridge bus dev func (2 * dwoff + 1) s
          ≡ ok (b 2 + b 3 * 256) (looked bridge s bus dev func dwoff))
      × (read_dword_at bridge bus dev func dwoff s
          ≡ ok (b 0 + b 1 * 256 + b 2 * 2 ^ 16 + b 3 * 2 ^ 24) (looked bridge s bus dev func dwoff))
reads_agree bridge bus dev func dwoff s = (
  λ k. dword bridge s.hw bus dev func dwoff / 2 ^ (8 * k) % 256,
  λ k h. (
    omega arith,
    let q : (4 * dwoff + k) / 4 ≡ dwoff = omega arith in
        rw
          (
            read_byte_lem bridge bus dev func s (4 * dwoff + k),
            byte_lem bridge bus dev func s dwoff k h,
            q,
          )
          refl,
  ),
  ap (λ n. read_word_at bridge bus dev func n s) (omega arith)
      ∙ read_half bridge bus dev func s dwoff 0 (omega arith)
      ∙ ap (λ v. ok v (looked bridge s bus dev func dwoff)) (omega arith),
  read_half bridge bus dev func s dwoff 1 (omega arith)
      ∙ ap (λ v. ok v (looked bridge s bus dev func dwoff)) (omega arith),
  read_dword_lem bridge bus dev func s dwoff
      ∙ ap (λ v. ok v (looked bridge s bus dev func dwoff)) (omega arith),
)

-- What `_pci_write_word` makes of the dword: the old word with the new one over it, and nothing else.
mixed :
    (dw v k : ℕ)
    → k < 2
    → dw < 2 ^ 32
    → bit_or (bit_and dw (0xffff * 2 ^ (16 * k))) (v * 2 ^ (16 * k))
      ≡ bit_or (dw / 2 ^ (16 * k) % 65536) v * 2 ^ (16 * k)
mixed dw v zero hk h =
    let split : bit_and dw 0xffff ≡ dw / 1 % 65536 =
      ap (λ x. bit_and x 0xffff) (omega arith)
      ∙ bit_and-low 16 (dw / 65536) (dw / 1 % 65536) (omega arith) in
    let one : v * 1 ≡ v = omega arith in rw (split, one) (omega arith)
mixed dw v (suc zero) hk h =
    let split : bit_and dw (0xffff * 2 ^ 16) ≡ dw / 65536 % 65536 * 2 ^ 16 =
      ap (λ x. bit_and x (0xffff * 2 ^ 16)) (omega arith)
      ∙ bit_and-high 16 (dw / 65536) (dw % 65536) 0xffff (omega arith)
      ∙ ap (λ x. x * 2 ^ 16)
          (ap (λ x. bit_and x 0xffff) (omega arith)
            ∙ bit_and-low 16 0 (dw / 65536 % 65536) (omega arith)) in
    rw split (bit_or-scale 16 (dw / 65536 % 65536) v)
mixed dw v (suc (suc k)) hk h = absurd (omega arith)

field_back : (x k : ℕ) → k < 2 → x < 2 ^ 16 → x * 2 ^ (16 * k) / 2 ^ (16 * k) % 65536 ≡ x
field_back x zero hk h = omega arith
field_back x (suc zero) hk h = omega arith
field_back x (suc (suc k)) hk h = absurd (omega arith)

other_field : (x k : ℕ) → k < 2 → x < 2 ^ 16 → x * 2 ^ (16 * k) / 2 ^ (16 * (1 - k)) % 65536 ≡ 0
other_field x zero hk h = omega arith
other_field x (suc zero) hk h = omega arith
other_field x (suc (suc k)) hk h = absurd (omega arith)

scaled-lt : (x k : ℕ) → k < 2 → x < 2 ^ 16 → x * 2 ^ (16 * k) < 2 ^ 32
scaled-lt x zero hk h = omega arith
scaled-lt x (suc zero) hk h = omega arith
scaled-lt x (suc (suc k)) hk h = absurd (omega arith)

-- Where the dword at a location keeps what is written to it, `_pci_write_word` of a word leaves there the bitwise or
-- of that word and the old one, and leaves 0 in the other word of the dword.
pub write_word-clobbers :
    {H : Type 0} (bridge : Bridge H) (bus dev func dwoff k v : ℕ) (s : Pci H)
    → k < 2
    → v < 2 ^ 16
    → ((dw : ℕ)
        → dw < 2 ^ 32
        → bridge.data_in
            (bridge.data_out s.hw (mkaddr 1 bus dev func (dwoff * 4)) dw)
            (mkaddr 1 bus dev func (dwoff * 4))
          ≡ dw)
    → (t : Pci H) × (old : ℕ) × (write_word_at bridge bus dev func (2 * dwoff + k) v s ≡ ok tt t)
      × (read_word_at bridge bus dev func (2 * dwoff + k) s
          ≡ ok old (looked bridge s bus dev func dwoff))
      × (read_word_at bridge bus dev func (2 * dwoff + k) t ≡ ok (bit_or old v) t)
      × (read_word_at bridge bus dev func (2 * dwoff + (1 - k)) t ≡ ok 0 t)
unfolding write_word_at write_dword_at read_dword_at
write_word-clobbers {H} bridge bus dev func dwoff k v s hk hv keeps = (
  left,
  old,
  (let q : (2 * dwoff + k) / 2 ≡ dwoff = omega arith in
      let r : (2 * dwoff + k) % 2 ≡ k = omega arith in
      rw (q, r, mixed (dword bridge s.hw bus dev func dwoff) v k hk (omega arith)) refl),
  read_half bridge bus dev func s dwoff k hk,
  read_half bridge bus dev func left dwoff k hk
      ∙ ap (λ x. ok x left) (rw kept (field_back (bit_or old v) k hk small)),
  read_half bridge bus dev func left dwoff (1 - k) (omega arith)
      ∙ ap (λ x. ok x left) (rw kept (other_field (bit_or old v) k hk small)),
)
  where
    old : ℕ
    old = dword bridge s.hw bus dev func dwoff / 2 ^ (16 * k) % 65536

    new : ℕ
    new = bit_or old v * 2 ^ (16 * k)

    left : Pci H
    left = record s {
      address = mkaddr 1 bus dev func (dwoff * 4);
      hw = bridge.data_out s.hw (mkaddr 1 bus dev func (dwoff * 4)) new;
    }

    small : bit_or old v < 2 ^ 16
    small = bit_or-lt 16 old v (omega arith) hv

    kept : dword bridge left.hw bus dev func dwoff ≡ new
    kept =
        let bound : new < 2 ^ 32 = scaled-lt (bit_or old v) k hk small in
        ap u32 (keeps new bound) ∙ omega arith
