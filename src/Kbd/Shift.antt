-- ===== src/Kbd/Shift.antt =====
-- `apply_shift`.
use model_lib.Base.{
  ℕ, ◌-◌, ◌≤◌, ◌<◌, ◌≡◌, ◌⊎◌, refl, Bool, true, false, ◌==◌, ◌&&◌, leb, if◌then◌else◌, arith,
  all_under, all_under_sound,
}
use model_lib.Kbd.Keys.{KeyEvent}
use model_lib.Kbd.{apply_shift, shifted, shift_map}

abbrev is_printable : ℕ → Bool
is_printable c = leb 0x20 c && leb c 126

abbrev shift_char : ℕ → ℕ
shift_char c = shifted shift_map (if leb b'a' c && leb c b'z' then c - 32 else c)

abbrev shift_ok : ℕ → Bool
shift_ok c =
    (if is_printable c then is_printable (shift_char c) else shift_char c == c)
    && (if leb b'a' c && leb c b'z' then shift_char c == c - 32 else true)
    && (if leb 128 c then shift_char c == c else true)

shift_table : all_under 256 shift_ok ≡ true
unfolding all_under shifted
shift_table = refl

-- With a shift key held, a letter gives its upper case, a printable character gives a printable
-- one, and a control character or a key code gives itself. With none held, nothing changes.
pub apply_shift_lem :
    (c : ℕ) (e : KeyEvent)
    → c < 256
    → (e.kbdstate.lshft ≡ false → e.kbdstate.rshft ≡ false → apply_shift c e ≡ c)
      × ((e.kbdstate.lshft ≡ true) ⊎ (e.kbdstate.rshft ≡ true)
          → (b'a' ≤ c → c ≤ b'z' → apply_shift c e ≡ c - 32)
            × (0x20 ≤ c → c ≤ 126 → (0x20 ≤ apply_shift c e) × (apply_shift c e ≤ 126))
            × ((c < 0x20) ⊎ (126 < c) → apply_shift c e ≡ c))
unfolding apply_shift
apply_shift_lem c e h =
    let fact : shift_ok c ≡ true = all_under_sound 256 shift_ok c shift_table h in
    (
      λ l r. ground arith,
      λ held. (
        λ lo hi. ground (arith, fact),
        λ lo hi. (ground (arith, fact), ground (arith, fact)),
        λ out. ground (arith, fact),
      ),
    )
