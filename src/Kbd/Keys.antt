-- ===== src/Kbd/Keys.antt =====
-- grab/include/kbd.h: the codes of the keys, the modifier state, the events, and the map from
-- single-byte make codes to keys of grab/kbd.c.
use model_lib.Base.{ℕ, Bool, List, [], ◌∷◌}

pub record KeyboardState : Type 0 where
  pub numlock : Bool
  pub capslock : Bool
  pub ralt : Bool
  pub lalt : Bool
  pub rctrl : Bool
  pub lctrl : Bool
  pub rshft : Bool
  pub lshft : Bool

-- `struct key_event`, whose field `data` is called `value` here.
pub record KeyEvent : Type 0 where
  pub value : ℕ
  pub raw : ℕ
  pub make : Bool
  pub keypad : Bool
  pub hasdata : Bool
  pub hasraw : Bool
  pub kbdstate : KeyboardState

abbrev pub state_related_key_start : ℕ
state_related_key_start = 200

abbrev pub max_scancode : ℕ
max_scancode = 0x58

abbrev pub key_unknown : ℕ
key_unknown = 128

abbrev pub key_prnt : ℕ
key_prnt = 142

abbrev pub key_u_arrow : ℕ
key_u_arrow = 144

abbrev pub key_l_arrow : ℕ
key_l_arrow = 145

abbrev pub key_r_arrow : ℕ
key_r_arrow = 146

abbrev pub key_d_arrow : ℕ
key_d_arrow = 147

abbrev pub key_delete : ℕ
key_delete = 148

abbrev pub key_pause : ℕ
key_pause = 149

abbrev pub key_l_ctrl : ℕ
key_l_ctrl = 200

abbrev pub key_r_ctrl : ℕ
key_r_ctrl = 201

abbrev pub key_l_shft : ℕ
key_l_shft = 202

abbrev pub key_r_shft : ℕ
key_r_shft = 203

abbrev pub key_l_alt : ℕ
key_l_alt = 204

abbrev pub key_r_alt : ℕ
key_r_alt = 205

abbrev pub key_num : ℕ
key_num = 206

abbrev pub key_scroll : ℕ
key_scroll = 207

abbrev pub key_caps : ℕ
key_caps = 208

-- The keys F1 to F12 have the codes 129 to 140; the control characters and the punctuation stand as
-- their ASCII codes.
abbrev pub key_map : List ℕ
key_map =
    key_unknown ∷ 0x1b ∷ b'1' ∷ b'2' ∷ b'3' ∷ b'4' ∷ b'5' ∷ b'6' ∷ b'7' ∷ b'8' ∷ b'9' ∷ b'0' ∷ 45
    ∷ 61 ∷ 8 ∷ 9 ∷ b'q' ∷ b'w' ∷ b'e' ∷ b'r' ∷ b't' ∷ b'y' ∷ b'u' ∷ b'i' ∷ b'o' ∷ b'p' ∷ 91 ∷ 93
    ∷ 10 ∷ key_l_ctrl ∷ b'a' ∷ b's' ∷ b'd' ∷ b'f' ∷ b'g' ∷ b'h' ∷ b'j' ∷ b'k' ∷ b'l' ∷ 59 ∷ 39 ∷ 96
    ∷ key_l_shft ∷ 92 ∷ b'z' ∷ b'x' ∷ b'c' ∷ b'v' ∷ b'b' ∷ b'n' ∷ b'm' ∷ 44 ∷ 46 ∷ 47 ∷ key_r_shft
    ∷ 42 ∷ key_l_alt ∷ 32 ∷ key_caps ∷ 129 ∷ 130 ∷ 131 ∷ 132 ∷ 133 ∷ 134 ∷ 135 ∷ 136 ∷ 137 ∷ 138
    ∷ key_num ∷ key_scroll ∷ b'7' ∷ b'8' ∷ b'9' ∷ 45 ∷ b'4' ∷ b'5' ∷ b'6' ∷ 43 ∷ b'1' ∷ b'2' ∷ b'3'
    ∷ b'0' ∷ 46 ∷ key_unknown ∷ key_unknown ∷ key_unknown ∷ 139 ∷ 140 ∷ []
