-- ===== src/Keyboard.antt =====
-- The keyboard of kernel/src/src/keyboard.c. A call of `keyboard_read_char` gets the scancode that the
-- port delivers; waiting for it is left out. The entries of the tables that the code leaves out are 0.
pub mod Modifiers
mod Tests
use ppo_os.Common.{
  ℕ, ◌+◌, ◌-◌, Bool, true, false, ◌&&◌, ◌||◌, List, [], ◌∷◌, bit_and, leb, ◌==◌, if◌then◌else◌,
  get_or,
}

pub record KeyState : Type 0 where
  pub ctrl_down : Bool
  pub shift_down : Bool
  pub alt_down : Bool

abbrev pub scancode_ctrl : ℕ
scancode_ctrl = 0x1D

abbrev pub scancode_lshift : ℕ
scancode_lshift = 0x2A

abbrev pub scancode_rshift : ℕ
scancode_rshift = 0x36

abbrev pub scancode_alt : ℕ
scancode_alt = 0x38

abbrev pub scancode_set1 : List ℕ
scancode_set1 =
    0 ∷ 27 ∷ 49 ∷ 50 ∷ 51 ∷ 52 ∷ 53 ∷ 54 ∷ 55 ∷ 56 ∷ 57 ∷ 48 ∷ 45 ∷ 61 ∷ 8 ∷ 9 ∷ 113 ∷ 119 ∷ 101
    ∷ 114 ∷ 116 ∷ 121 ∷ 117 ∷ 105 ∷ 111 ∷ 112 ∷ 91 ∷ 93 ∷ 10 ∷ 0 ∷ 97 ∷ 115 ∷ 100 ∷ 102 ∷ 103 ∷ 104
    ∷ 106 ∷ 107 ∷ 108 ∷ 59 ∷ 39 ∷ 96 ∷ 0 ∷ 92 ∷ 122 ∷ 120 ∷ 99 ∷ 118 ∷ 98 ∷ 110 ∷ 109 ∷ 44 ∷ 46 ∷ 47
    ∷ 0 ∷ 42 ∷ 0 ∷ 32 ∷ 0 ∷ []

abbrev pub scancode_set1_shift : List ℕ
scancode_set1_shift =
    0 ∷ 27 ∷ 33 ∷ 64 ∷ 35 ∷ 36 ∷ 37 ∷ 94 ∷ 38 ∷ 42 ∷ 40 ∷ 41 ∷ 95 ∷ 43 ∷ 8 ∷ 9 ∷ 81 ∷ 87 ∷ 69 ∷ 82
    ∷ 84 ∷ 89 ∷ 85 ∷ 73 ∷ 79 ∷ 80 ∷ 123 ∷ 125 ∷ 10 ∷ 0 ∷ 65 ∷ 83 ∷ 68 ∷ 70 ∷ 71 ∷ 72 ∷ 74 ∷ 75 ∷ 76
    ∷ 58 ∷ 34 ∷ 126 ∷ 0 ∷ 124 ∷ 90 ∷ 88 ∷ 67 ∷ 86 ∷ 66 ∷ 78 ∷ 77 ∷ 60 ∷ 62 ∷ 63 ∷ 0 ∷ 42 ∷ 0 ∷ 32
    ∷ 0 ∷ []

-- Sets the flag of a modifier key; false if the key is none.
unfoldable pub set_modifier : KeyState → ℕ → Bool → KeyState × Bool
set_modifier s sc down =
    if sc == scancode_ctrl
    then (record s { ctrl_down = down }, true)
    else if (sc == scancode_lshift) || (sc == scancode_rshift)
    then (record s { shift_down = down }, true)
    else if sc == scancode_alt
    then (record s { alt_down = down }, true)
    else (s, false)

-- The character of a key that is not a modifier.
unfoldable pub key_char : KeyState → ℕ → ℕ
key_char s sc =
    let c = if s.shift_down then get_or scancode_set1_shift sc 0 else get_or scancode_set1 sc 0 in
    if s.ctrl_down && leb 97 c && leb c 122 then c - 97 + 1 else c

unfoldable pub keyboard_read_char : KeyState → ℕ → KeyState × ℕ
keyboard_read_char s sc =
    if not_zero (bit_and sc 0x80)
    then ((set_modifier s (bit_and sc 0x7F) false).0, 0)
    else (let (s1, modifier) = set_modifier s sc true in
        if modifier then (s1, 0) else (s, key_char s sc))
  where
    not_zero : ℕ → Bool
    not_zero n = if n == 0 then false else true

abbrev pub keyboard_ctrl_pressed : KeyState → Bool
keyboard_ctrl_pressed s = s.ctrl_down

abbrev pub keyboard_shift_pressed : KeyState → Bool
keyboard_shift_pressed s = s.shift_down

abbrev pub keyboard_alt_pressed : KeyState → Bool
keyboard_alt_pressed s = s.alt_down
