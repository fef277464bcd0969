-- ===== src/Keyboard/Tests.antt =====
-- Keys on a keyboard.
use ppo_os.Common.{ℕ, ◌≡◌, refl, false, List, [], ◌∷◌, arith}
use ppo_os.Keyboard.{KeyState, keyboard_read_char, set_modifier, key_char}
use ppo_os.Keyboard.Modifiers.{after_keys, expected, after_keys_lem}

abbrev idle : KeyState
idle = record { ctrl_down = false; shift_down = false; alt_down = false }

-- Shift and control go down, "a" goes down and up, control goes up.
abbrev typed : List ℕ
typed = 0x2A ∷ 0x1D ∷ 0x1E ∷ 0x9E ∷ 0x9D ∷ []

after_keys_lem_example : after_keys idle typed ≡ expected idle typed
after_keys_lem_example =
    after_keys_lem idle typed
      (omega arith, (omega arith, (omega arith, (omega arith, (omega arith, tt)))))

types_a : (keyboard_read_char idle 0x1E).1 ≡ 97
unfolding keyboard_read_char set_modifier key_char
types_a = refl
