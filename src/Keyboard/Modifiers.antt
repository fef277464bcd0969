-- ===== src/Keyboard/Modifiers.antt =====
-- The flags of the modifier keys after any sequence of scancodes.
use ppo_os.Common.{
  ℕ, ◌%◌, ◌<◌, ◌≡◌, refl, Bool, true, false, ◌||◌, List, [], ◌∷◌, arith, bit_and, ltb, ◌==◌,
  if◌then◌else◌, Bool-cases, inl, inr, ==→eq, ◌∙◌,
}
use ppo_os.Common.Bits.{all_below, all_below_sound}
use ppo_os.Keyboard.{KeyState, keyboard_read_char, set_modifier, key_char}

-- The state after a sequence of scancodes.
abbrev pub after_keys : KeyState → List ℕ → KeyState
after_keys s [] = s
after_keys s (sc ∷ l) = after_keys (keyboard_read_char s sc).0 l

abbrev pub AllBytes : List ℕ → Type 0
AllBytes [] = Unit {0}
AllBytes (sc ∷ l) = (sc < 256) × AllBytes l

-- Whether the last event of the keys in a set was a press, else what held before. A release is the
-- scancode of the key plus 128.
abbrev pub last_press : (ℕ → Bool) → Bool → List ℕ → Bool
last_press key before [] = before
last_press key before (sc ∷ l) = last_press key (if key (sc % 128) then ltb sc 128 else before) l

abbrev pub is_shift : ℕ → Bool
is_shift sc = (sc == 0x2A) || (sc == 0x36)

abbrev pub is_ctrl : ℕ → Bool
is_ctrl sc = sc == 0x1D

abbrev pub is_alt : ℕ → Bool
is_alt sc = sc == 0x38

-- The flags as the last events say.
abbrev pub expected : KeyState → List ℕ → KeyState
expected s l = record {
  ctrl_down = last_press is_ctrl s.ctrl_down l;
  shift_down = last_press is_shift s.shift_down l;
  alt_down = last_press is_alt s.alt_down l;
}

abbrev low_check : ℕ → Bool
low_check sc = bit_and sc 0x7F == sc % 128

abbrev high_check : ℕ → Bool
high_check sc = if ltb sc 128 then bit_and sc 0x80 == 0 else bit_and sc 0x80 == 128

low_bits : (sc : ℕ) → sc < 256 → bit_and sc 0x7F ≡ sc % 128
unfolding all_below
low_bits sc lt = ==→eq _ _ (all_below_sound 256 low_check sc refl lt)

high_bit : (sc : ℕ) → sc < 256 → high_check sc ≡ true
unfolding all_below
high_bit sc lt = all_below_sound 256 high_check sc refl lt

-- The flags after the key `k` went down or up.
abbrev updated : KeyState → ℕ → Bool → KeyState
updated s k down = record {
  ctrl_down = if is_ctrl k then down else s.ctrl_down;
  shift_down = if is_shift k then down else s.shift_down;
  alt_down = if is_alt k then down else s.alt_down;
}

set_modifier_lem :
    (s : KeyState) (k : ℕ) (down : Bool)
    → ((set_modifier s k down).0 ≡ updated s k down)
      × ((if (set_modifier s k down).1 then (set_modifier s k down).0 else s) ≡ updated s k down)
unfolding set_modifier
set_modifier_lem s k down = elim (Bool-cases (is_ctrl k)) [
  | inl e ↦ rw (==→eq k 0x1D e) (refl, refl)
  | inr c ↦ rw c (elim (Bool-cases (is_shift k)) [
    | inl e ↦ let a : is_alt k ≡ false = ground arith in rw (e, a) (refl, refl)
    | inr f ↦
        rw f
          (elim (Bool-cases (is_alt k)) [ inl e ↦ rw e (refl, refl) | inr g ↦ rw g (refl, refl) ])
  ])
]

abbrev pressed : KeyState → ℕ → KeyState × ℕ
pressed s sc =
    if (set_modifier s sc true).1 then ((set_modifier s sc true).0, 0) else (s, key_char s sc)

press :
    (s : KeyState) (sc : ℕ)
    → (pressed s sc).0 ≡ (if (set_modifier s sc true).1 then (set_modifier s sc true).0 else s)
press s sc = elim (Bool-cases (set_modifier s sc true).1) [ inl e ↦ rw e refl | inr e ↦ rw e refl ]

step_lem : (s : KeyState) (sc : ℕ) → sc < 256 → (keyboard_read_char s sc).0 ≡ expected s (sc ∷ [])
unfolding keyboard_read_char
step_lem s sc lt = elim (Bool-cases (ltb sc 128)) [
  | inl down ↦
      let bit : bit_and sc 0x80 ≡ 0 = ground (arith, high_bit sc lt) in
      let own : sc % 128 ≡ sc = ground arith in
      rw (bit, own, down) (press s sc ∙ (set_modifier_lem s sc true).1)
  | inr up ↦
      let bit : bit_and sc 0x80 ≡ 128 = ground (arith, high_bit sc lt) in
      rw (bit, low_bits sc lt, up) (set_modifier_lem s (sc % 128) false).0
]

-- After any sequence of scancodes (bytes), the flags of control, shift and alt say whether the
-- last event of such a key was a press, or are as before if there was none.
pub after_keys_lem : (s : KeyState) (l : List ℕ) → AllBytes l → after_keys s l ≡ expected s l
after_keys_lem s [] h = refl
after_keys_lem s (sc ∷ l) (lt, h) =
    rw (step_lem s sc lt) (after_keys_lem (expected s (sc ∷ [])) l h)
