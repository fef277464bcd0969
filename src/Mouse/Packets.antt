-- ===== src/Mouse/Packets.antt =====
-- What a stream of bytes does to the position.
use mathlib.Core.Path.{subst}
use ppo_os.Common.{
  ℕ, ◌+◌, ◌*◌, ◌-◌, ◌≤◌, ◌<◌, ◌≡◌, ◌⊎◌, inl, inr, ◌++◌, refl, sym, Option, none, some, List, [],
  ◌∷◌, bit_and, arith, ltb, ◌==◌, if◌then◌else◌, option_case, length, Bool-cases, true, false,
  ltb→lt, ◌^◌,
}
use ppo_os.Common.Int.{ℤ, sub_ℕ, pos, ◌-ℤ◌}
use ppo_os.Mouse.{Mouse, signed8, scaled, clamp, add_int, store_byte, take_packet, mouse_poll}

abbrev pub polled : Mouse → List (Option ℕ) → Option Mouse
polled s [] = some s
polled s (p ∷ polls) = option_case (mouse_poll s p) none (λ t. polled t polls)

-- The bytes that a sequence of polls finds.
abbrev pub bytes_of : List (Option ℕ) → List ℕ
bytes_of [] = []
bytes_of (none ∷ polls) = bytes_of polls
bytes_of (some b ∷ polls) = b ∷ bytes_of polls

-- A place on the screen and the buttons.
pub record Pointer : Type 0 where
  pub x : ℕ
  pub y : ℕ
  pub buttons : ℕ

-- Two steps for each unit of a byte, which counts down from 256 for the negative numbers, and no further
-- than 0.
abbrev pub forward : ℕ → ℕ → ℕ
forward v b = if ltb b 128 then v + 2 * b else v - 2 * (1 + (255 - b))

abbrev pub backward : ℕ → ℕ → ℕ
backward v b = if ltb b 128 then v - 2 * b else v + 2 * (1 + (255 - b))

abbrev pub move : Pointer → ℕ → ℕ → ℕ → Pointer
move p flags right up = record {
  x = forward p.x right;
  y = backward p.y up;
  buttons = bit_and flags 7;
}

-- Whole packets move the pointer; one or two bytes at the end do nothing.
abbrev pub moved : Pointer → List ℕ → Pointer
moved p [] = p
moved p (a ∷ []) = p
moved p (a ∷ (b ∷ [])) = p
moved p (a ∷ (b ∷ (c ∷ rest))) = moved (move p a b c) rest

-- The state shows this pointer.
pub record Shows (s : Mouse) (p : Pointer) : Type 0 where
  pub x : s.x ≡ pos p.x
  pub y : s.y ≡ pos p.y
  pub buttons : s.buttons ≡ p.buttons

-- The bytes of an unfinished packet.
abbrev pub pending : Mouse → List ℕ
pending s =
    if s.packet_cycle == 0
    then []
    else if s.packet_cycle == 1
    then s.packet0 ∷ []
    else s.packet0 ∷ s.packet1 ∷ []

three : (n : ℕ) → n < 3 → (n ≡ 0) ⊎ ((n ≡ 1) ⊎ (n ≡ 2))
three n lt = omega arith

-- The step of a byte below 128, and of another one.
scaled_low : (b : ℕ) → ltb b 128 ≡ true → scaled (signed8 b) ≡ pos (2 * b)
scaled_low b low = rw low (ground arith)

scaled_high : (b : ℕ) → ltb b 128 ≡ false → scaled (signed8 b) ≡ sub_ℕ 0 (2 * (1 + (255 - b)))
scaled_high b high = rw high (ground arith)

flipped_low : (b : ℕ) → ltb b 128 ≡ true → scaled (pos 0 -ℤ signed8 b) ≡ sub_ℕ 0 (2 * b)
flipped_low b low = rw low (ground arith)

flipped_high : (b : ℕ) → ltb b 128 ≡ false → scaled (pos 0 -ℤ signed8 b) ≡ pos (2 * (1 + (255 - b)))
flipped_high b high = rw high (ground arith)

-- A sum that fits, cut off at 0.
abbrev Steps : ℕ → ℤ → ℕ → Type 0
Steps v step v' = (z : ℤ) × (add_int (pos v) step ≡ some z) × (clamp z ≡ pos v')

step_up : (v k : ℕ) → v + k < 2 ^ 31 → Steps v (pos k) (v + k)
unfolding add_int
step_up v k room = (pos (v + k), ground arith, ground arith)

step_down : (v k : ℕ) → v < 2 ^ 31 → k < 2 ^ 31 → Steps v (sub_ℕ 0 k) (v - k)
unfolding add_int
step_down v k room small = (sub_ℕ v k, ground arith, ground arith)

step_forward : (v b : ℕ) → v + 256 < 2 ^ 31 → Steps v (scaled (signed8 b)) (forward v b)
step_forward v b room = elim (Bool-cases (ltb b 128)) [
  | inl low ↦ rw (scaled_low b low, low) (step_up v (2 * b) (omega (arith, ltb→lt b 128 low)))
  | inr high ↦
      rw (scaled_high b high, high) (step_down v (2 * (1 + (255 - b))) (omega arith) (omega arith))
]

step_backward : (v b : ℕ) → v + 256 < 2 ^ 31 → Steps v (scaled (pos 0 -ℤ signed8 b)) (backward v b)
step_backward v b room = elim (Bool-cases (ltb b 128)) [
  | inl low ↦
      rw (flipped_low b low, low)
        (step_down v (2 * b) (omega arith) (omega (arith, ltb→lt b 128 low)))
  | inr high ↦ rw (flipped_high b high, high) (step_up v (2 * (1 + (255 - b))) (ground arith))
]

forward_le : (v b : ℕ) → forward v b ≤ v + 256
forward_le v b = ground arith

backward_le : (v b : ℕ) → backward v b ≤ v + 256
backward_le v b = ground arith

-- What a byte does, while its coordinates have room for a step.
record Polled (s : Mouse) (b : ℕ) (p : Pointer) (t : Mouse) (q : Pointer) : Type 0 where
  is : mouse_poll s (some b) ≡ some t
  shows : Shows t q
  in_step : t.packet_cycle < 3
  near_x : q.x ≤ p.x + 256
  near_y : q.y ≤ p.y + 256
  same : (rest : List ℕ) → moved q (pending t ++ rest) ≡ moved p (pending s ++ (b ∷ rest))

poll-moved :
    (s : Mouse) (b : ℕ) (p : Pointer)
    → Shows s p
    → s.packet_cycle < 3
    → p.x + 256 < 2 ^ 31
    → p.y + 256 < 2 ^ 31
    → (t : Mouse) × (q : Pointer) × Polled s b p t q
unfolding mouse_poll store_byte take_packet
poll-moved s b p shows lt room_x room_y = elim (three s.packet_cycle lt) [
  | inl e ↦ (
    record s { packet_cycle = 1; packet0 = b },
    p,
    record {
      is = rw e refl;
      shows = record { x = shows.x; y = shows.y; buttons = shows.buttons };
      in_step = omega arith;
      near_x = omega arith;
      near_y = omega arith;
      same = λ rest. rw e refl;
    },
  )
  | inr (inl e) ↦ (
    record s { packet_cycle = 2; packet1 = b },
    p,
    record {
      is = rw e refl;
      shows = record { x = shows.x; y = shows.y; buttons = shows.buttons };
      in_step = omega arith;
      near_x = omega arith;
      near_y = omega arith;
      same = λ rest. rw e refl;
    },
  )
  | inr (inr e) ↦
      let (x, at_x, right) = step_forward p.x s.packet1 room_x in
      let (y, at_y, up) = step_backward p.y b room_y in
      (
        record s {
          packet_cycle = 0;
          packet2 = b;
          buttons = bit_and s.packet0 7;
          dx = scaled (signed8 s.packet1);
          dy = scaled (pos 0 -ℤ signed8 b);
          x = clamp x;
          y = clamp y;
        },
        move p s.packet0 s.packet1 b,
        record {
          is = rw (e, shows.x, shows.y, at_x, at_y) refl;
          shows = record { x = right; y = up; buttons = refl };
          in_step = omega arith;
          near_x = forward_le p.x s.packet1;
          near_y = backward_le p.y b;
          same = λ rest. rw e refl;
        },
      )
]

-- An unfinished packet does nothing.
moved-pending : (s : Mouse) (p : Pointer) → s.packet_cycle < 3 → moved p (pending s ++ []) ≡ p
moved-pending s p lt = elim (three s.packet_cycle lt) [
  | inl e ↦ rw e refl
  | inr (inl e) ↦ rw e refl
  | inr (inr e) ↦ rw e refl
]

-- From a position that is not negative, after a sequence of polls, with or without a byte, during
-- which no coordinate can reach 2^31 by 256 for each byte, no int has overflowed, position and
-- buttons are those that the whole packets among the bytes give, read in groups of three behind
-- the bytes already pending: two steps for each unit, to the left and down for the negative ones,
-- and no further than 0; and fewer than three bytes are pending.
pub polled-moved :
    (polls : List (Option ℕ)) (s : Mouse) (p : Pointer)
    → Shows s p
    → s.packet_cycle < 3
    → p.x + 256 * length (bytes_of polls) < 2 ^ 31
    → p.y + 256 * length (bytes_of polls) < 2 ^ 31
    → (t : Mouse) × (polled s polls ≡ some t)
      × Shows t (moved p (pending s ++ bytes_of polls))
      × (t.packet_cycle < 3)
unfolding mouse_poll
polled-moved [] s p shows lt room_x room_y =
    (s, refl, subst (Shows s) (sym (moved-pending s p lt)) shows, lt)
polled-moved (none ∷ polls) s p shows lt room_x room_y =
    polled-moved polls s p shows lt room_x room_y
polled-moved (some b ∷ polls) s p shows lt room_x room_y =
    let (t, q, h) = poll-moved s b p shows lt (omega arith) (omega arith) in
    let (u, e, end, in_step) =
      polled-moved polls t q h.shows h.in_step (omega (arith, h.near_x))
        (omega (arith, h.near_y)) in
    (u, rw h.is e, subst (Shows u) (h.same (bytes_of polls)) end, in_step)
