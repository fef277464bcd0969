-- ===== src/Mouse.antt =====
-- kernel/src/src/mouse.c: packets of three bytes and the position. A byte is its unsigned value, and
-- `none` says that the sum of a coordinate overflows an `int`. The commands to the device are left out.
pub mod Packets
mod Tests
use ppo_os.Common.{
  ℕ, zero, suc, ◌+◌, ◌-◌, ◌^◌, ◌&&◌, bit_and, Option, none, some, ltb, leb, ◌==◌, if◌then◌else◌,
  option_case,
}
use ppo_os.Common.Int.{ℤ, pos, negsuc, pos_part, neg_part, ◌+ℤ◌, ◌-ℤ◌, ltb_ℤ}

-- `struct mouse_state` with the statics of the driver; `packet0` to `packet2` are the array.
pub record Mouse : Type 0 where
  pub x : ℤ
  pub y : ℤ
  pub dx : ℤ
  pub dy : ℤ
  pub buttons : ℕ
  pub packet0 : ℕ
  pub packet1 : ℕ
  pub packet2 : ℕ
  pub packet_cycle : ℕ

-- The number that an `int8_t` stands for.
abbrev pub signed8 : ℕ → ℤ
signed8 b = if ltb b 128 then pos b else negsuc (255 - b)

-- `coordinate += step` on an `int`.
unfoldable pub add_int : ℤ → ℤ → Option ℤ
add_int coordinate step =
    let sum = coordinate +ℤ step in
    if ltb (pos_part sum) (2 ^ 31) && leb (neg_part sum) (2 ^ 31) then some sum else none

-- MOUSE_SCALE is 2.
abbrev pub scaled : ℤ → ℤ
scaled v = v +ℤ v

abbrev pub clamp : ℤ → ℤ
clamp v = if ltb_ℤ v (pos 0) then pos 0 else v

-- What `mouse_init` sets.
unfoldable pub mouse_init : Mouse → Mouse
mouse_init s = record s { x = pos 0; y = pos 0; dx = pos 0; dy = pos 0; buttons = 0 }

-- `packet[packet_cycle++] = data`
unfoldable pub store_byte : Mouse → ℕ → Mouse
store_byte s data_byte =
    let next = record s { packet_cycle = s.packet_cycle + 1 } in
    if s.packet_cycle == 0
    then record next { packet0 = data_byte }
    else if s.packet_cycle == 1
    then record next { packet1 = data_byte }
    else record next { packet2 = data_byte }

-- What follows a third byte.
unfoldable pub take_packet : Mouse → Option Mouse
take_packet s =
    let dx = scaled (signed8 s.packet1) in
    let dy = scaled (pos 0 -ℤ signed8 s.packet2) in
    option_case (add_int s.x dx) none λ x. option_case (add_int s.y dy) none λ y. some (record s {
      packet_cycle = 0;
      buttons = bit_and s.packet0 7;
      dx = dx;
      dy = dy;
      x = clamp x;
      y = clamp y;
    })

-- The second argument is `none` for a status without a byte.
unfoldable pub mouse_poll : Mouse → Option ℕ → Option Mouse
mouse_poll s none = some s
mouse_poll s (some data_byte) =
    let stored = store_byte s data_byte in
    if ltb stored.packet_cycle 3 then some stored else take_packet stored
