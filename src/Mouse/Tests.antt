-- ===== src/Mouse/Tests.antt =====
-- A packet that moves by 5 to the right and 3 down, with idle polls between its bytes, from (10, 10).
use ppo_os.Common.{ℕ, ◌<◌, ◌≡◌, refl, Option, none, some, List, [], ◌∷◌, arith}
use ppo_os.Common.Int.{pos}
use ppo_os.Mouse.{Mouse}
use ppo_os.Mouse.Packets.{Shows, moved, polled, polled-moved}

abbrev resting : Mouse
resting = record {
  x = pos 10;
  y = pos 10;
  dx = pos 0;
  dy = pos 0;
  buttons = 0;
  packet0 = 0;
  packet1 = 0;
  packet2 = 0;
  packet_cycle = 0;
}

abbrev answers : List (Option ℕ)
answers = some 9 ∷ none ∷ some 5 ∷ none ∷ some 253 ∷ some 8 ∷ []

polled-moved_example :
    (t : Mouse) × (polled resting answers ≡ some t)
    × Shows t (record { x = 20; y = 16; buttons = 1 })
    × (t.packet_cycle < 3)
polled-moved_example =
    polled-moved answers resting (record { x = 10; y = 10; buttons = 0 })
      (record { x = refl; y = refl; buttons = refl }) (omega arith) (omega arith) (omega arith)

-- From (3, 2000) by 128 to the left and 127 up, cut off at the left edge.
left_edge :
    moved (record { x = 3; y = 2000; buttons = 0 }) (8 ∷ 128 ∷ 127 ∷ [])
    ≡ record { x = 0; y = 1746; buttons = 0 }
left_edge = refl
