-- ===== src/Game/Loop/Commands.antt =====
-- The commands of the players do not change when the game began either.
use asciigame.Base.{ℕ, ◌≡◌, refl, ℤ, arith, inl, inr, Option-cases, Bool-cases, ltb_ℤ, ◌-ℤ◌}
use asciigame.Config.{move_cooldown_ms}
use asciigame.GameMap.{map_is_walkable}
use asciigame.Player.{player_at}
use asciigame.Room.{Arena, write_wal, room_broadcast}
use asciigame.Game.Pickup.{game_check_item_pickup}
use asciigame.Game.Move.{game_handle_move, step_from}
use asciigame.Game.UseItem.{game_handle_use_item}
use asciigame.Game.Loop.Ends.{began}

game_check_item_pickup-began :
    (now : ℤ) (s : ℕ) (a : Arena) → began (game_check_item_pickup now s a) ≡ began a
unfolding game_check_item_pickup write_wal room_broadcast
game_check_item_pickup-began now s a = ground arith

pub game_handle_move-began :
    (now : ℤ) (s direction : ℕ) (a : Arena) → began (game_handle_move now s direction a).0 ≡ began a
unfolding game_handle_move write_wal
game_handle_move-began now s direction a = elim (Option-cases (player_at a.players s)) [
  | inl e ↦ rw (e, game_handle_move) refl
  | inr (p, e) ↦ elim (Bool-cases (ltb_ℤ (now -ℤ p.last_move_time) move_cooldown_ms)) [
    | inl c ↦ rw (e, c, game_handle_move) refl
    | inr c ↦ elim (Option-cases (step_from p.x p.y direction)) [
      | inl f ↦ rw (e, c, f, game_handle_move) refl
      | inr ((nx, ny), f) ↦ elim (Bool-cases (map_is_walkable a.room.grid nx ny)) [
        | inr w ↦ rw (e, c, f, w, game_handle_move) refl
        | inl w ↦ rw (e, c, f, w, game_handle_move) (game_check_item_pickup-began now s _)
      ]
    ]
  ]
]

pub game_handle_use_item-began :
    (now : ℤ) (s : ℕ) (index : ℤ) (a : Arena)
    → began (game_handle_use_item now s index a).0 ≡ began a
unfolding game_handle_use_item write_wal
game_handle_use_item-began now s index a = ground arith
