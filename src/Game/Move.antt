-- ===== src/Game/Move.antt =====
-- `game_handle_move`: cooldown, direction, collision and the new position.
pub mod Effect
use asciigame.Base.{
  ℕ, ◌≡◌, Bool, true, false, not, List, [], ◌∷◌, ◌++◌, Option, none, some, ℤ, pos, ◌+ℤ◌, ◌-ℤ◌,
  ltb_ℤ, ◌==◌, if◌then◌else◌,
}
use asciigame.Config.{move_cooldown_ms}
use asciigame.Text.{codes, snprintf}
use asciigame.GameMap.{map_is_walkable}
use asciigame.Player.{Player, player_at, update_player}
use asciigame.Wal.{wal_move}
use asciigame.Room.{Arena, log_action, entry, commas}
use asciigame.Game.Pickup.{game_check_item_pickup}

-- The return values 0, -1 and -2.
pub data Moved : Type 0 where
  moved on_cooldown invalid_move : Moved

-- The position one step on in a direction, given by its letter.
unfoldable pub step_from : ℤ → ℤ → ℕ → Option (ℤ × ℤ)
step_from x y direction =
    if direction == b'U'
    then some (x, y -ℤ pos 1)
    else if direction == b'D'
    then some (x, y +ℤ pos 1)
    else if direction == b'L'
    then some (x -ℤ pos 1, y)
    else if direction == b'R'
    then some (x +ℤ pos 1, y)
    else none

unfoldable pub place_player : ℤ → ℤ → ℤ → Player → Player
place_player now nx ny p = record p { x = nx; y = ny; last_move_time = now }

unfoldable pub game_handle_move : ℤ → ℕ → ℕ → Arena → Arena × Moved
unfolding step_from place_player
game_handle_move now s direction a = elim (player_at a.players s) [
  | none ↦ (a, on_cooldown)
  | some p ↦
      if ltb_ℤ (now -ℤ p.last_move_time) move_cooldown_ms
      then (a, on_cooldown)
      else elim (step_from p.x p.y direction) [
        | none ↦ (a, invalid_move)
        | some (nx, ny) ↦
            if not (map_is_walkable a.room.grid nx ny)
            then (a, invalid_move)
            else let wal_data = snprintf 256 (
                commas (
                  entry (codes "pid") p.id
                  ∷ (codes "dir=" ++ direction ∷ [])
                  ∷ entry (codes "ox") p.x
                  ∷ entry (codes "oy") p.y
                  ∷ entry (codes "nx") nx
                  ∷ entry (codes "ny") ny
                  ∷ [])) in
              let logged = log_action now wal_move wal_data a in
              let placed : Arena = record logged {
                players = update_player s (place_player now nx ny) logged.players;
              } in
              (game_check_item_pickup now s placed, moved)
      ]
]
