-- ===== src/Handler/Play.antt =====
-- The commands of a running game: move, attack and use of an item.
use asciigame.Base.{ℕ, List, [], ◌∷◌, none, some, ℤ, Bool, true, false, not, if◌then◌else◌}
use asciigame.Config.{
  err_invalid_format, err_invalid_arg_count, err_room_not_found, err_move_cooldown,
  err_invalid_move, err_attack_cooldown, err_invalid_item_index,
}
use asciigame.Text.{Text, codes}
use asciigame.Text.Decimal.{atoi}
use asciigame.Player.{Player, is_gaming}
use asciigame.Room.Table.{room_find_by_id}
use asciigame.Game.Move.{Moved, moved, on_cooldown, invalid_move, game_handle_move}
use asciigame.Game.Attack.{game_handle_attack}
use asciigame.Game.UseItem.{game_handle_use_item}
use asciigame.World.{World, room_in, into_room, out_of_room}
use asciigame.Handler.{send_ok, send_error, refuse}

-- `msg->args[0][0]`; the byte after an empty text is its NUL.
abbrev pub first_byte : Text → ℕ
first_byte [] = 0
first_byte (c ∷ s) = c

abbrev pub move_reply : ℕ → Moved → World → World × Bool
move_reply s moved w = (w, true)
move_reply s on_cooldown w = refuse s err_move_cooldown (codes "Move on cooldown") w
move_reply s invalid_move w = refuse s err_invalid_move (codes "Invalid move") w

unfoldable pub handler_move : ℤ → ℕ → Player → List Text → World → World × Bool
unfolding send_error room_find_by_id game_handle_move
handler_move now s p [] w = refuse s err_invalid_arg_count (codes "Usage: MOVE|direction") w
handler_move now s p (direction ∷ _) w =
    if not (is_gaming p.status)
    then refuse s err_invalid_format (codes "Not in game") w
    else elim (room_find_by_id p.room_id w.rooms) [
      | none ↦ refuse s err_room_not_found (codes "Room not found") w
      | some i ↦ elim (room_in w.rooms.rooms i) [
        | none ↦ refuse s err_room_not_found (codes "Room not found") w
        | some r ↦
            let (a, ret) = game_handle_move now s (first_byte direction) (into_room w r) in
            move_reply s ret (out_of_room w i a)
      ]
    ]

abbrev pub attack_reply : ℕ → Bool → World → World × Bool
attack_reply s true w = (w, true)
attack_reply s false w = refuse s err_attack_cooldown (codes "Attack on cooldown") w

unfoldable pub handler_attack : ℤ → ℕ → Player → World → World × Bool
unfolding send_error room_find_by_id game_handle_attack
handler_attack now s p w =
    if not (is_gaming p.status)
    then refuse s err_invalid_format (codes "Not in game") w
    else elim (room_find_by_id p.room_id w.rooms) [
      | none ↦ refuse s err_room_not_found (codes "Room not found") w
      | some i ↦ elim (room_in w.rooms.rooms i) [
        | none ↦ refuse s err_room_not_found (codes "Room not found") w
        | some r ↦
            let (a, done) = game_handle_attack now s (into_room w r) in
            attack_reply s done (out_of_room w i a)
      ]
    ]

abbrev pub use_reply : ℕ → Bool → World → World × Bool
use_reply s true w = (send_ok s (codes "Item used") w, true)
use_reply s false w = refuse s err_invalid_item_index (codes "Invalid item index") w

unfoldable pub handler_use_item : ℤ → ℕ → Player → List Text → World → World × Bool
unfolding send_ok send_error room_find_by_id game_handle_use_item atoi
handler_use_item now s p [] w = refuse s err_invalid_arg_count (codes "Usage: USE_ITEM|index") w
handler_use_item now s p (index ∷ _) w =
    if not (is_gaming p.status)
    then refuse s err_invalid_format (codes "Not in game") w
    else elim (room_find_by_id p.room_id w.rooms) [
      | none ↦ refuse s err_room_not_found (codes "Room not found") w
      | some i ↦ elim (room_in w.rooms.rooms i) [
        | none ↦ refuse s err_room_not_found (codes "Room not found") w
        | some r ↦
            let (a, done) = game_handle_use_item now s (atoi index) (into_room w r) in
            use_reply s done (out_of_room w i a)
      ]
    ]
