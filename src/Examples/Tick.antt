-- ===== src/Examples/Tick.antt =====
-- The message of a tick of the duel, with a health pack on the map and without.
use asciigame.Base.{ℕ, ◌≡◌, ◌++◌, refl, true, [], ◌∷◌, ℤ, pos, arith, map}
use asciigame.Config.{max_msg_len}
use asciigame.Text.{Text, codes}
use asciigame.Text.Decimal.{print_int}
use asciigame.GameMap.{map_item_health}
use asciigame.Room.{Arena, room_broadcast}
use asciigame.Protocol.{protocol_extract_message, extracted}
use asciigame.Game.Broadcast.{seated_players, game_broadcast_state}
use asciigame.Client.{game_state_init, game_set_dirty}
use asciigame.Client.Update.{game_update_from_server}
use asciigame.Client.State.Shown.{shown_player, shown_item}
use asciigame.Client.Synced.{
  state_message, seated_in, lying_in, IsShowable, game_broadcast_state_lem,
}
use asciigame.Client.NoItems.{IsEmptyMap, game_broadcast_state_no_items}
use asciigame.Examples.{fight, yard}

abbrev no_values : ℕ → ℤ
no_values k = pos 0

abbrev with_pack : Arena
with_pack = record fight {
  room = record yard {
    item_count = 1;
    items = (record { x = pos 9; y = pos 9; type = map_item_health; active = true }) ∷ [];
  };
}

with_pack-IsShowable : IsShowable (pos 5000) with_pack
unfolding seated_players print_int
with_pack-IsShowable = record {
  players_short = omega arith;
  players_filled = omega arith;
  players = omega arith;
  items_short = omega arith;
  items_filled = omega arith;
  items = omega arith;
  time = (omega arith, omega arith);
  radius = (omega arith, omega arith);
}

game_broadcast_state_lem_example :
    (game_broadcast_state (pos 5000) with_pack
      ≡ room_broadcast (state_message (pos 5000) with_pack) with_pack)
    × let (buf, r) =
        protocol_extract_message (state_message (pos 5000) with_pack ++ codes "OK|") max_msg_len in
      (buf ≡ codes "OK|")
      × (s : Text) × (r ≡ extracted s)
      × let h = game_update_from_server (pos 7) no_values s game_state_init in
        (h.players ≡ map shown_player (seated_in with_pack))
        × (h.items ≡ map shown_item (lying_in with_pack))
        × (h.poison_radius ≡ pos 10)
game_broadcast_state_lem_example =
    game_broadcast_state_lem (pos 7) (pos 5000) no_values with_pack (codes "OK|") game_state_init
      with_pack-IsShowable

fight-IsEmptyMap : IsEmptyMap (pos 5000) fight
unfolding seated_players print_int
fight-IsEmptyMap = record {
  players_short = omega arith;
  players_filled = omega arith;
  no_items = refl;
  time = (omega arith, omega arith);
  radius = (omega arith, omega arith);
}

game_broadcast_state_no_items_example :
    let (buf, r) =
      protocol_extract_message (state_message (pos 5000) fight ++ codes "OK|") max_msg_len in
    (buf ≡ codes "OK|")
    × (s : Text) × (r ≡ extracted s)
    × (game_update_from_server (pos 7) no_values s game_state_init ≡ game_set_dirty game_state_init)
game_broadcast_state_no_items_example =
    game_broadcast_state_no_items (pos 7) (pos 5000) no_values fight (codes "OK|") game_state_init
      fight-IsEmptyMap
