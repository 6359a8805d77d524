-- ===== src/Room/Ending.antt =====
-- `room_end_game`: players and room as they are before the next game.
use asciigame.Base.{false, List, [], ◌∷◌, Option, none, some, ℤ, pos, negsuc, map}
use asciigame.Config.{max_msg_len}
use asciigame.Text.{codes, snprintf}
use asciigame.GameMap.{MapItem, map_get_initial_poison_radius}
use asciigame.Player.{Player, player_in_room, player_find_by_id, update_player}
use asciigame.Protocol.{protocol_build_game_end}
use asciigame.Wal.{wal_game_end}
use asciigame.Room.{
  Room, Arena, room_waiting, room_ended, no_map, taken_ids, room_broadcast, write_wal, entry,
}

-- One player at the end of a game. The inventory array keeps its entries; the count is reset.
unfoldable pub leave_game : Player → Player
leave_game p = record p {
  status = player_in_room;
  hp = p.max_hp;
  x = pos 0;
  y = pos 0;
  has_shield = false;
  atk = p.base_atk;
  atk_buff_expire = pos 0;
  atk_buff_warned = false;
  inventory_count = 0;
}

unfoldable pub leave_all : List ℤ → List (Option Player) → List (Option Player)
unfolding leave_game
leave_all [] ps = ps
leave_all (id ∷ ids) ps =
    leave_all ids
      (elim (player_find_by_id ps id) [ none ↦ ps | some s ↦ update_player s leave_game ps ])

abbrev pub deactivate : MapItem → MapItem
deactivate i = record i { active = false }

-- The log is closed; its file, the snapshot and the recovery file are deleted.
unfoldable pub room_end_game : ℤ → ℤ → Arena → Arena
unfolding leave_all
room_end_game now winner_id a =
    let ids = taken_ids a.room.player_ids in
    let ended : Room = record (a.room) { status = room_ended; game_thread_running = false } in
    let logged =
      write_wal now wal_game_end (snprintf 64 (entry (codes "winner") winner_id)) ended in
    let told =
      room_broadcast (protocol_build_game_end max_msg_len winner_id [])
        (record a { room = logged }) in
    record told {
      players = leave_all ids told.players;
      room = record (told.room) {
        status = room_waiting;
        grid = no_map;
        item_count = 0;
        items = map deactivate told.room.items;
        poison_radius = map_get_initial_poison_radius;
        game_start_time = pos 0;
        last_item_spawn = pos 0;
        last_poison_shrink = pos 0;
        wal = none;
        is_recovery_room = false;
        expected_players = pos 0;
        recovery_start_time = pos 0;
        original_room_id = negsuc 0;
        last_snapshot_time = pos 0;
      };
    }
