-- ===== src/Recovery/Rejoin.antt =====
-- The room of a recovered game, and the players who come back to it: `recovery_create_room_for_game`,
-- `recovery_restore_player_to_game`, `recovery_cleanup_room`.
pub mod Fields
pub mod Restore
use asciigame.Base.{
  ℕ, zero, suc, ◌+◌, ◌-◌, Bool, true, false, not, ◌&&◌, List, [], ◌∷◌, ◌++◌, Option, none, some, ℤ,
  pos, negsuc, ◌+ℤ◌, ◌==ℤ◌, ltb, leb_ℤ, ltb_ℤ, get_or, length, map, take, drop, replicate, set,
  if◌then◌else◌,
}
use asciigame.Config.{
  max_inventory, max_map_items, max_room_name, max_room_players, map_width, map_height,
  atk_buff_duration,
}
use asciigame.Text.{Text, codes, text_eq, copy_into, snprintf}
use asciigame.Text.Decimal.{print_int, atoi}
use asciigame.Text.Scan.{Directive, byte, int, sscanf, strip_prefix}
use asciigame.GameMap.{
  GameMap, MapItem, MapItemType, map_item_none, map_item_health, map_item_attack, map_item_shield,
  map_generate,
}
use asciigame.Player.{
  Player, PlayerStatus, player_gaming, ItemType, item_none, item_health, item_attack, item_shield,
  is_empty, player_at, update_player,
}
use asciigame.Wal.{WalManager, wal_game_start, wal_player_join, wal_item_spawn, wal_poison_shrink}
use asciigame.Wal.Records.{wal_create_for_room}
use asciigame.Room.{Room, room_gaming, write_wal, entry, commas, free_seat, no_map}
use asciigame.Room.Start.{item_entry, map_item_number}
use asciigame.Room.Table.{RoomTable, room_create, room_find_by_id}
use asciigame.World.{World, room_in, change}
use asciigame.Recovery.Start.{set_first}
use asciigame.Recovery.Mapping.{
  RoomMapping, find_recovery_room, add_recovery_room_mapping, remove_recovery_room_mapping,
}
use asciigame.Recovery.Saved.{RecoveryFile, is_gaming_status, recovery_file_name}
use asciigame.Recovery.Saved.Reading.{SavedPlayer, saved_player, recovery_get_player_state}
use asciigame.Recovery.Rejoin.Fields.{
  FileFields, add_saved_item, file_fields, file_keys, file_line, first_fields, map_item_of, row_of,
}

-- "pid=%d,username=%s,x=%d,...,inv=%d,%d,%d,%d,%d"
abbrev pub join_text : ℤ → Text → SavedPlayer → Text
join_text pid username p = snprintf 512 (
    commas (
      entry (codes "pid") pid
      ∷ (codes "username=" ++ username)
      ∷ entry (codes "x") p.x
      ∷ entry (codes "y") p.y
      ∷ entry (codes "hp") p.hp
      ∷ entry (codes "max_hp") p.max_hp
      ∷ entry (codes "atk") p.atk
      ∷ entry (codes "def") p.def
      ∷ entry (codes "base_atk") p.base_atk
      ∷ entry (codes "shield") p.has_shield
      ∷ entry (codes "atk_buff_remain") p.atk_buff_remain
      ∷ (codes "inv=" ++ commas (map print_int p.inventory))
      ∷ []))

abbrev pub log_saved : ℤ → List Text → Room → Room
log_saved now [] room = room
log_saved now (line ∷ lines) room =
    let logged : Room = elim (strip_prefix (codes "player=") line) [
      | none ↦ room
      | some v ↦ elim (saved_player v) [
        | none ↦ room
        | some p ↦
            if is_gaming_status p.status && ltb_ℤ (pos 0) p.hp
            then write_wal now wal_player_join (join_text p.pid p.username p) room
            else room
      ]
    ] in
    log_saved now lines logged

-- "type=%d,x=%d,y=%d"
abbrev pub saved_item_entry : MapItem → Text
saved_item_entry i = snprintf 128 (
    commas (
      entry (codes "type") (map_item_number i.type)
      ∷ entry (codes "x") i.x
      ∷ entry (codes "y") i.y
      ∷ []))

abbrev pub log_saved_items : ℤ → List MapItem → Room → Room
log_saved_items now [] room = room
log_saved_items now (i ∷ items) room =
    log_saved_items now items (write_wal now wal_item_spawn (saved_item_entry i) room)

-- The whole state that was recovered, at the beginning of the new log.
abbrev pub log_recovered : ℤ → List Text → FileFields → Room → Room
log_recovered now lines f room =
    let header = snprintf 512 (
      commas (
        (codes "room_name=" ++ f.room_name)
        ∷ entry (codes "max_players") (pos max_room_players)
        ∷ entry (codes "recovered_at") now
        ∷ entry (codes "poison_radius") f.poison_radius
        ∷ [])) in
    let started = log_saved now lines (write_wal now wal_game_start header room) in
    write_wal now wal_poison_shrink (snprintf 64 (entry (codes "radius") f.poison_radius))
      (log_saved_items now f.items started)

-- `room` is new. The rows of the map that are not in the file are unknown; the server writes all.
unfoldable pub recovered_room : ℤ → ℤ → GameMap → List Text → FileFields → Room → Room
unfolding write_wal saved_player strip_prefix print_int wal_create_for_room map_generate
recovered_room now original_room_id unknown lines f room = log_recovered now lines f (record room {
  status = room_gaming;
  poison_radius = f.poison_radius;
  game_start_time = now;
  last_item_spawn = now;
  last_poison_shrink = now;
  is_recovery_room = true;
  expected_players = f.expected_players;
  recovery_start_time = now;
  original_room_id = original_room_id;
  grid = if f.has_map then f.rows ++ drop (length f.rows) unknown else map_generate;
  items = f.items ++ drop (length f.items) room.items;
  item_count = length f.items;
  wal = some (wal_create_for_room now original_room_id []);
})

abbrev pub file_named : Text → List RecoveryFile → Option (List Text)
file_named name [] = none
file_named name (f ∷ files) =
    let next = file_named name files in if text_eq f.name name then some f.lines else next

-- The old log of the room is deleted.
unfoldable pub recovery_create_room_for_game :
    ℤ → GameMap → ℤ → List RecoveryFile → RoomTable → RoomTable × Option ℕ
unfolding file_fields recovered_room room_create text_eq print_int
recovery_create_room_for_game now unknown original_room_id files t =
    elim (file_named (recovery_file_name original_room_id) files) [
      | none ↦ (t, none)
      | some lines ↦
          let f = file_fields lines first_fields in
          let (created, slot) = room_create f.room_name (pos max_room_players) t in
          elim slot [
            | none ↦ (created, none)
            | some i ↦ elim (room_in created.rooms i) [
              | none ↦ (created, none)
              | some room ↦ (
                record created {
                  rooms =
                      set created.rooms i
                        (some (recovered_room now original_room_id unknown lines f room));
                },
                some i,
              )
            ]
          ]
    ]
