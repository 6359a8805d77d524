-- ===== src/Recovery/Rejoin/Restore.antt =====
-- A player who comes back to the room of a recovered game.
use asciigame.Base.{
  ℕ, Bool, true, false, not, ◌==ℤ◌, List, [], ◌∷◌, ◌++◌, Option, none, some, ℤ, pos, ◌+ℤ◌, leb_ℤ,
  ltb_ℤ, pos_part, length, take, drop, set, if◌then◌else◌,
}
use asciigame.Config.{atk_buff_duration}
use asciigame.Text.{Text, text_eq}
use asciigame.Text.Decimal.{print_int}
use asciigame.GameMap.{GameMap}
use asciigame.Player.{Player, player_gaming, ItemType, player_at}
use asciigame.Wal.{wal_player_join}
use asciigame.Room.{Room, write_wal, free_seat}
use asciigame.Room.Table.{room_find_by_id}
use asciigame.World.{World, room_in, change}
use asciigame.Recovery.Mapping.{
  RoomMapping, find_recovery_room, add_recovery_room_mapping, remove_recovery_room_mapping,
}
use asciigame.Recovery.Saved.{RecoveryFile, recovery_file_name}
use asciigame.Recovery.Saved.Reading.{SavedPlayer, recovery_get_player_state}
use asciigame.Recovery.Rejoin.{join_text, recovery_create_room_for_game}
use asciigame.Player.{ItemType, item_none, item_health, item_attack, item_shield}

-- The server, the .recovery files, and the rooms of recovered games.
pub record RejoinState : Type 0 where
  pub world : World
  pub files : List RecoveryFile
  pub mapping : List RoomMapping

-- The files hold no other numbers.
abbrev pub item_of : ℤ → ItemType
item_of z =
    if z ==ℤ pos 1
    then item_health
    else (if z ==ℤ pos 2 then item_attack else (if z ==ℤ pos 3 then item_shield else item_none))

abbrev pub positive_items : List ℤ → List ItemType
positive_items [] = []
positive_items (z ∷ zs) =
    let rest = positive_items zs in if ltb_ℤ (pos 0) z then item_of z ∷ rest else rest

-- A number as a truth value.
abbrev pub is_set : ℤ → Bool
is_set z = not (z ==ℤ pos 0)

-- When the potion wears off, and whether the player has been warned of it.
abbrev pub restored_buff : ℤ → SavedPlayer → ℤ × Bool
restored_buff now saved =
    if ltb_ℤ (pos 0) saved.atk_buff_remain
    then (now +ℤ saved.atk_buff_remain, leb_ℤ saved.atk_buff_remain (pos 5000))
    else (if ltb_ℤ saved.base_atk saved.atk
        then (now +ℤ atk_buff_duration, false)
        else (pos 0, false))

unfoldable pub restored_player : ℤ → ℤ → SavedPlayer → Player → Player
unfolding ◌+ℤ◌
restored_player now room_id saved p =
    let items = positive_items (take (pos_part saved.inv_count) saved.inventory) in
    let (expire, warned) = restored_buff now saved in
    record p {
      room_id = room_id;
      status = player_gaming;
      x = saved.x;
      y = saved.y;
      hp = saved.hp;
      max_hp = saved.max_hp;
      atk = saved.atk;
      def = saved.def;
      base_atk = saved.base_atk;
      has_shield = is_set saved.has_shield;
      last_move_time = pos 0;
      last_attack_time = pos 0;
      atk_buff_expire = expire;
      atk_buff_warned = warned;
      inventory = items ++ drop (length items) p.inventory;
      inventory_count = length items;
    }

-- The room that is known for the old one, else a new one that is noted.
abbrev pub rejoin_room : ℤ → GameMap → ℤ → RejoinState → RejoinState × Option ℕ
rejoin_room now unknown original st =
    let existing = find_recovery_room original st.mapping in
    let known = if leb_ℤ (pos 0) existing then room_find_by_id existing st.world.rooms else none in
    elim known [
      | some i ↦ (st, some i)
      | none ↦
          let (rooms, slot) =
            recovery_create_room_for_game now unknown original st.files st.world.rooms in
          let created : RejoinState = record st { world = record (st.world) { rooms = rooms } } in
          elim slot [
            | none ↦ (created, none)
            | some i ↦ elim (room_in rooms.rooms i) [
              | none ↦ (created, none)
              | some r ↦ (
                record created { mapping = add_recovery_room_mapping original r.id st.mapping },
                some i,
              )
            ]
          ]
    ]

-- The player takes a place, if one is free, and the game runs from now on.
abbrev pub seat_restored : ℤ → ℕ → ℕ → Player → SavedPlayer → RejoinState → RejoinState × Option ℤ
seat_restored now s i p saved st = elim (room_in st.world.rooms.rooms i) [
  | none ↦ (st, none)
  | some room ↦ elim (free_seat room.player_ids) [
    | none ↦ (st, none)
    | some seat ↦
        let seated : Room = record room {
          player_ids = set room.player_ids seat p.id;
          player_count = room.player_count +ℤ pos 1;
          game_thread_running = true;
        } in
        let logged = write_wal now wal_player_join (join_text p.id p.username saved) seated in
        let moved = change s (restored_player now room.id saved) st.world in
        (
          record st {
            world = record moved {
              rooms = record (moved.rooms) { rooms = set moved.rooms.rooms i (some logged) };
            };
          },
          some room.id,
        )
  ]
]

-- The player of slot `s`. `none` is -1.
unfoldable pub recovery_restore_player_to_game :
    ℤ → GameMap → ℕ → ℤ → RejoinState → RejoinState × Option ℤ
unfolding recovery_get_player_state find_recovery_room room_find_by_id recovery_create_room_for_game
    add_recovery_room_mapping free_seat write_wal restored_player print_int
recovery_restore_player_to_game now unknown s original st =
    elim (player_at st.world.table.slots s) [
      | none ↦ (st, none)
      | some p ↦ elim (recovery_get_player_state p.username st.files) [
        | none ↦ (st, none)
        | some (_, saved) ↦
            let (found, slot) = rejoin_room now unknown original st in
            elim slot [ none ↦ (found, none) | some i ↦ seat_restored now s i p saved found ]
      ]
    ]

abbrev pub without_file : Text → List RecoveryFile → List RecoveryFile
without_file name [] = []
without_file name (f ∷ files) =
    let rest = without_file name files in if text_eq f.name name then rest else f ∷ rest

unfoldable pub recovery_cleanup_room : ℤ → RejoinState → RejoinState
unfolding text_eq print_int remove_recovery_room_mapping
recovery_cleanup_room room_id st = record st {
  files = without_file (recovery_file_name room_id) st.files;
  mapping = remove_recovery_room_mapping room_id st.mapping;
}
