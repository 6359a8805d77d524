-- ===== src/Room/Start.antt =====
-- `room_start_game`: the map, the first items, the places of the players, and the records of it all.
use asciigame.Base.{
  ℕ, zero, suc, ◌+◌, ◌%◌, Bool, true, false, not, ◌&&◌, List, [], ◌∷◌, ◌++◌, Option, none, some, ℤ,
  pos, ltb, ltb_ℤ, ◌==◌, if◌then◌else◌, set, get_or,
}
use asciigame.Config.{min_room_players, max_msg_len, max_map_items}
use asciigame.Text.{Text, codes, snprintf}
use asciigame.Text.Decimal.{print_int}
use asciigame.GameMap.{
  GameMap, MapItem, MapItemType, map_item_none, map_item_health, map_item_attack, map_item_shield,
  map_generate, map_get_initial_poison_radius, map_random_position, map_spawn,
}
use asciigame.Player.{
  Player, player_gaming, ItemType, item_none, item_health, item_attack, item_shield,
  player_find_by_id, player_reset_game_state, player_at, update_player,
}
use asciigame.Protocol.{protocol_build_game_start}
use asciigame.Wal.{wal_game_start, wal_player_join, wal_item_spawn}
use asciigame.Room.{
  Room, Arena, room_gaming, can_start, taken_ids, room_broadcast, write_wal, entry, commas,
}

-- `(MapItemType)(rand() % 3 + 1)`
unfoldable pub random_item : ℕ → MapItemType
random_item r =
    if r % 3 == 0 then map_item_health else if r % 3 == 1 then map_item_attack else map_item_shield

-- The items placed so far, and the calls of rand() made.
pub record Placed : Type 0 where
  pub placed : List MapItem
  pub count : ℕ
  pub calls : ℕ

-- The loop stops at `max_map_items` items.
unfoldable pub place_cell : (ℕ → ℕ) → ℕ → ℕ → ℕ → Placed → Placed
unfolding random_item
place_cell rand y x c st =
    if ltb st.count max_map_items && c == map_spawn
    then record {
      placed =
          set st.placed st.count
            (record { x = pos x; y = pos y; type = random_item (rand st.calls); active = true });
      count = st.count + 1;
      calls = st.calls + 1;
    }
    else st

unfoldable pub place_row : (ℕ → ℕ) → ℕ → ℕ → List ℕ → Placed → Placed
unfolding place_cell
place_row rand y x [] st = st
place_row rand y x (c ∷ cs) st = place_row rand y (suc x) cs (place_cell rand y x c st)

unfoldable pub place_rows : (ℕ → ℕ) → ℕ → GameMap → Placed → Placed
unfolding place_row
place_rows rand y [] st = st
place_rows rand y (row ∷ rows) st = place_rows rand (suc y) rows (place_row rand y 0 row st)

-- One player at the start of a game.
unfoldable pub enter_game : ℕ → ℕ → Player → Player
unfolding player_reset_game_state
enter_game x y p = record (player_reset_game_state p) {
  x = pos x;
  y = pos y;
  status = player_gaming;
}

module _ (rand : ℕ → ℕ) where
  unfoldable pub enter_all : List ℤ → Arena → Arena
  unfolding enter_game
  enter_all [] a = a
  enter_all (id ∷ ids) a = enter_all ids (elim (player_find_by_id a.players id) [
    | none ↦ a
    | some s ↦
        let place = map_random_position rand a.room.grid a.drawn in
        record a {
          players = update_player s (enter_game place.px place.py) a.players;
          drawn = place.drawn;
        }
  ])

abbrev pub item_number : ItemType → ℤ
item_number item_none = pos 0
item_number item_health = pos 1
item_number item_attack = pos 2
item_number item_shield = pos 3

abbrev pub map_item_number : MapItemType → ℤ
map_item_number map_item_none = pos 0
map_item_number map_item_health = pos 1
map_item_number map_item_attack = pos 2
map_item_number map_item_shield = pos 3

abbrev pub flag : Bool → ℤ
flag true = pos 1
flag false = pos 0

abbrev pub inventory_number : Player → ℕ → ℤ
inventory_number p i = item_number (get_or p.inventory i item_none)

player_entry : Player → Text
player_entry p = snprintf 512 (
    commas (
      entry (codes "pid") p.id
      ∷ (codes "username=" ++ p.username)
      ∷ entry (codes "x") p.x
      ∷ entry (codes "y") p.y
      ∷ entry (codes "hp") p.hp
      ∷ entry (codes "max_hp") p.max_hp
      ∷ entry (codes "atk") p.atk
      ∷ entry (codes "def") p.def
      ∷ entry (codes "shield") (flag p.has_shield)
      ∷ entry (codes "inv") (inventory_number p 0)
      ∷ print_int (inventory_number p 1)
      ∷ print_int (inventory_number p 2)
      ∷ print_int (inventory_number p 3)
      ∷ print_int (inventory_number p 4)
      ∷ []))

log_players : ℤ → List ℤ → List (Option Player) → Room → Room
log_players now [] ps room = room
log_players now (id ∷ ids) ps room = log_players now ids ps (elim (player_find_by_id ps id) [
  | none ↦ room
  | some s ↦ elim (player_at ps s) [
    | none ↦ room
    | some p ↦ write_wal now wal_player_join (player_entry p) room
  ]
])

abbrev pub item_entry : MapItemType → ℤ → ℤ → Text
item_entry type x y = snprintf 512 (
    commas (
      entry (codes "type") (map_item_number type) ∷ entry (codes "x") x ∷ entry (codes "y") y ∷ []))

-- The first `n` items.
log_items : ℤ → ℕ → List MapItem → Room → Room
log_items now zero items room = room
log_items now (suc n) [] room = room
log_items now (suc n) (i ∷ items) room =
    log_items now n items
      (if i.active then write_wal now wal_item_spawn (item_entry i.type i.x i.y) room else room)

-- The records of the start of a game, for a room with a log.
log_start : ℤ → List ℤ → Arena → Arena
log_start now ids a =
    let header = snprintf 512 (
      commas (
        (codes "room_name=" ++ a.room.name)
        ∷ entry (codes "max_players") a.room.max_players
        ∷ [])) in
    let started = write_wal now wal_game_start header a.room in
    record a {
      room = log_items now a.room.item_count a.room.items (log_players now ids a.players started);
    }

-- `false` is the return value -1.
unfoldable pub room_start_game : (ℕ → ℕ) → ℤ → Arena → Arena × Bool
unfolding place_rows enter_all log_start log_players log_items player_entry
room_start_game rand now a =
    if not (can_start a.room.status)
    then (a, false)
    else if ltb_ℤ a.room.player_count (pos min_room_players)
    then (a, false)
    else let st =
        place_rows rand 0 map_generate
          (record { placed = a.room.items; count = 0; calls = a.drawn }) in
      let ids = taken_ids a.room.player_ids in
      let room : Room = record (a.room) {
        grid = map_generate;
        poison_radius = map_get_initial_poison_radius;
        items = st.placed;
        item_count = st.count;
        game_start_time = now;
        last_item_spawn = now;
        last_poison_shrink = now;
        status = room_gaming;
      } in
      let entered = enter_all rand ids (record a { room = room; drawn = st.calls }) in
      (room_broadcast (protocol_build_game_start max_msg_len) (log_start now ids entered), true)
