-- ===== src/Room.antt =====
-- server/room.c and server/room.h, and what all functions of a room work on.
-- A function that gets a `Room *` works on an `Arena`: that room, the slots of the player table, the
-- messages sent (newest first, each with its socket) and the number of calls of rand() made.
-- Sending is taken to be tried always; what `send` reports changes no state. `now` is the clock,
-- which is taken not to advance during one call. Threads, locks and files on disk are left out.
pub mod Table
pub mod Start
pub mod Ending
pub mod Seats
pub mod Joining
use asciigame.Base.{
  ℕ, zero, suc, ◌+◌, ◌%◌, ◌≡◌, refl, Bool, true, false, not, ◌&&◌, List, [], ◌∷◌, ◌++◌, Option,
  none, some, ℤ, pos, negsuc, ◌+ℤ◌, ◌-ℤ◌, ltb, leb, ltb_ℤ, leb_ℤ, ◌==◌, ◌==ℤ◌, if◌then◌else◌, set,
  length, replicate, get_or, map,
}
use asciigame.Config.{
  max_room_players, min_room_players, max_room_name, max_msg_len, max_map_items, map_width,
  map_height,
}
use asciigame.Text.{Text, codes, copy_into, snprintf}
use asciigame.Text.Decimal.{print_int}
use asciigame.GameMap.{
  GameMap, MapItem, MapItemType, map_item_none, map_item_health, map_item_attack, map_item_shield,
  map_generate, map_get_initial_poison_radius, map_random_position, map_spawn, Place,
}
use asciigame.Player.{
  Player, PlayerStatus, player_in_room, player_lobby, player_gaming, ItemType, item_none,
  item_health, item_attack, item_shield, is_ready, is_gaming, player_find_by_id,
  player_reset_game_state, player_at, update_player,
}
use asciigame.Protocol.{
  protocol_build_player_join, protocol_build_player_leave, protocol_build_game_start,
  protocol_build_game_end,
}
use asciigame.Wal.{
  WalManager, WalActionType, wal_write, wal_game_start, wal_player_join, wal_item_spawn,
  wal_game_end,
}

pub data RoomStatus : Type 0 where
  room_waiting room_starting room_gaming room_ended : RoomStatus

-- The thread and the lock are left out, and flags of type int are Boolean.
pub record Room : Type 0 where
  pub id : ℤ
  pub name : Text
  pub max_players : ℤ
  pub player_ids : List ℤ
  pub player_count : ℤ
  pub status : RoomStatus
  pub grid : GameMap
  pub items : List MapItem
  pub item_count : ℕ
  pub poison_radius : ℤ
  pub game_start_time : ℤ
  pub last_item_spawn : ℤ
  pub last_poison_shrink : ℤ
  pub countdown_start : ℤ
  pub game_thread_running : Bool
  pub wal : Option WalManager
  pub is_recovery_room : Bool
  pub expected_players : ℤ
  pub recovery_start_time : ℤ
  pub original_room_id : ℤ
  pub last_snapshot_time : ℤ

pub record Arena : Type 0 where
  pub room : Room
  pub players : List (Option Player)
  pub sent : List (ℤ × Text)
  pub drawn : ℕ

abbrev pub is_room_gaming : RoomStatus → Bool
is_room_gaming room_gaming = true
is_room_gaming _ = false

-- `status != ROOM_WAITING && status != ROOM_STARTING`, negated.
abbrev pub can_start : RoomStatus → Bool
can_start room_waiting = true
can_start room_starting = true
can_start _ = false

-- `calloc` clears the items and the map.
abbrev pub no_item : MapItem
no_item = record { x = pos 0; y = pos 0; type = map_item_none; active = false }

abbrev pub no_map : GameMap
no_map = replicate map_height (replicate map_width 0)

-- The room that `room_create` puts into a free slot under the next identifier.
unfoldable pub new_room : ℤ → Text → ℤ → Room
unfolding map_get_initial_poison_radius
new_room id name max_players = record {
  id = id;
  name = copy_into max_room_name name;
  max_players =
      if ltb_ℤ max_players (pos min_room_players)
      then pos max_room_players
      else if ltb_ℤ (pos max_room_players) max_players
      then pos max_room_players
      else max_players;
  player_ids = replicate max_room_players (negsuc 0);
  player_count = pos 0;
  status = room_waiting;
  grid = no_map;
  items = replicate max_map_items no_item;
  item_count = 0;
  poison_radius = map_get_initial_poison_radius;
  game_start_time = pos 0;
  last_item_spawn = pos 0;
  last_poison_shrink = pos 0;
  countdown_start = pos 0;
  game_thread_running = false;
  wal = none;
  is_recovery_room = false;
  expected_players = pos 0;
  recovery_start_time = pos 0;
  original_room_id = negsuc 0;
  last_snapshot_time = pos 0;
}

-- The identifiers of the taken places, in order, as the functions below collect them.
abbrev pub taken_ids : List ℤ → List ℤ
taken_ids [] = []
taken_ids (id ∷ ids) = if ltb_ℤ id (pos 0) then taken_ids ids else id ∷ taken_ids ids

-- `player_send` to each player of the list who is still in the table.
send_to : List ℤ → Text → List (Option Player) → List (ℤ × Text) → List (ℤ × Text)
send_to [] msg ps sent = sent
send_to (id ∷ ids) msg ps sent = send_to ids msg ps (elim (player_find_by_id ps id) [
  | none ↦ sent
  | some s ↦ elim (player_at ps s) [ none ↦ sent | some p ↦ (p.fd, msg) ∷ sent ]
])

unfoldable pub room_broadcast : Text → Arena → Arena
unfolding send_to
room_broadcast msg a = record a {
  sent = send_to (taken_ids a.room.player_ids) msg a.players a.sent;
}

-- `if (room->wal != NULL) wal_write(room->wal, type, data)`
unfoldable pub write_wal : ℤ → WalActionType → Text → Room → Room
write_wal now type entry room = record room {
  wal = elim room.wal [ none ↦ none | some w ↦ some (wal_write now type entry w).0 ];
}

abbrev pub log_action : ℤ → WalActionType → Text → Arena → Arena
log_action now type entry a = record a { room = write_wal now type entry a.room }

-- "key=%d"
abbrev pub entry : Text → ℤ → Text
entry key value = key ++ b'=' ∷ print_int value

-- The entries joined by commas.
abbrev pub commas : List Text → Text
commas [] = []
commas (e ∷ []) = e
commas (e ∷ (f ∷ es)) = e ++ b',' ∷ commas (f ∷ es)

-- The first place without a player.
unfoldable pub free_seat : List ℤ → Option ℕ
free_seat [] = none
free_seat (id ∷ ids) =
    let rest = elim (free_seat ids) as (λ _. Option ℕ) [ none ↦ none | some i ↦ some (suc i) ] in
    if ltb_ℤ id (pos 0) then some 0 else rest

-- The return values 0, -1 and -2 of `room_add_player`.
pub data Joined : Type 0 where
  joined room_full in_progress : Joined

unfoldable pub room_add_player : Arena → ℕ → Arena × Joined
unfolding free_seat
room_add_player a s = elim (player_at a.players s) [
  | none ↦ (a, room_full)
  | some p ↦
      if is_room_gaming a.room.status
      then (a, in_progress)
      else if leb_ℤ a.room.max_players a.room.player_count
      then (a, room_full)
      else elim (free_seat a.room.player_ids) [
        | none ↦ (a, room_full)
        | some seat ↦
            let room : Room = record (a.room) {
              player_ids = set a.room.player_ids seat p.id;
              player_count = a.room.player_count +ℤ pos 1;
            } in
            let players =
              update_player s (λ q. record q { room_id = a.room.id; status = player_in_room })
                a.players in
            (
              room_broadcast (protocol_build_player_join max_msg_len p.id p.username)
                  (record a { room = room; players = players }),
              joined,
            )
      ]
]

-- The first place of the player with the identifier.
unfoldable pub seat_of : ℤ → List ℤ → Option ℕ
seat_of id [] = none
seat_of id (i ∷ ids) =
    let rest = elim (seat_of id ids) as (λ _. Option ℕ) [ none ↦ none | some k ↦ some (suc k) ] in
    if i ==ℤ id then some 0 else rest

-- The return values 0 and -1 of `room_remove_player`; after `emptied` the caller's room is destroyed.
pub data Left : Type 0 where
  left emptied not_there : Left

-- `room_remove_player`, up to the call of `room_destroy` for a room that is left empty.
unfoldable pub room_remove_player : Arena → ℕ → Arena × Left
unfolding seat_of
room_remove_player a s = elim (player_at a.players s) [
  | none ↦ (a, not_there)
  | some p ↦ elim (seat_of p.id a.room.player_ids) [
    | none ↦ (a, not_there)
    | some seat ↦
        let remaining = a.room.player_count -ℤ pos 1 in
        let room : Room = record (a.room) {
          player_ids = set a.room.player_ids seat (negsuc 0);
          player_count = remaining;
        } in
        let players =
          update_player s (λ q. record q { room_id = negsuc 0; status = player_lobby }) a.players in
        let after : Arena = record a { room = room; players = players } in
        if remaining ==ℤ pos 0
        then (after, emptied)
        else if ltb_ℤ (pos 0) remaining
        then (room_broadcast (protocol_build_player_leave max_msg_len p.id) after, left)
        else (after, left)
  ]
]

-- Every player of the list who is still in the table passes the test.
unfoldable pub all_of : (Player → Bool) → List ℤ → List (Option Player) → Bool
all_of test [] ps = true
all_of test (id ∷ ids) ps =
    let rest = all_of test ids ps in
    elim (player_find_by_id ps id) [
      | none ↦ rest
      | some s ↦ elim (player_at ps s) [ none ↦ rest | some p ↦ test p && rest ]
    ]

unfoldable pub room_all_ready : Arena → Bool
unfolding all_of
room_all_ready a =
    if ltb_ℤ a.room.player_count (pos min_room_players)
    then false
    else all_of (λ p. is_ready p.status) (taken_ids a.room.player_ids) a.players

-- `status == PLAYER_GAMING && hp > 0`
abbrev pub is_alive : Player → Bool
is_alive p = is_gaming p.status && ltb_ℤ (pos 0) p.hp

unfoldable pub count_alive : List ℤ → List (Option Player) → ℕ
count_alive [] ps = 0
count_alive (id ∷ ids) ps =
    let rest = count_alive ids ps in
    elim (player_find_by_id ps id) [
      | none ↦ rest
      | some s ↦ elim (player_at ps s) [
        | none ↦ rest
        | some p ↦ if is_alive p then suc rest else rest
      ]
    ]

unfoldable pub room_get_alive_count : Arena → ℕ
unfolding count_alive
room_get_alive_count a = count_alive (taken_ids a.room.player_ids) a.players

unfoldable pub room_status_name : RoomStatus → Text
room_status_name room_waiting = codes "WAITING"
room_status_name room_starting = codes "STARTING"
room_status_name room_gaming = codes "GAMING"
room_status_name room_ended = codes "ENDED"
