-- ===== src/Snapshot.antt =====
-- server/snapshot.c: the snapshot of a room and the log that is begun anew with it. The file is its
-- contents; that it can be written and read back whole is taken for granted.
pub mod Checkpoint
use asciigame.Base.{
  ℕ, zero, suc, List, [], ◌∷◌, ◌++◌, Option, none, some, ℤ, pos, negsuc, ◌-ℤ◌, Bool, false, not,
  ltb_ℤ, leb_ℤ, if◌then◌else◌, replicate, map,
}
use asciigame.Config.{max_room_name, max_username, max_room_players, snapshot_interval_ms}
use asciigame.Text.{Text, codes, copy_into, snprintf}
use asciigame.Text.Decimal.{print_int}
use asciigame.GameMap.{GameMap, MapItem}
use asciigame.Player.{Player, PlayerStatus, ItemType, player_at, player_find_by_id}
use asciigame.Wal.{WalManager, wal_write, wal_checkpoint, wal_player_join, wal_item_spawn}
use asciigame.Wal.Records.{wal_truncate}
use asciigame.Room.{Room, RoomStatus, room_gaming, is_room_gaming, Arena, entry, commas}
use asciigame.Room.Start.{item_number, map_item_number, flag}

pub record SnapshotPlayer : Type 0 where
  pub id : ℤ
  pub username : Text
  pub x : ℤ
  pub y : ℤ
  pub hp : ℤ
  pub max_hp : ℤ
  pub atk : ℤ
  pub def : ℤ
  pub base_atk : ℤ
  pub has_shield : Bool
  pub status : PlayerStatus
  pub inventory : List ItemType
  pub inventory_count : ℕ
  pub atk_buff_expire : ℤ

pub record SnapshotData : Type 0 where
  pub room_id : ℤ
  pub room_name : Text
  pub max_players : ℤ
  pub player_count : ℤ
  pub status : RoomStatus
  pub grid : GameMap
  pub poison_radius : ℤ
  pub items : List MapItem
  pub item_count : ℕ
  pub game_start_time : ℤ
  pub last_item_spawn : ℤ
  pub last_poison_shrink : ℤ
  pub player_ids : List ℤ

-- The contents of the file, behind its magic number and its version.
pub record Snapshot : Type 0 where
  pub timestamp : ℤ
  pub room_data : SnapshotData
  pub players : List SnapshotPlayer

unfoldable pub snapshot_should_save : ℤ → Room → Bool
snapshot_should_save now room =
    if not (is_room_gaming room.status)
    then false
    else leb_ℤ snapshot_interval_ms (now -ℤ room.last_snapshot_time)

-- A recovered room is saved under its old identifier.
abbrev pub snapshot_id : Room → ℤ
snapshot_id room = if leb_ℤ (pos 0) room.original_room_id then room.original_room_id else room.id

abbrev pub take_room : Room → SnapshotData
take_room room = record {
  room_id = snapshot_id room;
  room_name = copy_into max_room_name room.name;
  max_players = room.max_players;
  player_count = room.player_count;
  status = room.status;
  grid = room.grid;
  poison_radius = room.poison_radius;
  items = room.items;
  item_count = room.item_count;
  game_start_time = room.game_start_time;
  last_item_spawn = room.last_item_spawn;
  last_poison_shrink = room.last_poison_shrink;
  player_ids = room.player_ids;
}

abbrev pub take_player : Player → SnapshotPlayer
take_player p = record {
  id = p.id;
  username = copy_into max_username p.username;
  x = p.x;
  y = p.y;
  hp = p.hp;
  max_hp = p.max_hp;
  atk = p.atk;
  def = p.def;
  base_atk = p.base_atk;
  has_shield = p.has_shield;
  status = p.status;
  inventory = p.inventory;
  inventory_count = p.inventory_count;
  atk_buff_expire = p.atk_buff_expire;
}

-- The players at the places that are taken.
unfoldable pub take_players : List ℤ → List (Option Player) → List SnapshotPlayer
unfolding player_find_by_id
take_players [] ps = []
take_players (id ∷ ids) ps =
    let rest = take_players ids ps in
    if ltb_ℤ id (pos 0)
    then rest
    else elim (player_find_by_id ps id) as (λ _. List SnapshotPlayer) [
      | none ↦ rest
      | some s ↦ elim (player_at ps s) as (λ _. List SnapshotPlayer) [
        | none ↦ rest
        | some p ↦ take_player p ∷ rest
      ]
    ]

-- "snapshot_time=%ld,room_name=%s,poison_radius=%d"
abbrev pub checkpoint_text : ℤ → Text → ℤ → Text
checkpoint_text timestamp room_name poison_radius = commas (
    entry (codes "snapshot_time") timestamp
    ∷ (codes "room_name=" ++ room_name)
    ∷ entry (codes "poison_radius") poison_radius
    ∷ [])

abbrev pub buff_remain : ℤ → SnapshotPlayer → ℤ
buff_remain timestamp p =
    if ltb_ℤ timestamp p.atk_buff_expire then p.atk_buff_expire -ℤ timestamp else pos 0

abbrev pub numbers : List ItemType → List Text
numbers types = map (λ (t : ItemType). print_int (item_number t)) types

-- "inv=%d,%d,%d,%d,%d" begins with the first of the numbers.
abbrev pub player_text : ℤ → SnapshotPlayer → Text
player_text timestamp p = commas (
    entry (codes "pid") p.id
    ∷ (codes "username=" ++ p.username)
    ∷ entry (codes "x") p.x
    ∷ entry (codes "y") p.y
    ∷ entry (codes "hp") p.hp
    ∷ entry (codes "max_hp") p.max_hp
    ∷ entry (codes "atk") p.atk
    ∷ entry (codes "def") p.def
    ∷ entry (codes "base_atk") p.base_atk
    ∷ entry (codes "shield") (flag p.has_shield)
    ∷ entry (codes "atk_buff_remain") (buff_remain timestamp p)
    ∷ (codes "inv=" ++ commas (numbers p.inventory))
    ∷ [])

abbrev pub log_all : ℤ → List SnapshotPlayer → WalManager → WalManager
log_all timestamp [] w = w
log_all timestamp (p ∷ ps) w =
    log_all timestamp ps
      (wal_write timestamp wal_player_join (snprintf 512 (player_text timestamp p)) w).0

-- The first `n` items, those that lie on the map.
abbrev pub log_lying : ℤ → ℕ → List MapItem → WalManager → WalManager
log_lying timestamp zero items w = w
log_lying timestamp (suc n) [] w = w
log_lying timestamp (suc n) (i ∷ items) w =
    let text = commas (
      entry (codes "type") (map_item_number i.type)
      ∷ entry (codes "x") i.x
      ∷ entry (codes "y") i.y
      ∷ []) in
    let logged = (wal_write timestamp wal_item_spawn (snprintf 128 text) w).0 in
    log_lying timestamp n items (if i.active then logged else w)

-- The log is emptied and begins with the state of the snapshot.
unfoldable pub begin_log : Snapshot → WalManager → WalManager
unfolding wal_truncate wal_write
begin_log s w =
    let mark =
      snprintf 256 (checkpoint_text s.timestamp s.room_data.room_name s.room_data.poison_radius) in
    let marked = (wal_write s.timestamp wal_checkpoint mark (wal_truncate w)).0 in
    log_lying s.timestamp s.room_data.item_count s.room_data.items
      (log_all s.timestamp s.players marked)

unfoldable pub snapshot_save : ℤ → Arena → Arena × Snapshot
unfolding take_players begin_log
snapshot_save now a =
    let s : Snapshot = record {
      timestamp = now;
      room_data = take_room a.room;
      players = take_players a.room.player_ids a.players;
    } in
    (
      record a {
        room = record (a.room) {
          last_snapshot_time = now;
          wal = elim a.room.wal as (λ _. Option WalManager) [
            | none ↦ none
            | some w ↦ some (begin_log s w)
          ];
        };
      },
      s,
    )

-- The players must join again.
unfoldable pub snapshot_load : Snapshot → Room → Room
snapshot_load s room = record room {
  name = copy_into max_room_name s.room_data.room_name;
  max_players = s.room_data.max_players;
  player_count = pos 0;
  status = room_gaming;
  grid = s.room_data.grid;
  poison_radius = s.room_data.poison_radius;
  items = s.room_data.items;
  item_count = s.room_data.item_count;
  game_start_time = s.room_data.game_start_time;
  last_item_spawn = s.room_data.last_item_spawn;
  last_poison_shrink = s.room_data.last_poison_shrink;
  player_ids = replicate max_room_players (negsuc 0);
}
