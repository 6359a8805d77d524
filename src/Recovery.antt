-- ===== src/Recovery.antt =====
-- server/recovery.c: the state of a game, rebuilt from the log of its room.
-- A log file is the list of its lines, each one record: `wal_write` writes no longer one than
-- `fgets` reads. Of an array with a count, the model holds the first `count` entries.
pub mod Parse
pub mod Start
pub mod Replay
pub mod Mapping
pub mod Meaning
pub mod Events
pub mod Saved
pub mod Rejoin
pub mod Recover
pub mod Listing
use asciigame.Base.{
  ℕ, zero, suc, List, [], ◌∷◌, Option, none, some, ℤ, pos, Bool, ◌==ℤ◌, if◌then◌else◌, replicate,
  later,
}
use asciigame.Config.{max_inventory}
use asciigame.Text.{Text}
use asciigame.GameMap.{GameMap, map_get_initial_poison_radius}
use asciigame.Player.{PlayerStatus}
use asciigame.Room.{no_map}

-- Item types are numbers here, as in the records.
pub record RecoveredPlayer : Type 0 where
  pub id : ℤ
  pub username : Text
  pub x : ℤ
  pub y : ℤ
  pub hp : ℤ
  pub max_hp : ℤ
  pub atk : ℤ
  pub def : ℤ
  pub base_atk : ℤ
  pub has_shield : ℤ
  pub status : PlayerStatus
  pub inventory : List ℤ
  pub inventory_count : ℕ
  pub atk_buff_expire : ℤ

pub record RecoveredItem : Type 0 where
  pub x : ℤ
  pub y : ℤ
  pub type : ℤ
  pub active : Bool

pub record RecoveryState : Type 0 where
  pub room_id : ℤ
  pub room_name : Text
  pub max_players : ℤ
  pub players : List RecoveredPlayer
  pub grid : GameMap
  pub poison_radius : ℤ
  pub items : List RecoveredItem
  pub game_start_time : ℤ
  pub last_timestamp : ℤ

-- `memset` and the first radius.
unfoldable pub initial_state : RecoveryState
unfolding map_get_initial_poison_radius
initial_state = record {
  room_id = pos 0;
  room_name = [];
  max_players = pos 0;
  players = [];
  grid = no_map;
  poison_radius = map_get_initial_poison_radius;
  items = [];
  game_start_time = pos 0;
  last_timestamp = pos 0;
}

unfoldable pub find_index : ℤ → List RecoveredPlayer → Option ℕ
find_index pid [] = none
find_index pid (p ∷ ps) =
    let rest = later (find_index pid ps) in if p.id ==ℤ pid then some 0 else rest

abbrev pub find_player_index : RecoveryState → ℤ → Option ℕ
find_player_index state pid = find_index pid state.players

-- `state->players[idx]` is changed.
unfoldable pub change_at {ℓ} : {A : Type ℓ} → ℕ → (A → A) → List A → List A
change_at i f [] = []
change_at zero f (p ∷ ps) = f p ∷ ps
change_at (suc i) f (p ∷ ps) = p ∷ change_at i f ps

-- The player with the identifier is changed, if there is one.
unfoldable pub change_player :
    ℤ → (RecoveredPlayer → RecoveredPlayer) → RecoveryState → RecoveryState
unfolding find_index change_at
change_player pid f state = elim (find_player_index state pid) [
  | none ↦ state
  | some idx ↦ record state { players = change_at idx f state.players }
]
