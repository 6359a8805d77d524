-- ===== src/Client.antt =====
-- client/game.c and client/game.h: what the client knows of the game. Drawing and the keyboard are
-- not modelled.
pub mod Messages
pub mod State
pub mod Handlers
pub mod MapData
pub mod Events
pub mod Update
pub mod Stream
pub mod Synced
pub mod NoItems
use asciigame.Base.{
  ℕ, ◌+◌, ◌%◌, Bool, true, false, List, [], ◌∷◌, ℤ, pos, replicate, set, ltb, if◌then◌else◌,
}
use asciigame.Config.{map_width, map_height}
use asciigame.Text.{Text, copy_into}
use asciigame.GameMap.{GameMap}

-- The name of a player is never filled in.
pub record PlayerView : Type 0 where
  pub id : ℤ
  pub x : ℤ
  pub y : ℤ
  pub hp : ℤ
  pub status : ℤ

pub record ItemView : Type 0 where
  pub x : ℤ
  pub y : ℤ
  pub type : ℤ

pub record ChatMessage : Type 0 where
  pub sender : Text
  pub text : Text

pub record AttackEffect : Type 0 where
  pub active : Bool
  pub x : ℤ
  pub y : ℤ
  pub radius : ℤ
  pub start_time : ℤ

-- Of `players` and `items` the entries below their counts.
pub record GameState : Type 0 where
  pub connected : Bool
  pub logged_in : Bool
  pub username : Text
  pub in_room : Bool
  pub room_id : ℤ
  pub room_name : Text
  pub is_ready : Bool
  pub in_game : Bool
  pub my_id : ℤ
  pub my_x : ℤ
  pub my_y : ℤ
  pub my_hp : ℤ
  pub my_max_hp : ℤ
  pub my_atk : ℤ
  pub my_def : ℤ
  pub my_has_shield : ℤ
  pub inventory : List ℤ
  pub inventory_count : ℕ
  pub players : List PlayerView
  pub items : List ItemView
  pub grid : GameMap
  pub poison_radius : ℤ
  pub attack_effect : AttackEffect
  pub messages : List ChatMessage
  pub msg_head : ℕ
  pub msg_count : ℕ
  pub last_message : Text
  pub last_error : Text
  pub dirty : Bool

abbrev pub max_messages : ℕ
max_messages = 50

abbrev pub max_players_view : ℕ
max_players_view = 10

abbrev pub max_items_view : ℕ
max_items_view = 20

abbrev pub empty_message : ChatMessage
empty_message = record { sender = []; text = [] }

abbrev pub no_effect : AttackEffect
no_effect = record { active = false; x = pos 0; y = pos 0; radius = pos 0; start_time = pos 0 }

-- A map of blanks.
abbrev pub blank_map : GameMap
blank_map = replicate map_height (replicate map_width b' ')

unfoldable pub game_state_init : GameState
game_state_init = record {
  connected = false;
  logged_in = false;
  username = [];
  in_room = false;
  room_id = pos 0;
  room_name = [];
  is_ready = false;
  in_game = false;
  my_id = pos 0;
  my_x = pos 0;
  my_y = pos 0;
  my_hp = pos 0;
  my_max_hp = pos 100;
  my_atk = pos 0;
  my_def = pos 0;
  my_has_shield = pos 0;
  inventory = replicate 5 (pos 0);
  inventory_count = 0;
  players = [];
  items = [];
  grid = blank_map;
  poison_radius = pos 25;
  attack_effect = no_effect;
  messages = replicate max_messages empty_message;
  msg_head = 0;
  msg_count = 0;
  last_message = [];
  last_error = [];
  dirty = false;
}

-- The oldest message is overwritten when the ring is full.
unfoldable pub game_add_message : Text → Text → GameState → GameState
game_add_message sender text g =
    let idx = (g.msg_head + g.msg_count) % max_messages in
    let free = ltb g.msg_count max_messages in
    record g {
      messages =
          set g.messages idx (record { sender = copy_into 32 sender; text = copy_into 256 text });
      msg_count = if free then g.msg_count + 1 else g.msg_count;
      msg_head = if free then g.msg_head else (g.msg_head + 1) % max_messages;
      dirty = true;
    }

unfoldable pub game_trigger_attack_effect : ℤ → ℤ → ℤ → ℤ → GameState → GameState
game_trigger_attack_effect now x y radius g = record g {
  attack_effect = record { active = true; x = x; y = y; radius = radius; start_time = now };
  dirty = true;
}

abbrev pub game_set_dirty : GameState → GameState
game_set_dirty g = record g { dirty = true }

-- The new state and the flag as it was.
abbrev pub game_clear_dirty : GameState → GameState × Bool
game_clear_dirty g = (record g { dirty = false }, g.dirty)
