-- ===== src/Wal.antt =====
-- server/wal.c and server/wal.h: the records of the write-ahead log of one room.
-- The log file is the list of its lines, oldest first. The calls of the C library that create, open
-- and write it are taken to succeed, and flushing it is not modelled. The clock is taken not to
-- advance during one call.
pub mod Actions
pub mod Records
use asciigame.Base.{
  ℕ, suc, ◌≡◌, refl, Bool, true, false, List, [], ◌∷◌, ◌++◌, Option, none, some, ℤ, pos, ◌+ℤ◌, ◌-ℤ◌,
  leb, leb_ℤ, if◌then◌else◌, length, later,
}
use asciigame.Config.{wal_buffer_size, wal_sync_interval_ms}
use asciigame.Text.{Text, codes, text_eq}
use asciigame.Text.Decimal.{print_int}

pub data WalActionType : Type 0 where
  wal_game_start wal_player_join wal_player_leave wal_move wal_attack wal_pickup wal_use_item
        wal_damage wal_player_death wal_item_spawn wal_poison_shrink wal_game_end wal_checkpoint :
      WalActionType

pub record WalManager : Type 0 where
  pub room_id : ℤ
  pub sequence : ℤ
  pub lines : List Text
  pub last_sync_time : ℤ

unfoldable pub wal_action_name : WalActionType → Text
wal_action_name wal_game_start = codes "GAME_START"
wal_action_name wal_player_join = codes "PLAYER_JOIN"
wal_action_name wal_player_leave = codes "PLAYER_LEAVE"
wal_action_name wal_move = codes "MOVE"
wal_action_name wal_attack = codes "ATTACK"
wal_action_name wal_pickup = codes "PICKUP"
wal_action_name wal_use_item = codes "USE_ITEM"
wal_action_name wal_damage = codes "DAMAGE"
wal_action_name wal_player_death = codes "PLAYER_DEATH"
wal_action_name wal_item_spawn = codes "ITEM_SPAWN"
wal_action_name wal_poison_shrink = codes "POISON_SHRINK"
wal_action_name wal_game_end = codes "GAME_END"
wal_action_name wal_checkpoint = codes "CHECKPOINT"

-- The values of the enumeration, in order.
abbrev pub all_actions : List WalActionType
all_actions =
    wal_game_start ∷ wal_player_join ∷ wal_player_leave ∷ wal_move ∷ wal_attack ∷ wal_pickup
    ∷ wal_use_item ∷ wal_damage ∷ wal_player_death ∷ wal_item_spawn ∷ wal_poison_shrink
    ∷ wal_game_end ∷ wal_checkpoint ∷ []

action_in : List WalActionType → Text → Option WalActionType
action_in [] name = none
action_in (a ∷ rest) name =
    let next = action_in rest name in if text_eq (wal_action_name a) name then some a else next

-- `none` is -1.
unfoldable pub wal_parse_action : Text → Option WalActionType
unfolding action_in wal_action_name text_eq
wal_parse_action name = action_in all_actions name

-- "%ld|%ld|%d|%s|%s\n"
unfoldable pub wal_record : ℤ → ℤ → ℤ → WalActionType → Text → Text
unfolding print_int wal_action_name
wal_record timestamp seq room_id type action_data =
    print_int timestamp
    ++ b'|'
      ∷ (print_int seq
          ++ b'|'
            ∷ (print_int room_id
                ++ b'|' ∷ (wal_action_name type ++ b'|' ∷ (action_data ++ 10 ∷ []))))

-- The sequence number is taken also for a record that is too long to be written.
unfoldable pub wal_write : ℤ → WalActionType → Text → WalManager → WalManager × Bool
unfolding wal_record
wal_write now type action_data wal =
    let text = wal_record now wal.sequence wal.room_id type action_data in
    let taken : WalManager = record wal { sequence = wal.sequence +ℤ pos 1 } in
    if leb wal_buffer_size (length text) then (taken, false) else (
      record taken {
        lines = wal.lines ++ (text ∷ []);
        last_sync_time =
            if leb_ℤ wal_sync_interval_ms (now -ℤ wal.last_sync_time)
            then now
            else wal.last_sync_time;
      },
      true,
    )
