-- ===== src/Recovery/Replay.antt =====
-- `parse_wal_file` and `recovery_replay_wal`.
use asciigame.Base.{ℕ, zero, suc, List, [], ◌∷◌, Option, none, some, ℤ, ◌==◌, if◌then◌else◌}
use asciigame.Text.{Text}
use asciigame.GameMap.{map_generate}
use asciigame.Wal.{
  WalActionType, wal_game_start, wal_player_join, wal_player_leave, wal_move, wal_attack,
  wal_pickup, wal_use_item, wal_damage, wal_player_death, wal_item_spawn, wal_poison_shrink,
  wal_game_end, wal_checkpoint,
}
use asciigame.Wal.Records.{WalRecord, wal_parse_record}
use asciigame.Recovery.{RecoveryState, initial_state}
use asciigame.Recovery.Parse.{
  parse_move, parse_damage, parse_player_death, parse_poison_shrink, parse_item_spawn, parse_pickup,
  parse_use_item,
}
use asciigame.Recovery.Start.{parse_game_start, parse_player_join, parse_checkpoint}

-- The switch over the action; `none` is the return of -1 at GAME_END.
unfoldable pub apply_action : ℤ → WalActionType → Text → RecoveryState → Option RecoveryState
unfolding map_generate parse_move parse_damage parse_player_death parse_poison_shrink
    parse_item_spawn parse_pickup parse_use_item parse_game_start parse_player_join parse_checkpoint
apply_action now wal_game_start action_data state =
    some (record (parse_game_start action_data state) { grid = map_generate })
apply_action now wal_player_join action_data state = some (parse_player_join now action_data state)
apply_action now wal_move action_data state = some (parse_move action_data state)
apply_action now wal_damage action_data state = some (parse_damage action_data state)
apply_action now wal_player_death action_data state = some (parse_player_death action_data state)
apply_action now wal_poison_shrink action_data state = some (parse_poison_shrink action_data state)
apply_action now wal_item_spawn action_data state = some (parse_item_spawn action_data state)
apply_action now wal_pickup action_data state = some (parse_pickup action_data state)
apply_action now wal_use_item action_data state = some (parse_use_item action_data state)
apply_action now wal_attack action_data state = some state
apply_action now wal_player_leave action_data state = some state
apply_action now wal_checkpoint action_data state = some (parse_checkpoint action_data state)
apply_action now wal_game_end action_data state = none

-- What each record sets, before the switch; the first one sets the start of the game.
abbrev pub noted : ℕ → WalRecord → RecoveryState → RecoveryState
noted record_count r state = record state {
  room_id = r.room_id;
  last_timestamp = r.timestamp;
  game_start_time = if record_count == 0 then r.timestamp else state.game_start_time;
}

unfoldable pub replay_record : ℤ → ℕ → WalRecord → RecoveryState → Option RecoveryState
unfolding apply_action
replay_record now record_count r state = elim r.action_type [
  | none ↦ some (noted record_count r state)
  | some type ↦ apply_action now type r.action_data (noted record_count r state)
]

-- The loop over the lines. A line that is no record is skipped.
unfoldable pub replay_lines : ℤ → List Text → ℕ → RecoveryState → Option (ℕ × RecoveryState)
unfolding wal_parse_record replay_record
replay_lines now [] record_count state = some (record_count, state)
replay_lines now (line ∷ lines) record_count state = elim (wal_parse_record line) [
  | none ↦ replay_lines now lines record_count state
  | some r ↦ elim (replay_record now record_count r state) [
    | none ↦ none
    | some next ↦ replay_lines now lines (suc record_count) next
  ]
]

-- A file without a record is a failure too.
unfoldable pub parse_wal_file : ℤ → List Text → Option RecoveryState
unfolding replay_lines initial_state
parse_wal_file now lines = elim (replay_lines now lines 0 initial_state) [
  | none ↦ none
  | some (zero, state) ↦ none
  | some (suc n, state) ↦ some state
]
