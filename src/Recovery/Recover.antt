-- ===== src/Recovery/Recover.antt =====
-- `recovery_recover_room`: the log of a room and its snapshot become a .recovery file. Also the file
-- that `snapshot_load` leaves. Both files are read whole, as they were written.
pub mod Outcomes
use asciigame.Base.{
  ℕ, zero, suc, ◌<◌, ◌≤◌, ◌≡◌, refl, ap, ◌∙◌, Bool-cases, inl, inr, true, false, List, [], ◌∷◌,
  ◌++◌, Option, none, some, ℤ, pos, arith, leb, length, map, if◌then◌else◌,
}
use asciigame.Config.{max_room_name}
use asciigame.Text.{Text, codes, copy_into, snprintf}
use asciigame.Text.Decimal.{print_int}
use asciigame.Text.Scan.{cut}
use asciigame.GameMap.{MapItem}
use asciigame.Player.{is_empty}
use asciigame.Room.Start.{item_number, map_item_number, flag}
use asciigame.Snapshot.{Snapshot, SnapshotPlayer}
use asciigame.Recovery.{RecoveryState, RecoveredPlayer, RecoveredItem}
use asciigame.Recovery.Replay.{parse_wal_file}
use asciigame.Recovery.Saved.{
  RecoveryFile, alive_count, saved_text, item_lines, row_text, keyed, recovery_file_name,
  save_recovery_info,
}
use asciigame.Recovery.Saved.Reading.{recovery_get_player_state}
use asciigame.Recovery.Saved.RoundTrip.{
  IsSavable, as_saved, first_living, map_option, recovery_get_player_state-save_recovery_info,
}

-- The numbers of a player of the snapshot.
abbrev pub of_snapshot : SnapshotPlayer → RecoveredPlayer
of_snapshot p = record {
  id = p.id;
  username = p.username;
  x = p.x;
  y = p.y;
  hp = p.hp;
  max_hp = p.max_hp;
  atk = p.atk;
  def = p.def;
  base_atk = p.base_atk;
  has_shield = flag p.has_shield;
  status = p.status;
  inventory = map item_number p.inventory;
  inventory_count = p.inventory_count;
  atk_buff_expire = p.atk_buff_expire;
}

abbrev pub items_of_snapshot : ℕ → List MapItem → List RecoveredItem
items_of_snapshot zero items = []
items_of_snapshot (suc n) [] = []
items_of_snapshot (suc n) (i ∷ items) =
    record { x = i.x; y = i.y; type = map_item_number i.type; active = i.active }
    ∷ items_of_snapshot n items

abbrev pub snapshot_lines : ℤ → ℤ → Snapshot → List RecoveredPlayer → List Text
snapshot_lines now room_id s players =
    let name = s.room_data.room_name in
    keyed (codes "room_id=") room_id
    ∷ (codes "room_name=" ++ (if is_empty name then codes "Recovered" else name))
    ∷ keyed (codes "poison_radius=") s.room_data.poison_radius
    ∷ keyed (codes "total_players=") (pos (length players))
    ∷ keyed (codes "alive_count=") (pos (alive_count players))
    ∷ codes "map_start"
    ∷ (map row_text s.room_data.grid
        ++ codes "map_end"
          ∷ (map (λ p. codes "player=" ++ saved_text now p) players
              ++ item_lines (items_of_snapshot s.room_data.item_count s.room_data.items)))

-- The outcome: the .recovery file that is left, a game that is over, whose files are deleted, or -1.
pub data Outcome : Type 0 where
  recovered : RecoveryFile → Outcome
  over recover_failed : Outcome

-- From the snapshot alone. Without players `snapshot_load` writes no file.
unfoldable pub recover_from_snapshot : ℤ → ℤ → Snapshot → Outcome
unfolding print_int cut
recover_from_snapshot now room_id s =
    let players = map of_snapshot s.players in
    if leb (alive_count players) 1
    then over
    else recovered
        (record { name = recovery_file_name room_id; lines = snapshot_lines now room_id s players })

-- The map, the radius and the name are those of the snapshot, where there is one.
abbrev pub with_snapshot : Option Snapshot → RecoveryState → RecoveryState
with_snapshot none state = state
with_snapshot (some s) state =
    let name = copy_into max_room_name s.room_data.room_name in
    record state {
      grid = s.room_data.grid;
      poison_radius = s.room_data.poison_radius;
      room_name = if is_empty name then state.room_name else name;
    }

abbrev pub with_name : ℤ → RecoveryState → RecoveryState
with_name room_id state =
    if is_empty state.room_name
    then record state { room_name = snprintf max_room_name (codes "Room_" ++ print_int room_id) }
    else state

abbrev pub finish_recovery : ℤ → ℤ → RecoveryState → Outcome
finish_recovery now room_id state =
    if leb (alive_count state.players) 1
    then over
    else recovered (save_recovery_info now room_id (with_name room_id state))

abbrev pub if_players : List RecoveredPlayer → RecoveryState → Option RecoveryState
if_players [] state = none
if_players (p ∷ ps) state = some state

-- The state of the log, if it has players.
abbrev pub with_players : Option RecoveryState → Option RecoveryState
with_players none = none
with_players (some state) = if_players state.players state

abbrev pub replayed_players : ℤ → Option (List Text) → Option RecoveryState
replayed_players now none = none
replayed_players now (some lines) = with_players (parse_wal_file now lines)

-- No log that holds the end of its game is recovered.
abbrev pub recover_by : ℤ → ℤ → Option Snapshot → Option RecoveryState → Outcome
recover_by now room_id snapshot (some state) =
    finish_recovery now room_id (with_snapshot snapshot state)
recover_by now room_id (some s) none = recover_from_snapshot now room_id s
recover_by now room_id none none = recover_failed

unfoldable pub recovery_recover_room : ℤ → ℤ → Option (List Text) → Option Snapshot → Outcome
unfolding parse_wal_file recover_from_snapshot save_recovery_info print_int
recovery_recover_room now room_id log snapshot =
    recover_by now room_id snapshot (replayed_players now log)
