-- ===== src/Examples/Logs.antt =====
-- A log with a spawned item, its pickup and its use, and the damage in between.
use asciigame.Base.{
  false, negsuc, ℤ, ◌==ℤ◌, ◌+◌, ◌<◌, ◌+ℤ◌, replicate, ◌≡◌, refl, ℕ, List, [], ◌∷◌, map, some, pos,
  All, length, arith,
}
use asciigame.Text.{snprintf, codes}
use asciigame.Wal.{wal_move, wal_record}
use asciigame.Wal.Records.{wal_parse_record}
use asciigame.Wal.Records.RoundTrip.{wal_parse_record-wal_record}
use asciigame.Player.{player_gaming}
use asciigame.Recovery.{RecoveredPlayer, RecoveryState, initial_state, change_player}
use asciigame.Recovery.Parse.{apply_effect, take_out}
use asciigame.Recovery.Replay.{replay_lines}
use asciigame.Recovery.Start.{parse_checkpoint}
use asciigame.Recovery.Mapping.{
  RoomMapping, find_recovery_room, remove_recovery_room_mapping, remove_recovery_room_mapping_lem,
}
use asciigame.Snapshot.{checkpoint_text}
use asciigame.Snapshot.Checkpoint.{parse_checkpoint-checkpoint_text}
use asciigame.Recovery.Events.{GameEvent, moves, is_damaged, spawns, picks_up, uses}
use asciigame.Recovery.Events.Written.{IsInt, IsWritten}
use asciigame.Recovery.Events.Replayed.{Stamped, line_of, rebuilt, IsStamped, replay_lines-rebuilt}

abbrev stamped : ℕ → GameEvent → Stamped
stamped k e = record { timestamp = pos (1000 + k); sequence = pos k; event = e }

abbrev log : List Stamped
log =
    stamped 1 (moves (pos 1) b'U' (pos 5) (pos 5) (pos 5) (pos 4))
    ∷ stamped 2 (spawns (pos 1) (pos 5) (pos 4))
    ∷ stamped 3 (picks_up (pos 1) (pos 1) (pos 5) (pos 4))
    ∷ stamped 4 (is_damaged (pos 2) (pos 1) (pos 15) (pos 85))
    ∷ stamped 5 (uses (pos 1) (pos 1) (pos 0))
    ∷ []

pub an-IsInt : (k : ℕ) → k < 200 → IsInt (pos k)
an-IsInt k h = (omega arith, omega arith)

stamped-IsStamped : (k : ℕ) (e : GameEvent) → k < 200 → IsWritten e → IsStamped (stamped k e)
stamped-IsStamped k e h v = record {
  time = (omega arith, omega arith);
  number = (omega arith, omega arith);
  written = v;
}

log-IsStamped : All IsStamped log
log-IsStamped = (
  stamped-IsStamped 1 _ (omega arith) (
    (
      an-IsInt 1 (omega arith),
      an-IsInt 5 (omega arith),
      an-IsInt 5 (omega arith),
      an-IsInt 5 (omega arith),
      an-IsInt 4 (omega arith),
    ),
    refl,
    refl,
  ),
  (
    stamped-IsStamped 2 _ (omega arith)
        (an-IsInt 1 (omega arith), an-IsInt 5 (omega arith), an-IsInt 4 (omega arith)),
    (
      stamped-IsStamped 3 _ (omega arith) (
        an-IsInt 1 (omega arith),
        an-IsInt 1 (omega arith),
        an-IsInt 5 (omega arith),
        an-IsInt 4 (omega arith),
      ),
      (
        stamped-IsStamped 4 _ (omega arith) (
          an-IsInt 2 (omega arith),
          an-IsInt 1 (omega arith),
          an-IsInt 15 (omega arith),
          an-IsInt 85 (omega arith),
        ),
        (
          stamped-IsStamped 5 _ (omega arith)
              (an-IsInt 1 (omega arith), an-IsInt 1 (omega arith), an-IsInt 0 (omega arith)),
          tt,
        ),
      ),
    ),
  ),
)

-- One player in the room.
abbrev pub one_player : RecoveryState
one_player = record initial_state {
  players =
      record {
        id = pos 1;
        username = codes "ann";
        x = pos 5;
        y = pos 5;
        hp = pos 100;
        max_hp = pos 100;
        atk = pos 20;
        def = pos 5;
        base_atk = pos 20;
        has_shield = pos 0;
        status = player_gaming;
        inventory = replicate 5 (pos 0);
        inventory_count = 0;
        atk_buff_expire = pos 0;
      }
      ∷ [];
}

replay_lines-rebuilt_example :
    replay_lines (pos 0) (map (line_of (pos 3)) log) 0 one_player
    ≡ some (0 + length log, rebuilt (pos 3) log 0 one_player)
replay_lines-rebuilt_example =
    replay_lines-rebuilt (pos 0) (pos 3) log 0 one_player (an-IsInt 3 (omega arith)) log-IsStamped

-- Ann heals to 100 hit points.
rebuilt-log :
    map (λ (p : RecoveredPlayer). p.hp) (rebuilt (pos 3) log 0 one_player).players ≡ pos 100 ∷ []
unfolding initial_state change_player apply_effect take_out ◌+ℤ◌
rebuilt-log = refl

wal_parse_record-wal_record_example :
    wal_parse_record (wal_record (pos 50) (pos 8) (pos 3) wal_move (codes "pid=1"))
    ≡ some (record {
      timestamp = pos 50;
      sequence = pos 8;
      room_id = pos 3;
      action_type = some wal_move;
      action_data = codes "pid=1";
    })
unfolding wal_record
wal_parse_record-wal_record_example =
    wal_parse_record-wal_record (pos 50) (pos 8) (pos 3) wal_move (codes "pid=1")
      (refl, (refl, (refl, (refl, (refl, tt))))) (omega arith)

parse_checkpoint-checkpoint_text_example :
    parse_checkpoint (snprintf 256 (checkpoint_text (pos 1000) (codes "yard") (pos 4))) one_player
    ≡ record one_player { room_name = codes "yard" }
parse_checkpoint-checkpoint_text_example =
    parse_checkpoint-checkpoint_text (pos 1000) (codes "yard") (pos 4) one_player
      (omega arith, omega arith) (an-IsInt 4 (omega arith)) (refl, (refl, (refl, (refl, tt))))
      (omega arith) (omega arith)

abbrev moved_rooms : List RoomMapping
moved_rooms =
    record { original_room_id = pos 3; new_room_id = pos 8 }
    ∷ record { original_room_id = pos 5; new_room_id = pos 9 }
    ∷ record { original_room_id = pos 6; new_room_id = pos 10 }
    ∷ []

remove_recovery_room_mapping_lem_example :
    (find_recovery_room (pos 3) (remove_recovery_room_mapping (pos 3) moved_rooms) ≡ negsuc 0)
    × ((other : ℤ)
        → (other ==ℤ pos 3) ≡ false
        → find_recovery_room other (remove_recovery_room_mapping (pos 3) moved_rooms)
          ≡ find_recovery_room other moved_rooms)
remove_recovery_room_mapping_lem_example =
    remove_recovery_room_mapping_lem (pos 3) moved_rooms
      ((refl, (refl, tt)), ((refl, tt), (tt, tt)))
