-- ===== src/Recovery/Events/Replayed.antt =====
-- Replaying the records of a game does what its events mean.
use asciigame.Base.{
  ℕ, suc, ◌+◌, ◌<◌, ◌≤◌, ◌≡◌, refl, ap, ◌∙◌, List, [], ◌∷◌, ◌++◌, map, some, ℤ, true, false, All,
  length, length-append, arith,
}
use asciigame.Config.{wal_buffer_size}
use asciigame.Text.{Text}
use asciigame.Text.Decimal.{Fits, print_int, length-print_int}
use asciigame.Wal.{WalActionType, wal_game_start, wal_action_name, wal_record}
use asciigame.Wal.Records.{WalRecord, wal_parse_record}
use asciigame.Wal.Records.RoundTrip.{wal_parse_record-wal_record}
use asciigame.Recovery.Meaning.{stamped}
use asciigame.Recovery.{RecoveryState}
use asciigame.Recovery.Replay.{apply_action, replay_record, replay_lines}
use asciigame.Recovery.Events.{
  GameEvent, moves, is_damaged, loses_shield, dies, shrinks, spawns, picks_up, uses, action_of,
  text_of, effect,
}
use asciigame.Recovery.Events.Reading.{
  scan-moves, scan-is_damaged, contains-is_damaged, scan-loses_shield, contains-loses_shield,
  scan-dies, scan-shrinks, scan-spawns, scan-picks_up, scan-uses,
}
use asciigame.Recovery.Events.Written.{IsInt, IsWritten, text_of-IsLine, length-text_of}
use asciigame.Recovery.Meaning.Agrees.{
  noted-stamped, change_player-with_player, add_item-on_map, picked-carrying, use_up-empowered,
}
use asciigame.Recovery.Parse.{
  stand_at, hurt_to, dead, parse_move, parse_damage, parse_player_death, parse_poison_shrink,
  parse_item_spawn, parse_pickup, parse_use_item,
}

-- The text of each event is parsed into its effect.
apply_action-effect :
    (now : ℤ) (e : GameEvent) (state : RecoveryState)
    → IsWritten e
    → apply_action now (action_of e) (text_of e) state ≡ some (effect e state)
unfolding apply_action
apply_action-effect now (moves pid direction ox oy nx ny) state h = ap some (
    rw (scan-moves pid direction ox oy nx ny h.1, parse_move)
      (change_player-with_player pid (stand_at nx ny) state))
apply_action-effect now (is_damaged atk vic dmg hp) state h = ap some (
    rw (scan-is_damaged atk vic dmg hp, contains-is_damaged atk vic dmg hp, parse_damage)
      (change_player-with_player vic (hurt_to false hp) state))
apply_action-effect now (loses_shield atk vic hp) state h = ap some (
    rw (scan-loses_shield atk vic hp, contains-loses_shield atk vic hp, parse_damage)
      (change_player-with_player vic (hurt_to true hp) state))
apply_action-effect now (dies pid killer) state h =
    ap some
      (rw (scan-dies pid killer, parse_player_death) (change_player-with_player pid dead state))
apply_action-effect now (shrinks radius) state h =
    ap some (rw (scan-shrinks radius, parse_poison_shrink) refl)
apply_action-effect now (spawns type x y) state h =
    ap some (rw (scan-spawns type x y, parse_item_spawn) (add_item-on_map type x y state))
apply_action-effect now (picks_up pid item x y) state h =
    ap some (rw (scan-picks_up pid item x y, parse_pickup) (picked-carrying pid item x y state))
apply_action-effect now (uses pid item idx) state h =
    ap some (rw (scan-uses pid item idx, parse_use_item) (use_up-empowered pid item idx state))

-- An event with the time and the sequence number under which it is written.
pub record Stamped : Type 0 where
  pub timestamp : ℤ
  pub sequence : ℤ
  pub event : GameEvent

abbrev pub line_of : ℤ → Stamped → Text
line_of room_id s = wal_record s.timestamp s.sequence room_id (action_of s.event) (text_of s.event)

abbrev pub record_of : ℤ → Stamped → WalRecord
record_of room_id s = record {
  timestamp = s.timestamp;
  sequence = s.sequence;
  room_id = room_id;
  action_type = some (action_of s.event);
  action_data = text_of s.event;
}

-- The state after the events, when `n` records came before.
abbrev pub rebuilt : ℤ → List Stamped → ℕ → RecoveryState → RecoveryState
rebuilt room_id [] n state = state
rebuilt room_id (s ∷ log) n state =
    rebuilt room_id log (suc n) (effect s.event (stamped room_id s.timestamp n state))

-- Times and sequence numbers are of type long, the rest as the events want it.
pub record IsStamped (s : Stamped) : Type 0 where
  pub time : Fits 19 s.timestamp
  pub number : Fits 19 s.sequence
  pub written : IsWritten s.event

wal_action_name_short : (type : WalActionType) → length (wal_action_name type) ≤ 13
unfolding wal_action_name
wal_action_name_short wal_game_start = omega arith
wal_action_name_short _ = omega arith

joined :
    {a b : ℕ} (xs ys : Text) → length xs ≤ a → length ys ≤ b → length (xs ++ b'|' ∷ ys) ≤ a + suc b
joined xs ys h g = omega (arith, length-append xs (b'|' ∷ ys))

pub length-line_of :
    (room_id : ℤ) (s : Stamped)
    → IsInt room_id
    → IsStamped s
    → length (line_of room_id s) < wal_buffer_size
length-line_of room_id s i h =
    let ended : length (text_of s.event ++ 10 ∷ []) ≤ 127 =
      omega (arith, length-append (text_of s.event) (10 ∷ []), length-text_of s.event h.written) in
    let named =
      joined (wal_action_name (action_of s.event)) (text_of s.event ++ 10 ∷ [])
        (wal_action_name_short (action_of s.event)) ended in
    let placed = joined (print_int room_id) _ (length-print_int 9 room_id i) named in
    let numbered =
      joined (print_int s.sequence) _ (length-print_int 18 s.sequence h.number) placed in
    let timed =
      joined (print_int s.timestamp) _ (length-print_int 18 s.timestamp h.time) numbered in
    unfold wal_record in omega (arith, timed)

parse-line_of :
    (room_id : ℤ) (s : Stamped)
    → IsInt room_id
    → IsStamped s
    → wal_parse_record (line_of room_id s) ≡ some (record_of room_id s)
parse-line_of room_id s i h =
    wal_parse_record-wal_record s.timestamp s.sequence room_id (action_of s.event) (text_of s.event)
      (text_of-IsLine s.event h.written) (length-line_of room_id s i h)

replay-record_of :
    (now : ℤ) (n : ℕ) (room_id : ℤ) (s : Stamped) (state : RecoveryState)
    → IsStamped s
    → replay_record now n (record_of room_id s) state
      ≡ some (effect s.event (stamped room_id s.timestamp n state))
unfolding replay_record
replay-record_of now n room_id s state h =
    rw (noted-stamped n (record_of room_id s) state)
      (apply_action-effect now s.event (stamped room_id s.timestamp n state) h.written)

-- Replaying the lines that were written for a list of events, in their order, always succeeds, reads
-- every line as one record, and gives the state that the effects of the events give one after the
-- other. The numbers of the events are of type int, times and sequence numbers of type long, and
-- directions are neither commas nor line ends.
pub replay_lines-rebuilt :
    (now room_id : ℤ) (log : List Stamped) (n : ℕ) (state : RecoveryState)
    → IsInt room_id
    → All IsStamped log
    → replay_lines now (map (line_of room_id) log) n state
      ≡ some (n + length log, rebuilt room_id log n state)
unfolding replay_lines
replay_lines-rebuilt now room_id [] n state i h = let e : n + 0 ≡ n = omega arith in rw e refl
replay_lines-rebuilt now room_id (s ∷ log) n state i h =
    let next = effect s.event (stamped room_id s.timestamp n state) in
    let e : suc n + length log ≡ n + suc (length log) = omega arith in
    rw (parse-line_of room_id s i h.0, replay-record_of now n room_id s state h.0, replay_lines)
      (replay_lines-rebuilt now room_id log (suc n) next i h.1
        ∙ ap (λ k. some (k, rebuilt room_id log (suc n) next)) e)
