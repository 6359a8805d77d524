-- ===== src/Wal/Records.antt =====
-- `wal_parse_record`, and the last sequence number of a log file.
pub mod RoundTrip
use asciigame.Base.{
  List, [], ◌∷◌, ◌++◌, Option, none, some, ℤ, pos, ◌+ℤ◌, ltb_ℤ, if◌then◌else◌, take,
}
use asciigame.Config.{wal_buffer_size, max_msg_len}
use asciigame.Text.{Text, copy_into}
use asciigame.Text.Decimal.{atoi}
use asciigame.Text.Scan.{Directive, byte, int, skip_int, sscanf, strtok}
use asciigame.Protocol.{strip_newlines}
use asciigame.Wal.{WalActionType, WalManager, wal_parse_action}

-- `none` is the action type -1.
pub record WalRecord : Type 0 where
  pub timestamp : ℤ
  pub sequence : ℤ
  pub room_id : ℤ
  pub action_type : Option WalActionType
  pub action_data : Text

-- `strncpy(buf, line, sizeof(buf) - 1)` and the newlines at its end.
abbrev pub record_buffer : Text → Text
record_buffer line = strip_newlines (copy_into wal_buffer_size line)

-- The four fields and the rest of the buffer; `none` is -1.
unfoldable pub wal_parse_fields : Text → Option WalRecord
unfolding atoi wal_parse_action strtok
wal_parse_fields buf = elim (strtok b'|' buf) [
  | none ↦ none
  | some (timestamp, after_time) ↦ elim (strtok b'|' after_time) [
    | none ↦ none
    | some (sequence, after_sequence) ↦ elim (strtok b'|' after_sequence) [
      | none ↦ none
      | some (room_id, after_room) ↦ elim (strtok b'|' after_room) [
        | none ↦ none
        | some (name, rest) ↦ some (record {
          timestamp = atoi timestamp;
          sequence = atoi sequence;
          room_id = atoi room_id;
          action_type = wal_parse_action name;
          action_data = copy_into max_msg_len rest;
        })
      ]
    ]
  ]
]

unfoldable pub wal_parse_record : Text → Option WalRecord
unfolding wal_parse_fields strip_newlines
wal_parse_record line = wal_parse_fields (record_buffer line)

-- `sscanf(line, "%*d|%d|", &seq)`
abbrev pub sequence_of : Text → List ℤ
sequence_of = sscanf (skip_int ∷ byte b'|' ∷ int ∷ byte b'|' ∷ [])

unfoldable pub get_last_sequence : List Text → ℤ → ℤ
unfolding sscanf
get_last_sequence [] last_seq = last_seq
get_last_sequence (line ∷ lines) last_seq = get_last_sequence lines (elim (sequence_of line) [
  | [] ↦ last_seq
  | seq ∷ _ ↦ if ltb_ℤ last_seq seq then seq else last_seq
])

-- The log of a room over the lines that its file holds already.
unfoldable pub wal_create_for_room : ℤ → ℤ → List Text → WalManager
unfolding get_last_sequence
wal_create_for_room now room_id lines = record {
  room_id = room_id;
  sequence = get_last_sequence lines (pos 0) +ℤ pos 1;
  lines = lines;
  last_sync_time = now;
}

unfoldable pub wal_truncate : WalManager → WalManager
wal_truncate wal = record wal { sequence = pos 1; lines = [] }
