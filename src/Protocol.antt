-- ===== src/Protocol.antt =====
-- common/protocol.c and common/protocol.h: commands, parsing, framing and the message builders.
-- A `const char *` is a text that is not NULL: no caller passes NULL. A builder gives the text that
-- it leaves in the caller's buffer of `max_len` bytes; its return value is nowhere used.
pub mod Names
pub mod Framing
pub mod RoundTrip
pub mod MapData
use asciigame.Base.{
  ℕ, zero, suc, ◌+◌, ◌-◌, ◌≡◌, refl, Bool, true, false, ◌&&◌, ◌||◌, List, [], ◌∷◌, ◌++◌, Option,
  none, some, ℤ, ltb, leb, ◌==◌, if◌then◌else◌, length, take, drop, map, later,
}
use asciigame.Config.{max_args, max_arg_len, max_msg_len}
use asciigame.Text.{Text, codes, text_eq, copy_into, snprintf}
use asciigame.Text.Decimal.{print_int}
use asciigame.Text.Fields.{tokens}

pub data CommandType : Type 0 where
  cmd_login cmd_register cmd_list_rooms cmd_join_room cmd_create_room cmd_leave_room cmd_ready
        cmd_move cmd_attack cmd_use_item cmd_chat cmd_logout cmd_ok cmd_err cmd_room_list
        cmd_room_info cmd_player_join cmd_player_leave cmd_game_start cmd_map_data cmd_game_state
        cmd_game_event cmd_game_end cmd_chat_msg cmd_kick cmd_unknown :
      CommandType

-- `argc` is the length of `args`.
pub record Message : Type 0 where
  pub type : CommandType
  pub args : List Text

abbrev pub cmd_map : List (CommandType × Text)
cmd_map =
    (cmd_login, codes "LOGIN")
    ∷ (cmd_register, codes "REGISTER")
    ∷ (cmd_list_rooms, codes "LIST_ROOMS")
    ∷ (cmd_join_room, codes "JOIN_ROOM")
    ∷ (cmd_create_room, codes "CREATE_ROOM")
    ∷ (cmd_leave_room, codes "LEAVE_ROOM")
    ∷ (cmd_ready, codes "READY")
    ∷ (cmd_move, codes "MOVE")
    ∷ (cmd_attack, codes "ATTACK")
    ∷ (cmd_use_item, codes "USE_ITEM")
    ∷ (cmd_chat, codes "CHAT")
    ∷ (cmd_logout, codes "LOGOUT")
    ∷ (cmd_ok, codes "OK")
    ∷ (cmd_err, codes "ERR")
    ∷ (cmd_room_list, codes "ROOM_LIST")
    ∷ (cmd_room_info, codes "ROOM_INFO")
    ∷ (cmd_player_join, codes "PLAYER_JOIN")
    ∷ (cmd_player_leave, codes "PLAYER_LEAVE")
    ∷ (cmd_game_start, codes "GAME_START")
    ∷ (cmd_map_data, codes "MAP_DATA")
    ∷ (cmd_game_state, codes "GAME_STATE")
    ∷ (cmd_game_event, codes "GAME_EVENT")
    ∷ (cmd_game_end, codes "GAME_END")
    ∷ (cmd_chat_msg, codes "CHAT_MSG")
    ∷ (cmd_kick, codes "KICK")
    ∷ (cmd_unknown, codes "UNKNOWN")
    ∷ []

-- The values of the enumeration, to compare two of them.
abbrev pub cmd_code : CommandType → ℕ
cmd_code = elim [
  | cmd_login ↦ 0
  | cmd_register ↦ 1
  | cmd_list_rooms ↦ 2
  | cmd_join_room ↦ 3
  | cmd_create_room ↦ 4
  | cmd_leave_room ↦ 5
  | cmd_ready ↦ 6
  | cmd_move ↦ 7
  | cmd_attack ↦ 8
  | cmd_use_item ↦ 9
  | cmd_chat ↦ 10
  | cmd_logout ↦ 11
  | cmd_ok ↦ 12
  | cmd_err ↦ 13
  | cmd_room_list ↦ 14
  | cmd_room_info ↦ 15
  | cmd_player_join ↦ 16
  | cmd_player_leave ↦ 17
  | cmd_game_start ↦ 18
  | cmd_map_data ↦ 19
  | cmd_game_state ↦ 20
  | cmd_game_event ↦ 21
  | cmd_game_end ↦ 22
  | cmd_chat_msg ↦ 23
  | cmd_kick ↦ 24
  | cmd_unknown ↦ 25
]

name_in : List (CommandType × Text) → CommandType → Text
name_in [] type = codes "UNKNOWN"
name_in ((t, name) ∷ rest) type =
    let later = name_in rest type in if cmd_code t == cmd_code type then name else later

unfoldable pub protocol_cmd_name : CommandType → Text
unfolding name_in
protocol_cmd_name type = name_in cmd_map type

-- The last entry of the table is not looked at.
type_in : List (CommandType × Text) → Text → CommandType
type_in [] s = cmd_unknown
type_in ((t, name) ∷ []) s = cmd_unknown
type_in ((t, name) ∷ (e ∷ rest)) s =
    let later = type_in (e ∷ rest) s in if text_eq name s then t else later

unfoldable pub protocol_parse_cmd : Text → CommandType
unfolding type_in text_eq
protocol_parse_cmd cmd_str = type_in cmd_map cmd_str

-- `while (len > 0 && (buf[len - 1] == '\n' || buf[len - 1] == '\r')) buf[--len] = '\0'`
unfoldable pub strip_newlines : Text → Text
strip_newlines [] = []
strip_newlines (c ∷ s) = elim (strip_newlines s) [
  | [] ↦ if c == 10 || c == 13 then [] else c ∷ []
  | d ∷ t ↦ c ∷ d ∷ t
]

-- Of the text read by the last `strtok_r` loop: at most MAX_ARGS arguments, each cut at its place.
abbrev pub arguments : List Text → List Text
arguments ts = map (copy_into max_arg_len) (take max_args ts)

abbrev pub message_of : List Text → Option Message
message_of [] = none
message_of (t ∷ ts) = some (record { type = protocol_parse_cmd t; args = arguments ts })

-- `none` is the return value -1.
unfoldable pub protocol_parse : Text → Option Message
unfolding strip_newlines tokens
protocol_parse raw = elim raw [
  | [] ↦ none
  | c ∷ s ↦
      if leb max_msg_len (length (c ∷ s))
      then none
      else message_of (tokens b'|' (strip_newlines (copy_into max_msg_len (c ∷ s))))
]

-- The position of the first newline, as `memchr` finds it.
unfoldable pub find_newline : List ℕ → Option ℕ
find_newline [] = none
find_newline (c ∷ s) = let rest = later (find_newline s) in if c == 10 then some 0 else rest

pub data Extracted : Type 0 where
  extracted : Text → Extracted
  no_message too_long : Extracted

-- The buffer is its first `len` bytes; `max_msg_len` is positive. The new buffer comes first.
unfoldable pub protocol_extract_message : List ℕ → ℕ → List ℕ × Extracted
unfolding find_newline
protocol_extract_message buf max_len = elim (find_newline buf) [
  | none ↦ (buf, no_message)
  | some i ↦
      if ltb max_len (i + 1)
      then (drop (i + 1) buf, too_long)
      else (drop (i + 1) buf, extracted (take i buf))
]

-- `GAME_EVENT|type|...`: the fields joined by bars and ended by a newline.
abbrev pub line : Text → List Text → Text
line name [] = name ++ (10 ∷ [])
line name (f ∷ fs) = name ++ (b'|' ∷ line f fs)

unfoldable pub protocol_build_ok : ℕ → Text → Text
protocol_build_ok max_len message = snprintf max_len (line (codes "OK") (message ∷ []))

unfoldable pub protocol_build_err : ℕ → ℤ → Text → Text
unfolding print_int
protocol_build_err max_len code message =
    snprintf max_len (line (codes "ERR") (print_int code ∷ message ∷ []))

unfoldable pub protocol_build_room_list : ℕ → Text → Text
protocol_build_room_list max_len room_data =
    snprintf max_len (line (codes "ROOM_LIST") (room_data ∷ []))

unfoldable pub protocol_build_room_info : ℕ → ℤ → Text → ℤ → ℤ → ℤ → Text
unfolding print_int
protocol_build_room_info max_len room_id name player_count max_players status = snprintf max_len (
    line (codes "ROOM_INFO") (
      print_int room_id
      ∷ name
      ∷ print_int player_count
      ∷ print_int max_players
      ∷ print_int status
      ∷ []))

unfoldable pub protocol_build_player_join : ℕ → ℤ → Text → Text
unfolding print_int
protocol_build_player_join max_len player_id username =
    snprintf max_len (line (codes "PLAYER_JOIN") (print_int player_id ∷ username ∷ []))

unfoldable pub protocol_build_player_leave : ℕ → ℤ → Text
unfolding print_int
protocol_build_player_leave max_len player_id =
    snprintf max_len (line (codes "PLAYER_LEAVE") (print_int player_id ∷ []))

unfoldable pub protocol_build_game_start : ℕ → Text
protocol_build_game_start max_len = snprintf max_len (line (codes "GAME_START") [])

unfoldable pub protocol_build_game_state : ℕ → ℤ → Text → Text → ℤ → Text
unfolding print_int
protocol_build_game_state max_len timestamp player_states item_states poison_radius =
    snprintf max_len (
      line (codes "GAME_STATE")
        (print_int timestamp ∷ player_states ∷ item_states ∷ print_int poison_radius ∷ []))

unfoldable pub protocol_build_game_event : ℕ → Text → Text → Text
protocol_build_game_event max_len event_type event_data =
    snprintf max_len (line (codes "GAME_EVENT") (event_type ∷ event_data ∷ []))

unfoldable pub protocol_build_game_end : ℕ → ℤ → Text → Text
unfolding print_int
protocol_build_game_end max_len winner_id stats =
    snprintf max_len (line (codes "GAME_END") (print_int winner_id ∷ stats ∷ []))

unfoldable pub protocol_build_chat_msg : ℕ → Text → Text → Text
protocol_build_chat_msg max_len sender message =
    snprintf max_len (line (codes "CHAT_MSG") (sender ∷ message ∷ []))

unfoldable pub protocol_build_kick : ℕ → Text → Text
protocol_build_kick max_len reason = snprintf max_len (line (codes "KICK") (reason ∷ []))

unfoldable pub protocol_build_login : ℕ → Text → Text → Text
protocol_build_login max_len username password =
    snprintf max_len (line (codes "LOGIN") (username ∷ password ∷ []))

unfoldable pub protocol_build_register : ℕ → Text → Text → Text
protocol_build_register max_len username password =
    snprintf max_len (line (codes "REGISTER") (username ∷ password ∷ []))

unfoldable pub protocol_build_create_room : ℕ → Text → ℤ → Text
unfolding print_int
protocol_build_create_room max_len room_name max_players =
    snprintf max_len (line (codes "CREATE_ROOM") (room_name ∷ print_int max_players ∷ []))

unfoldable pub protocol_build_join_room : ℕ → ℤ → Text
unfolding print_int
protocol_build_join_room max_len room_id =
    snprintf max_len (line (codes "JOIN_ROOM") (print_int room_id ∷ []))

unfoldable pub protocol_build_move : ℕ → ℕ → Text
protocol_build_move max_len direction =
    snprintf max_len (line (codes "MOVE") ((direction ∷ []) ∷ []))

unfoldable pub protocol_build_attack : ℕ → Text
protocol_build_attack max_len = snprintf max_len (line (codes "ATTACK") ([] ∷ []))

unfoldable pub protocol_build_use_item : ℕ → ℤ → Text
unfolding print_int
protocol_build_use_item max_len item_index =
    snprintf max_len (line (codes "USE_ITEM") (print_int item_index ∷ []))

unfoldable pub protocol_build_chat : ℕ → Text → Text
protocol_build_chat max_len message = snprintf max_len (line (codes "CHAT") (message ∷ []))

unfoldable pub protocol_build_simple : ℕ → Text → Text
protocol_build_simple max_len cmd = snprintf max_len (line cmd ([] ∷ []))
