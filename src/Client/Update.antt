-- ===== src/Client/Update.antt =====
-- What the client does with the server's bytes: the receiving thread and the choice of a handler.
use asciigame.Base.{ℕ, zero, suc, ◌≡◌, refl, ◌+◌, false, List, [], ◌∷◌, ◌++◌, none, some, ℤ, length}
use asciigame.Text.{Text}
use asciigame.Protocol.{
  CommandType, Message, cmd_ok, cmd_err, cmd_room_list, cmd_room_info, cmd_player_join,
  cmd_player_leave, cmd_game_start, cmd_map_data, cmd_game_state, cmd_game_event, cmd_game_end,
  cmd_chat_msg, protocol_parse, extracted, no_message, too_long, protocol_extract_message,
}
use asciigame.Client.{GameState, game_set_dirty}
use asciigame.Client.Handlers.{
  handle_ok, handle_err, handle_room_info, handle_room_list, handle_game_start, handle_chat_msg,
  handle_player_join, handle_player_leave, handle_game_end,
}
use asciigame.Client.State.{handle_game_state}
use asciigame.Client.Events.{handle_game_event}
use asciigame.Client.MapData.{handle_map_data}

-- A call of `network_recv` for the bytes that fit: what it read, nothing before its timeout, or an
-- error.
pub data Recv : Type 0 where
  read : List ℕ → Recv
  nothing_read recv_error : Recv

-- The time, and the values of the locals that no conversion assigns.
module _ (now : ℤ) (junk : ℕ → ℤ) where
  abbrev pub handle_message : CommandType → List Text → GameState → GameState
  handle_message cmd_ok args g = handle_ok args g
  handle_message cmd_err args g = handle_err args g
  handle_message cmd_room_list args g = handle_room_list (junk 4) args g
  handle_message cmd_room_info args g = handle_room_info args g
  handle_message cmd_player_join args g = handle_player_join args g
  handle_message cmd_player_leave args g = handle_player_leave args g
  handle_message cmd_game_start args g = handle_game_start args g
  handle_message cmd_map_data args g = handle_map_data args g
  handle_message cmd_game_state args g = handle_game_state junk args g
  handle_message cmd_game_event args g = handle_game_event now args g
  handle_message cmd_game_end args g = handle_game_end args g
  handle_message cmd_chat_msg args g = handle_chat_msg args g
  handle_message _ args g = g

  unfoldable pub game_update_from_server : Text → GameState → GameState
  unfolding protocol_parse handle_ok handle_err handle_room_list handle_room_info handle_player_join
      handle_player_leave handle_game_start handle_map_data handle_game_state handle_game_event
      handle_game_end handle_chat_msg
  game_update_from_server raw g = elim (protocol_parse raw) [
    | none ↦ g
    | some m ↦ game_set_dirty (handle_message m.type m.args g)
  ]

  pub update_of_parsed :
      (s : Text) (m : Message) (g : GameState)
      → protocol_parse s ≡ some m
      → game_update_from_server s g ≡ game_set_dirty (handle_message m.type m.args g)
  unfolding game_update_from_server
  update_of_parsed s m g e = rw (e, game_update_from_server) refl

  -- The loop over the complete messages in the buffer stops when none is left, and at one that is
  -- too long. Each message ends with a newline, so fuel above the length of the buffer is enough.
  unfoldable pub take_messages : ℕ → List ℕ → GameState → List ℕ × GameState
  unfolding protocol_extract_message game_update_from_server
  take_messages zero buf g = (buf, g)
  take_messages (suc fuel) buf g =
      let (rest, result) = protocol_extract_message buf 4096 in
      elim result [
        | extracted message ↦ take_messages fuel rest (game_update_from_server message g)
        | no_message ↦ (rest, g)
        | too_long ↦ (rest, g)
      ]

  -- The calls made while the connection is up, and the buffer.
  unfoldable pub recv_thread_func : List Recv → List ℕ → GameState → GameState
  unfolding take_messages
  recv_thread_func [] buf g = g
  recv_thread_func (read bytes ∷ calls) buf g =
      let (rest, h) = take_messages (length (buf ++ bytes) + 1) (buf ++ bytes) g in
      recv_thread_func calls rest h
  recv_thread_func (nothing_read ∷ calls) buf g = recv_thread_func calls buf g
  recv_thread_func (recv_error ∷ calls) buf g = record g { connected = false }
