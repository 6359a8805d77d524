-- ===== src/Server.antt =====
-- server/main.c: the loop over the events of the connections.
use asciigame.Base.{
  ℕ, zero, suc, ◌+◌, Bool, List, [], ◌∷◌, none, some, ℤ, pos, ◌+ℤ◌, ◌-ℤ◌, ltb_ℤ, length,
  if◌then◌else◌,
}
use asciigame.Config.{max_msg_len, err_invalid_format}
use asciigame.Text.{Text, codes}
use asciigame.Player.{
  Player, PlayerTable, player_at, player_create, player_destroy, player_find_by_fd,
}
use asciigame.Room.Table.{room_find_by_id}
use asciigame.Protocol.{
  protocol_parse, protocol_build_err, protocol_extract_message, extracted, no_message, too_long,
}
use asciigame.World.{World, room_in, send, change}
use asciigame.Handler.Lobby.{leave}
use asciigame.Handler.Process.{handler_process}
use asciigame.Network.{Received, got, closed, receive_again, receive_failed, recv_to_buffer}

pub record ServerState : Type 0 where
  pub world : World
  pub online_count : ℤ

-- The new connection with the success of `epoll_add`, or none.
pub data Accepted : Type 0 where
  accepted : ℤ → Bool → Accepted
  not_accepted : Accepted

abbrev pub in_table : (PlayerTable → PlayerTable) → ServerState → ServerState
in_table f st = record st { world = record (st.world) { table = f st.world.table } }

unfoldable pub handle_new_connection : Accepted → ServerState → ServerState
unfolding player_create player_destroy
handle_new_connection not_accepted st = st
handle_new_connection (accepted fd registered) st =
    let (table, slot) = player_create st.world.table fd in
    elim slot [
      | none ↦ st
      | some s ↦
          if registered
          then record (in_table (λ t. table) st) { online_count = st.online_count +ℤ pos 1 }
          else in_table (λ t. player_destroy table s) st
    ]

-- The player of slot `s` leaves the room and the table.
unfoldable pub handle_disconnect : ℕ → ServerState → ServerState
unfolding player_destroy room_find_by_id leave
handle_disconnect s st = elim (player_at st.world.table.slots s) [
  | none ↦ st
  | some p ↦
      let w = st.world in
      let gone : World =
        if ltb_ℤ p.room_id (pos 0) then w else elim (room_find_by_id p.room_id w.rooms) [
          | none ↦ w
          | some i ↦ elim (room_in w.rooms.rooms i) [ none ↦ w | some r ↦ leave s i r w ]
        ] in
      record (in_table (λ t. player_destroy t s) (record st { world = gone })) {
        online_count = st.online_count -ℤ pos 1;
      }
]

abbrev pub keep_buffer : List ℕ → Player → Player
keep_buffer buf p = record p { recv_buf = buf }

-- The random numbers, and the lines of an old log where a game starts.
module _ (rand : ℕ → ℕ) (old_lines : List Text) where
  -- One complete message.
  abbrev pub process_message : ℤ → ℕ → Text → World → World
  process_message now s message w = elim (protocol_parse message) [
    | none ↦
        send s (protocol_build_err max_msg_len err_invalid_format (codes "Invalid message format"))
          w
    | some m ↦ (handler_process rand now old_lines s m w).0
  ]

  -- The loop over the complete messages in the buffer; fuel above its length is enough.
  unfoldable pub process_messages : ℕ → ℤ → ℕ → World → World
  unfolding protocol_parse protocol_build_err protocol_extract_message handler_process
  process_messages zero now s w = w
  process_messages (suc fuel) now s w = elim (player_at w.table.slots s) [
    | none ↦ w
    | some p ↦
        let (rest, result) = protocol_extract_message p.recv_buf max_msg_len in
        let taken = change s (keep_buffer rest) w in
        elim result [
          | extracted message ↦ process_messages fuel now s (process_message now s message taken)
          | no_message ↦ taken
          | too_long ↦ taken
        ]
  ]

  unfoldable pub handle_client_data : ℤ → Received → ℕ → ServerState → ServerState
  unfolding recv_to_buffer handle_disconnect process_messages
  handle_client_data now received s st = elim (player_at st.world.table.slots s) [
    | none ↦ st
    | some p ↦
        let (buf, result) = recv_to_buffer 4095 p.recv_buf received in
        let kept = change s (keep_buffer buf) st.world in
        let processed : ServerState = record st {
          world = process_messages (length buf + 1) now s kept;
        } in
        elim result [
          | got _ ↦ processed
          | receive_again ↦ processed
          | closed ↦ handle_disconnect s st
          | receive_failed ↦ handle_disconnect s st
        ]
  ]

  -- An event of `epoll_wait`: of the listening socket, or of a client with an error or with data.
  pub data Event : Type 0 where
    connecting : Accepted → Event
    client_error : ℤ → Event
    client_data : ℤ → Received → Event
    client_other : ℤ → Event

  abbrev pub handle_event : ℤ → Event → ServerState → ServerState
  handle_event now (connecting a) st = handle_new_connection a st
  handle_event now (client_error fd) st = elim (player_find_by_fd st.world.table.slots fd) [
    | none ↦ st
    | some s ↦ handle_disconnect s st
  ]
  handle_event now (client_data fd received) st = elim (player_find_by_fd st.world.table.slots fd) [
    | none ↦ st
    | some s ↦ handle_client_data now received s st
  ]
  handle_event now (client_other fd) st = st

  abbrev pub handle_events : List (ℤ × Event) → ServerState → ServerState
  handle_events [] st = st
  handle_events ((now, e) ∷ es) st = handle_events es (handle_event now e st)

  -- What a call of `epoll_wait` gives.
  pub data Waited : Type 0 where
    ready : List (ℤ × Event) → Waited
    interrupted wait_failed : Waited

  -- The calls made while the server runs.
  unfoldable pub main_loop : List Waited → ServerState → ServerState
  unfolding handle_new_connection handle_disconnect handle_client_data player_find_by_fd
  main_loop [] st = st
  main_loop (ready es ∷ calls) st = main_loop calls (handle_events es st)
  main_loop (interrupted ∷ calls) st = main_loop calls st
  main_loop (wait_failed ∷ calls) st = st
