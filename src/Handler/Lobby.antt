-- ===== src/Handler/Lobby.antt =====
-- The commands outside a game: accounts, rooms, readiness, chat and logout.
use asciigame.Base.{
  ℕ, List, [], ◌∷◌, none, some, ℤ, pos, Bool, true, false, not, ◌&&◌, ◌||◌, all, ltb, leb, ltb_ℤ,
  ◌==◌, length, if◌then◌else◌,
}
use asciigame.Config.{
  max_msg_len, max_username, min_room_players, max_room_players, err_invalid_format,
  err_invalid_arg_count, err_invalid_arg_format, err_username_exists, err_room_not_found,
  err_room_full, err_game_in_progress, err_not_in_room,
}
use asciigame.Text.{Text, codes}
use asciigame.Text.Decimal.{atoi}
use asciigame.Player.{
  Player, PlayerStatus, player_connected, player_lobby, player_in_room, player_ready, is_ready,
}
use asciigame.Protocol.{protocol_build_room_info, protocol_build_chat_msg}
use asciigame.Wal.Records.{wal_create_for_room}
use asciigame.Room.{
  Room, Arena, room_add_player, Joined, joined, room_full, in_progress, room_remove_player, emptied,
  room_all_ready, room_broadcast,
}
use asciigame.Room.Start.{room_start_game}
use asciigame.Room.Table.{room_create, room_destroy, room_find_by_id, room_get_list, status_number}
use asciigame.Storage.{storage_register_user, Registered, registered, name_taken, refused}
use asciigame.World.{World, room_in, into_room, out_of_room, send, change}
use asciigame.Handler.{send_ok, send_error, refuse, before_lobby, before_room}

abbrev pub is_lobby : PlayerStatus → Bool
is_lobby player_lobby = true
is_lobby _ = false

abbrev pub is_in_room : PlayerStatus → Bool
is_in_room player_in_room = true
is_in_room _ = false

abbrev pub register_reply : ℕ → Registered → World → World × Bool
register_reply s registered w = (send_ok s (codes "Registration successful") w, true)
register_reply s name_taken w = refuse s err_username_exists (codes "Username already exists") w
register_reply s refused w = refuse s err_invalid_format (codes "Registration failed") w

unfoldable pub handler_register : ℕ → List Text → World → World × Bool
unfolding send_ok send_error
handler_register s (username ∷ password ∷ _) w =
    if ltb (length username) 1 || leb max_username (length username)
    then refuse s err_invalid_arg_format (codes "Invalid username length") w
    else let (users, r) = storage_register_user username password w.users in
      register_reply s r (record w { users = users })
handler_register s _ w =
    refuse s err_invalid_arg_count (codes "Usage: REGISTER|username|password") w

unfoldable pub handler_list_rooms : ℕ → Player → World → World × Bool
unfolding send_error room_get_list
handler_list_rooms s p w =
    if before_lobby p.status
    then refuse s err_invalid_format (codes "Not logged in") w
    else (send s (room_get_list max_msg_len w.rooms) w, true)

-- The message about the room in slot `i`.
abbrev pub send_room_info : ℕ → ℕ → World → World
send_room_info s i w = elim (room_in w.rooms.rooms i) [
  | none ↦ w
  | some r ↦
      send s
        (protocol_build_room_info max_msg_len r.id r.name r.player_count r.max_players
          (status_number r.status))
        w
]

-- The player enters the room that was created in slot `i`.
unfoldable pub enter_created : ℕ → ℕ → World → World × Bool
unfolding send_error room_add_player room_destroy
enter_created s i w = elim (room_in w.rooms.rooms i) [
  | none ↦ refuse s err_invalid_format (codes "Failed to create room") w
  | some r ↦
      let (a, result) = room_add_player (into_room w r) s in
      let entered = out_of_room w i a in
      elim result [
        | joined ↦ (send_room_info s i entered, true)
        | _ ↦
            refuse s err_invalid_format (codes "Failed to join room")
              (record entered { rooms = room_destroy i entered.rooms })
      ]
]

unfoldable pub handler_create_room : ℕ → Player → List Text → World → World × Bool
unfolding send_error atoi room_create enter_created
handler_create_room s p (name ∷ number ∷ _) w =
    let max_players = atoi number in
    if not (is_lobby p.status)
    then refuse s err_invalid_format (codes "Must be in lobby") w
    else if ltb_ℤ max_players (pos min_room_players) || ltb_ℤ (pos max_room_players) max_players
    then refuse s err_invalid_arg_format (codes "Invalid max players (6-10)") w
    else (let (rooms, slot) = room_create name max_players w.rooms in
        let created : World = record w { rooms = rooms } in
        elim slot [
          | none ↦ refuse s err_invalid_format (codes "Failed to create room") created
          | some i ↦ enter_created s i created
        ])
handler_create_room s p _ w =
    refuse s err_invalid_arg_count (codes "Usage: CREATE_ROOM|name|max_players") w

abbrev pub join_reply : ℕ → ℕ → Joined → World → World × Bool
join_reply s i joined w = (send_room_info s i w, true)
join_reply s i room_full w = refuse s err_room_full (codes "Room is full") w
join_reply s i in_progress w = refuse s err_game_in_progress (codes "Game in progress") w

unfoldable pub handler_join_room : ℕ → Player → List Text → World → World × Bool
unfolding send_error atoi room_find_by_id room_add_player
handler_join_room s p (number ∷ _) w =
    if not (is_lobby p.status)
    then refuse s err_invalid_format (codes "Must be in lobby") w
    else elim (room_find_by_id (atoi number) w.rooms) [
      | none ↦ refuse s err_room_not_found (codes "Room not found") w
      | some i ↦ elim (room_in w.rooms.rooms i) [
        | none ↦ refuse s err_room_not_found (codes "Room not found") w
        | some r ↦
            let (a, result) = room_add_player (into_room w r) s in
            join_reply s i result (out_of_room w i a)
      ]
    ]
handler_join_room s p [] w = refuse s err_invalid_arg_count (codes "Usage: JOIN_ROOM|room_id") w

-- `room_remove_player` with the end of the room that it leaves empty.
unfoldable pub leave : ℕ → ℕ → Room → World → World
unfolding room_remove_player room_destroy
leave s i r w =
    let (a, result) = room_remove_player (into_room w r) s in
    let after = out_of_room w i a in
    elim result [ emptied ↦ record after { rooms = room_destroy i after.rooms } | _ ↦ after ]

unfoldable pub handler_leave_room : ℕ → Player → World → World × Bool
unfolding send_ok send_error leave room_find_by_id
handler_leave_room s p w =
    if before_room p.status
    then refuse s err_not_in_room (codes "Not in a room") w
    else elim (room_find_by_id p.room_id w.rooms) [
      | none ↦ refuse s err_room_not_found (codes "Room not found") w
      | some i ↦ elim (room_in w.rooms.rooms i) [
        | none ↦ refuse s err_room_not_found (codes "Room not found") w
        | some r ↦ (send_ok s (codes "Left room") (leave s i r w), true)
      ]
    ]

unfoldable pub toggle_ready : Player → Player
toggle_ready p = record p { status = if is_in_room p.status then player_ready else player_in_room }

-- The start of the game when all are ready; `old_lines` is what the file of the log holds already.
-- The thread of the game is left out.
unfoldable pub start_if_ready : (ℕ → ℕ) → ℤ → List Text → Arena → Arena
unfolding room_all_ready room_start_game wal_create_for_room
start_if_ready rand now old_lines a =
    let logged : Arena = record a {
      room = record (a.room) { wal = some (wal_create_for_room now a.room.id old_lines) };
    } in
    if room_all_ready a then (room_start_game rand now logged).0 else a

unfoldable pub handler_ready : (ℕ → ℕ) → ℤ → List Text → ℕ → Player → World → World × Bool
unfolding send_ok send_error toggle_ready start_if_ready room_find_by_id
handler_ready rand now old_lines s p w =
    if not (is_in_room p.status) && not (is_ready p.status)
    then refuse s err_not_in_room (codes "Not in a room") w
    else elim (room_find_by_id p.room_id w.rooms) [
      | none ↦ refuse s err_room_not_found (codes "Room not found") w
      | some i ↦ elim (room_in w.rooms.rooms i) [
        | none ↦ refuse s err_room_not_found (codes "Room not found") w
        | some r ↦
            let toggled =
              send_ok s (if is_in_room p.status then codes "Ready" else codes "Not ready")
                (change s toggle_ready w) in
            (out_of_room toggled i (start_if_ready rand now old_lines (into_room toggled r)), true)
      ]
    ]

unfoldable pub handler_chat : ℕ → Player → List Text → World → World × Bool
unfolding send_error room_find_by_id room_broadcast
handler_chat s p [] w = (w, true)
handler_chat s p (message ∷ _) w =
    if all (λ c. c == b' ' || c == 9) message
    then (w, true)
    else if ltb_ℤ p.room_id (pos 0)
    then refuse s err_not_in_room (codes "Not in a room") w
    else elim (room_find_by_id p.room_id w.rooms) [
      | none ↦ refuse s err_room_not_found (codes "Room not found") w
      | some i ↦ elim (room_in w.rooms.rooms i) [
        | none ↦ refuse s err_room_not_found (codes "Room not found") w
        | some r ↦ (
          out_of_room w i (
              room_broadcast (protocol_build_chat_msg max_msg_len p.username message)
                (into_room w r)),
          true,
        )
      ]
    ]

unfoldable pub log_out : Player → Player
log_out p = record p { username = []; status = player_connected }

unfoldable pub handler_logout : ℕ → Player → World → World × Bool
unfolding send_ok leave log_out room_find_by_id
handler_logout s p w =
    let gone = if ltb_ℤ p.room_id (pos 0) then w else elim (room_find_by_id p.room_id w.rooms) [
      | none ↦ w
      | some i ↦ elim (room_in w.rooms.rooms i) [ none ↦ w | some r ↦ leave s i r w ]
    ] in
    (send_ok s (codes "Logged out") (change s log_out gone), true)
