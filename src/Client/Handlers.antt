-- ===== src/Client/Handlers.antt =====
-- The handlers of the server's answers and of the messages about rooms, in client/game.c. They do
-- nothing on a message of too few fields, where the source says so.
use asciigame.Base.{
  Bool, true, false, ◌||◌, List, [], ◌∷◌, ◌++◌, none, some, ℤ, pos, negsuc, ◌==ℤ◌, ltb_ℤ,
  if◌then◌else◌, map, take,
}
use asciigame.Config.{map_width}
use asciigame.Text.{Text, codes, text_eq, copy_into, snprintf}
use asciigame.Text.Decimal.{print_int, atoi}
use asciigame.Text.Fields.{tokens}
use asciigame.Text.Scan.{after_first}
use asciigame.Text.Scan.Mixed.{Part, lit, num, field, Value, number, text, scan_parts}
use asciigame.Player.{is_empty}
use asciigame.GameMap.{map_template}
use asciigame.Client.{GameState, blank_map, game_add_message}

-- `strstr(s, words) != NULL`
abbrev pub has_words : Text → Text → Bool
has_words s words = elim (after_first words s) [ none ↦ false | some _ ↦ true ]

abbrev pub take_answer : Text → List Text → GameState → GameState
take_answer answer rest g =
    let told : GameState = record g { last_message = copy_into 256 answer } in
    let named : GameState = elim rest [
      | [] ↦ told
      | id ∷ _ ↦
          if has_words answer (codes "Login successful")
          then record told { my_id = atoi id }
          else told
    ] in
    let left : GameState =
      if has_words answer (codes "Left room")
      then record named { in_room = false; is_ready = false; room_id = negsuc 0; room_name = [] }
      else named in
    if text_eq answer (codes "Ready")
    then record left { is_ready = true }
    else (if text_eq answer (codes "Not ready") then record left { is_ready = false } else left)

unfoldable pub handle_ok : List Text → GameState → GameState
unfolding after_first text_eq atoi game_add_message
handle_ok [] g = record g { last_error = [] }
handle_ok (answer ∷ rest) g =
    let taken = take_answer answer rest (record g { last_error = [] }) in
    if is_empty answer then taken else game_add_message (codes "Server") answer taken

-- The errors that are not shown.
abbrev pub is_frequent : Text → Bool
is_frequent e =
    text_eq e (codes "Invalid move")
    || (text_eq e (codes "Move on cooldown") || text_eq e (codes "Attack on cooldown"))

unfoldable pub handle_err : List Text → GameState → GameState
unfolding text_eq game_add_message
handle_err (code ∷ error ∷ _) g =
    let taken : GameState = record g { last_error = copy_into 256 error } in
    if is_frequent error then taken else game_add_message (codes "Error") error taken
handle_err _ g = g

unfoldable pub handle_room_info : List Text → GameState → GameState
unfolding atoi game_add_message
handle_room_info (id ∷ name ∷ count ∷ limit ∷ status ∷ _) g =
    let told = snprintf 128 (
      codes "Joined room "
      ++ take 20 name
      ++ codes " (ID: "
      ++ take 8 id
      ++ codes ", Players: "
      ++ take 4 count
      ++ codes "/"
      ++ take 4 limit
      ++ codes ")") in
    game_add_message (codes "System") told
      (record g { room_id = atoi id; room_name = copy_into 32 name; in_room = true })
handle_room_info _ g = g

-- "%d,%63[^,],%d,%d,%d"
abbrev pub room_format : List Part
room_format = num ∷ lit b',' ∷ field 63 b',' ∷ lit b',' ∷ num ∷ lit b',' ∷ num ∷ lit b',' ∷ num ∷ []

abbrev pub status_name : ℤ → Text
status_name status =
    if status ==ℤ pos 0
    then codes "Waiting"
    else (if status ==ℤ pos 2 then codes "Gaming" else codes "Other")

abbrev pub room_line : ℤ → Text → ℤ → ℤ → ℤ → Text
room_line id name players max_players status = snprintf 128 (
    codes "  ["
    ++ print_int id
    ++ codes "] "
    ++ name
    ++ codes " ("
    ++ print_int players
    ++ codes "/"
    ++ print_int max_players
    ++ codes ") - "
    ++ status_name status)

-- A status that is not read has an unknown value.
module _ (junk : ℤ) where
  abbrev pub show_room : List Value → GameState → GameState
  show_room (number id ∷ text name ∷ number players ∷ number limit ∷ rest) g =
      let status : ℤ = elim rest [ number z ∷ _ ↦ z | _ ↦ junk ] in
      game_add_message [] (room_line id name players limit status) g
  show_room _ g = g

  abbrev pub show_rooms : List Text → GameState → GameState
  show_rooms [] g = g
  show_rooms (token ∷ ts) g = show_rooms ts (show_room (scan_parts room_format token) g)

  abbrev pub no_rooms : GameState → GameState
  no_rooms = game_add_message (codes "System") (codes "No rooms available. Press C to create one.")

  unfoldable pub handle_room_list : List Text → GameState → GameState
  unfolding scan_parts game_add_message tokens print_int
  handle_room_list [] g = no_rooms g
  handle_room_list (rooms ∷ _) g =
      if is_empty rooms
      then no_rooms g
      else game_add_message (codes "System") (codes "Press J to join a room by ID") (
          show_rooms (tokens b';' (copy_into 1024 rooms))
            (game_add_message (codes "System") (codes "=== Room List ===") g))

-- The client has a copy of the server's map template.
abbrev pub load_map_template : GameState → GameState
load_map_template g = record g { grid = map (take map_width) map_template }

unfoldable pub handle_game_start : List Text → GameState → GameState
unfolding game_add_message
handle_game_start args g =
    game_add_message (codes "System") (codes "Game started! Use WASD to move, J/Space to attack!") (
      load_map_template
        (record g { in_game = true; my_hp = g.my_max_hp; my_atk = pos 15; my_def = pos 5 }))

unfoldable pub handle_chat_msg : List Text → GameState → GameState
unfolding game_add_message
handle_chat_msg (sender ∷ words ∷ _) g = game_add_message sender words g
handle_chat_msg _ g = g

unfoldable pub handle_player_join : List Text → GameState → GameState
unfolding game_add_message
handle_player_join (id ∷ name ∷ _) g =
    game_add_message (codes "System") (snprintf 256 (take 32 name ++ codes " joined the room")) g
handle_player_join _ g = g

unfoldable pub handle_player_leave : List Text → GameState → GameState
unfolding game_add_message
handle_player_leave (id ∷ _) g =
    game_add_message (codes "System")
      (snprintf 256 (codes "Player " ++ take 32 id ++ codes " left the room")) g
handle_player_leave [] g = g

-- How the end of the game is told.
abbrev pub end_text : ℤ → ℤ → Text
end_text winner_id my_id =
    if winner_id ==ℤ my_id
    then codes "You win!"
    else (if ltb_ℤ winner_id (pos 0)
        then codes "Game ended - Draw!"
        else codes "Game ended - Player " ++ print_int winner_id ++ codes " wins!")

unfoldable pub handle_game_end : List Text → GameState → GameState
unfolding atoi print_int game_add_message
handle_game_end args g =
    let reset : GameState = record g {
      in_game = false;
      is_ready = false;
      my_hp = g.my_max_hp;
      my_x = pos 0;
      my_y = pos 0;
      players = [];
      poison_radius = pos 25;
      grid = blank_map;
    } in
    elim args [
      | [] ↦ reset
      | winner ∷ _ ↦
          game_add_message (codes "System") (snprintf 128 (end_text (atoi winner) g.my_id)) reset
    ]
