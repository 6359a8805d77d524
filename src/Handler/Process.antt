-- ===== src/Handler/Process.antt =====
-- `handler_process`, and a login where no recovery file names the user.
use asciigame.Base.{ℕ, List, [], ◌∷◌, none, some, ℤ, Bool, true, false, not, if◌then◌else◌}
use asciigame.Config.{
  max_msg_len, err_unknown_command, err_invalid_arg_count, err_invalid_credentials,
  err_user_logged_in,
}
use asciigame.Text.{Text, codes, snprintf}
use asciigame.Text.Decimal.{print_int}
use asciigame.Player.{
  Player, PlayerStatus, player_connected, player_lobby, player_at, player_find_by_username,
  player_set_username,
}
use asciigame.Protocol.{
  Message, CommandType, cmd_login, cmd_register, cmd_list_rooms, cmd_create_room, cmd_join_room,
  cmd_leave_room, cmd_ready, cmd_move, cmd_attack, cmd_use_item, cmd_chat, cmd_logout, line,
}
use asciigame.Storage.{storage_verify_user, Verified, verified, no_user, wrong_password}
use asciigame.World.{World, send, change}
use asciigame.Handler.{send_error, refuse}
use asciigame.Handler.Lobby.{
  handler_register, handler_list_rooms, handler_create_room, handler_join_room, handler_leave_room,
  handler_ready, handler_chat, handler_logout,
}
use asciigame.Handler.Play.{handler_move, handler_attack, handler_use_item}

abbrev pub is_connected : PlayerStatus → Bool
is_connected player_connected = true
is_connected _ = false

unfoldable pub log_in : Text → Player → Player
unfolding player_set_username
log_in username p = record (player_set_username p username) { status = player_lobby }

-- "OK|Login successful|%d\n"
abbrev pub welcome : ℤ → Text
welcome id = snprintf max_msg_len (line (codes "OK") (codes "Login successful" ∷ print_int id ∷ []))

abbrev pub login_reply : ℕ → Player → Text → Verified → World → World × Bool
login_reply s p username no_user w = refuse s err_invalid_credentials (codes "User not found") w
login_reply s p username wrong_password w =
    refuse s err_invalid_credentials (codes "Invalid password") w
login_reply s p username verified w = (send s (welcome p.id) (change s (log_in username) w), true)

unfoldable pub handler_login : ℕ → Player → List Text → World → World × Bool
unfolding send_error log_in player_find_by_username storage_verify_user print_int
handler_login s p (username ∷ password ∷ _) w =
    if not (is_connected p.status)
    then refuse s err_user_logged_in (codes "Already logged in") w
    else elim (player_find_by_username w.table.slots username) [
      | some _ ↦ refuse s err_user_logged_in (codes "User already online") w
      | none ↦ login_reply s p username (storage_verify_user username password w.users) w
    ]
handler_login s p _ w = refuse s err_invalid_arg_count (codes "Usage: LOGIN|username|password") w

-- The switch over the command.
unfoldable pub dispatch :
    (ℕ → ℕ) → ℤ → List Text → ℕ → Player → CommandType → List Text → World → World × Bool
unfolding send_error handler_login handler_register handler_list_rooms handler_create_room
    handler_join_room handler_leave_room handler_ready handler_chat handler_logout handler_move
    handler_attack handler_use_item
dispatch rand now old_lines s p cmd_login args w = handler_login s p args w
dispatch rand now old_lines s p cmd_register args w = handler_register s args w
dispatch rand now old_lines s p cmd_list_rooms args w = handler_list_rooms s p w
dispatch rand now old_lines s p cmd_create_room args w = handler_create_room s p args w
dispatch rand now old_lines s p cmd_join_room args w = handler_join_room s p args w
dispatch rand now old_lines s p cmd_leave_room args w = handler_leave_room s p w
dispatch rand now old_lines s p cmd_ready args w = handler_ready rand now old_lines s p w
dispatch rand now old_lines s p cmd_move args w = handler_move now s p args w
dispatch rand now old_lines s p cmd_attack args w = handler_attack now s p w
dispatch rand now old_lines s p cmd_use_item args w = handler_use_item now s p args w
dispatch rand now old_lines s p cmd_chat args w = handler_chat s p args w
dispatch rand now old_lines s p cmd_logout args w = handler_logout s p w
dispatch rand now old_lines s p _ args w = refuse s err_unknown_command (codes "Unknown command") w

unfoldable pub handler_process : (ℕ → ℕ) → ℤ → List Text → ℕ → Message → World → World × Bool
unfolding dispatch
handler_process rand now old_lines s msg w = elim (player_at w.table.slots s) [
  | none ↦ (w, false)
  | some p ↦ dispatch rand now old_lines s p msg.type msg.args w
]
