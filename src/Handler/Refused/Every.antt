-- ===== src/Handler/Refused/Every.antt =====
-- The switch of `handler_process` over all commands.
use asciigame.Base.{ℕ, ◌≡◌, false, List, some, ℤ}
use asciigame.Text.{Text, codes}
use asciigame.Player.{Player, player_at}
use asciigame.Player.Inventory.{IsStocked}
use asciigame.Protocol.{
  Message, CommandType, cmd_login, cmd_register, cmd_list_rooms, cmd_create_room, cmd_join_room,
  cmd_leave_room, cmd_ready, cmd_move, cmd_attack, cmd_use_item, cmd_chat, cmd_logout,
}
use asciigame.World.{World}
use asciigame.Handler.{send_error}
use asciigame.Handler.Lobby.{handler_logout}
use asciigame.Handler.Process.{dispatch, handler_process}
use asciigame.Handler.Refused.{
  OnlyError, refuse-OnlyError, success-OnlyError, handler_move-OnlyError, handler_attack-OnlyError,
  handler_use_item-OnlyError,
}
use asciigame.Handler.Refused.Entering.{
  handler_join_room-OnlyError, handler_leave_room-OnlyError, handler_ready-OnlyError,
  handler_chat-OnlyError,
}
use asciigame.Handler.Refused.Commands.{
  handler_register-OnlyError, handler_list_rooms-OnlyError, handler_login-OnlyError,
}
use asciigame.Handler.Refused.Creating.{handler_create_room-OnlyError}

handler_logout-OnlyError : (s : ℕ) (p : Player) (w : World) → OnlyError s w (handler_logout s p w)
unfolding handler_logout
handler_logout-OnlyError s p w = success-OnlyError s w _

-- The thread's source of numbers, the time and the old lines of the log, and a player in slot `s`.
module _ (rand : ℕ → ℕ) (now : ℤ) (old_lines : List Text) (s : ℕ) (p : Player) (w : World) where
  dispatch-OnlyError :
      player_at w.table.slots s ≡ some p
      → IsStocked p
      → (type : CommandType) (args : List Text)
      → OnlyError s w (dispatch rand now old_lines s p type args w)
  unfolding dispatch
  dispatch-OnlyError e v cmd_login args = handler_login-OnlyError s p args w
  dispatch-OnlyError e v cmd_register args = handler_register-OnlyError s args w
  dispatch-OnlyError e v cmd_list_rooms args = handler_list_rooms-OnlyError s p w
  dispatch-OnlyError e v cmd_create_room args = handler_create_room-OnlyError s p args w e
  dispatch-OnlyError e v cmd_join_room args = handler_join_room-OnlyError s p args w
  dispatch-OnlyError e v cmd_leave_room args = handler_leave_room-OnlyError s p w
  dispatch-OnlyError e v cmd_ready args = handler_ready-OnlyError rand now old_lines s p w
  dispatch-OnlyError e v cmd_move args = handler_move-OnlyError now s p args w e
  dispatch-OnlyError e v cmd_attack args = handler_attack-OnlyError now s p w e
  dispatch-OnlyError e v cmd_use_item args = handler_use_item-OnlyError now s p args w e v
  dispatch-OnlyError e v cmd_chat args = handler_chat-OnlyError s p args w
  dispatch-OnlyError e v cmd_logout args = handler_logout-OnlyError s p w
  dispatch-OnlyError e v _ args = refuse-OnlyError s _ (codes "Unknown command") w

  -- Where `handler_process` returns -1 for the message of a player in slot `s`, whose inventory
  -- is well formed, it has changed nothing: the world after it is the world before it with one
  -- message `ERR|code|message` sent to the player. That is so for every command, well formed or
  -- not, in every state of the players, the rooms and the accounts.
  pub handler_process_refused :
      (msg : Message)
      → player_at w.table.slots s ≡ some p
      → IsStocked p
      → (handler_process rand now old_lines s msg w).1 ≡ false
      → (code : ℤ) × (message : Text) × ((handler_process rand now old_lines s msg w).0
          ≡ send_error s code message w)
  unfolding handler_process
  handler_process_refused msg e v =
      rw (e, handler_process) (dispatch-OnlyError e v msg.type msg.args)
