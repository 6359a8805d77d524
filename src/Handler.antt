-- ===== src/Handler.antt =====
-- server/handler.c: the commands of a connected player. A handler gets the slot of the player, and
-- returns the new world with `true` for 0 and `false` for -1.
pub mod Lobby
pub mod Play
pub mod Process
pub mod Rejoin
pub mod Refused
use asciigame.Base.{ℕ, ℤ, Bool, true, false}
use asciigame.Config.{max_msg_len}
use asciigame.Text.{Text}
use asciigame.Player.{PlayerStatus, player_disconnected, player_connected, player_lobby}
use asciigame.Protocol.{protocol_build_err, protocol_build_ok}
use asciigame.World.{World, send}

unfoldable pub send_error : ℕ → ℤ → Text → World → World
send_error s code message w = send s (protocol_build_err max_msg_len code message) w

unfoldable pub send_ok : ℕ → Text → World → World
send_ok s message w = send s (protocol_build_ok max_msg_len message) w

-- `send_error(...); return -1;`
abbrev pub refuse : ℕ → ℤ → Text → World → World × Bool
refuse s code message w = (send_error s code message w, false)

-- `status < PLAYER_LOBBY`
abbrev pub before_lobby : PlayerStatus → Bool
before_lobby player_disconnected = true
before_lobby player_connected = true
before_lobby _ = false

-- `status < PLAYER_IN_ROOM`
abbrev pub before_room : PlayerStatus → Bool
before_room player_disconnected = true
before_room player_connected = true
before_room player_lobby = true
before_room _ = false
