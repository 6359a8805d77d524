-- ===== src/Game/Buffs.antt =====
-- `game_update_buffs`: the end of the attack buff, and the warning before it.
pub mod Expiry
use asciigame.Base.{
  ℕ, ◌/◌, Bool, true, false, not, ◌&&◌, List, [], ◌∷◌, Option, none, some, ℤ, pos, pos_part, ◌-ℤ◌,
  ltb_ℤ, leb_ℤ, if◌then◌else◌, ◌==◌,
}
use asciigame.Text.{Text, codes, snprintf}
use asciigame.Player.{Player, player_at, update_player}
use asciigame.Protocol.{protocol_build_game_event}
use asciigame.Room.{Arena}
use asciigame.Game.Event.{bars}

-- `if (len > 0 && msg[len - 1] == '\n') msg[len - 1] = '\0'`
unfoldable pub drop_newline : Text → Text
drop_newline [] = []
drop_newline (c ∷ []) = if c == 10 then [] else c ∷ []
drop_newline (c ∷ (d ∷ s)) = c ∷ drop_newline (d ∷ s)

-- `player_send` of an event built in a buffer of 128 bytes.
unfoldable pub send_buff_event : Player → Text → List ℤ → Arena → Arena
unfolding drop_newline
send_buff_event p event_type numbers a =
    let event_data = snprintf 64 (bars numbers) in
    record a {
      sent = (p.fd, drop_newline (protocol_build_game_event 128 event_type event_data)) ∷ a.sent;
    }

unfoldable pub expire_buff : Player → Player
expire_buff p = record p { atk = p.base_atk; atk_buff_expire = pos 0; atk_buff_warned = false }

unfoldable pub warn_buff : Player → Player
warn_buff p = record p { atk_buff_warned = true }

-- The remaining time is divided only where it is positive.
unfoldable pub game_update_buffs : ℤ → ℕ → Arena → Arena
unfolding expire_buff warn_buff
game_update_buffs now s a = elim (player_at a.players s) [
  | none ↦ a
  | some p ↦
      let remaining = p.atk_buff_expire -ℤ now in
      if not (ltb_ℤ (pos 0) p.atk_buff_expire)
      then a
      else if leb_ℤ remaining (pos 0)
      then send_buff_event p (codes "BUFF_EXPIRED") (p.id ∷ [])
          (record a { players = update_player s expire_buff a.players })
      else if leb_ℤ remaining (pos 5000) && not p.atk_buff_warned
      then send_buff_event p (codes "BUFF_WARNING") (p.id ∷ pos (pos_part remaining / 1000) ∷ [])
          (record a { players = update_player s warn_buff a.players })
      else a
]
