-- ===== src/Game/Event.antt =====
-- The events that the functions of server/game.c tell the players of a room, and
-- `game_calc_damage`.
use asciigame.Base.{
  ◌≡◌, List, [], ◌∷◌, ◌++◌, ℤ, pos, ◌-ℤ◌, ltb_ℤ, if◌then◌else◌, arith, ◌≤ℤ◌, -ℤ_parts, one_part,
  ◌<ℤ◌,
}
use asciigame.Config.{max_msg_len}
use asciigame.Text.{Text}
use asciigame.Text.Decimal.{print_int}
use asciigame.Protocol.{protocol_build_game_event}
use asciigame.Room.{Arena, room_broadcast}

abbrev pub game_broadcast_event : Text → Text → Arena → Arena
game_broadcast_event event_type event_data =
    room_broadcast (protocol_build_game_event max_msg_len event_type event_data)

-- "%d|%d|..."
abbrev pub bars : List ℤ → Text
bars [] = []
bars (n ∷ []) = print_int n
bars (n ∷ (m ∷ ns)) = print_int n ++ b'|' ∷ bars (m ∷ ns)

unfoldable pub game_calc_damage : ℤ → ℤ → ℤ
game_calc_damage atk def = let damage = atk -ℤ def in if ltb_ℤ (pos 0) damage then damage else pos 1

-- Damage is at least 1, and is the attack less the defence wherever that is positive.
pub game_calc_damage_lem :
    (atk def : ℤ)
    → (pos 1 ≤ℤ game_calc_damage atk def)
      × (def <ℤ atk → game_calc_damage atk def ≡ atk -ℤ def)
      × (atk ≤ℤ def → game_calc_damage atk def ≡ pos 1)
unfolding game_calc_damage
game_calc_damage_lem atk def = (
  ground arith,
  λ h. ground (arith, -ℤ_parts atk def, one_part (atk -ℤ def)),
  λ h. ground (arith, -ℤ_parts atk def, one_part (atk -ℤ def)),
)
