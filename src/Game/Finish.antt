-- ===== src/Game/Finish.antt =====
-- `game_check_end`: the time limit, the wait of a recovered room, and the last player alive.
pub mod Verdict
use asciigame.Base.{
  ℕ, zero, suc, ◌≡◌, Bool, true, false, ◌&&◌, List, [], ◌∷◌, Option, none, some, ℤ, pos, negsuc,
  ◌-ℤ◌, ltb_ℤ, leb_ℤ, ◌==◌, if◌then◌else◌,
}
use asciigame.Config.{game_max_duration, recovery_wait_time}
use asciigame.Player.{Player, player_at, player_find_by_id}
use asciigame.Room.{Room, Arena, is_alive, taken_ids}

-- One place: the count of the living and the identifier of the last one found.
tally_seat : ℤ → List (Option Player) → ℕ × ℤ → ℕ × ℤ
tally_seat id ps (alive_count, last_alive_id) =
    if ltb_ℤ id (pos 0) then (alive_count, last_alive_id) else elim (player_find_by_id ps id) [
      | none ↦ (alive_count, last_alive_id)
      | some s ↦ elim (player_at ps s) [
        | none ↦ (alive_count, last_alive_id)
        | some p ↦ if is_alive p then (suc alive_count, p.id) else (alive_count, last_alive_id)
      ]
    ]

unfoldable pub tally : List ℤ → List (Option Player) → ℕ × ℤ → ℕ × ℤ
unfolding tally_seat
tally [] ps st = st
tally (id ∷ ids) ps st = tally ids ps (tally_seat id ps st)

-- -1 for a draw and -2 for a game that goes on.
abbrev pub draw : ℤ
draw = negsuc 0

abbrev pub go_on : ℤ
go_on = negsuc 1

unfoldable pub judge : Arena → ℤ
unfolding tally
judge a =
    let (alive_count, last_alive_id) = tally a.room.player_ids a.players (0, negsuc 0) in
    if alive_count == 0 then draw else if alive_count == 1 then last_alive_id else go_on

abbrev pub end_wait : Arena → Arena
end_wait a = record a {
  room = record (a.room) { is_recovery_room = false; expected_players = pos 0 };
}

-- The wait of a recovered room, and then the count of the living.
check_wait : ℤ → Arena → Arena × ℤ
check_wait now a =
    if a.room.is_recovery_room && ltb_ℤ (pos 0) a.room.expected_players
    then if leb_ℤ a.room.expected_players a.room.player_count
      then (end_wait a, judge a)
      else if ltb_ℤ (now -ℤ a.room.recovery_start_time) recovery_wait_time
      then (a, go_on)
      else (end_wait a, judge a)
    else (a, judge a)

unfoldable pub game_check_end : ℤ → Arena → Arena × ℤ
unfolding judge check_wait
game_check_end now a =
    if leb_ℤ game_max_duration (now -ℤ a.room.game_start_time) then (a, draw) else check_wait now a
