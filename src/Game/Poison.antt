-- ===== src/Game/Poison.antt =====
-- `game_update_poison` and `game_apply_poison_damage`.
pub mod Radius
pub mod Damage
use asciigame.Base.{
  ℕ, ◌*◌, ◌/◌, ◌≡◌, Bool, true, false, ◌&&◌, List, [], ◌∷◌, Option, none, some, ℤ, pos, negsuc,
  ◌-ℤ◌, ltb, ltb_ℤ, leb_ℤ, if◌then◌else◌,
}
use asciigame.Config.{poison_start_time, poison_shrink_interval, poison_damage, tick_interval_ms}
use asciigame.Text.{codes, snprintf}
use asciigame.GameMap.{map_is_in_poison}
use asciigame.Player.{Player, player_dead, player_at, player_find_by_id, update_player}
use asciigame.Wal.{wal_poison_shrink, wal_player_death}
use asciigame.Room.{Room, Arena, log_action, entry, commas, is_alive}
use asciigame.Game.Event.{game_broadcast_event}

unfoldable pub game_update_poison : ℤ → Arena → Arena
game_update_poison now a =
    if ltb_ℤ (now -ℤ a.room.game_start_time) poison_start_time
    then a
    else if ltb_ℤ (now -ℤ a.room.last_poison_shrink) poison_shrink_interval
    then a
    else if ltb_ℤ (pos 1) a.room.poison_radius
    then (let radius = a.room.poison_radius -ℤ pos 1 in
        let room : Room = record (a.room) { poison_radius = radius; last_poison_shrink = now } in
        game_broadcast_event (codes "POISON") [] (
          log_action now wal_poison_shrink (snprintf 64 (entry (codes "radius") radius))
            (record a { room = room })))
    else a

-- `POISON_DAMAGE * TICK_INTERVAL_MS / 1000`, but 1 at least.
unfoldable pub damage_per_tick : ℕ
damage_per_tick =
    let damage = poison_damage * tick_interval_ms / 1000 in if ltb damage 1 then 1 else damage

-- One player under the poison.
unfoldable pub poison_player : Player → Player
poison_player p =
    let hp = p.hp -ℤ pos damage_per_tick in
    if leb_ℤ hp (pos 0) then record p { hp = pos 0; status = player_dead } else record p { hp = hp }

abbrev pub is_poisoned : ℤ → Player → Bool
is_poisoned radius p = is_alive p && map_is_in_poison p.x p.y radius

unfoldable pub poison_seat : ℤ → ℤ → ℤ → Arena → Arena
poison_seat now radius id a = elim (player_find_by_id a.players id) [
  | none ↦ a
  | some s ↦ elim (player_at a.players s) [
    | none ↦ a
    | some p ↦
        if is_poisoned radius p
        then (let hurt : Arena = record a { players = update_player s poison_player a.players } in
            if leb_ℤ (p.hp -ℤ pos damage_per_tick) (pos 0)
            then log_action now wal_player_death
                (snprintf 64
                  (commas (entry (codes "pid") p.id ∷ entry (codes "killer") (negsuc 0) ∷ [])))
                hurt
            else hurt)
        else a
  ]
]

unfoldable pub poison_seats : ℤ → ℤ → List ℤ → Arena → Arena
unfolding poison_seat
poison_seats now radius [] a = a
poison_seats now radius (id ∷ ids) a =
    poison_seats now radius ids (if ltb_ℤ id (pos 0) then a else poison_seat now radius id a)

unfoldable pub game_apply_poison_damage : ℤ → Arena → Arena
unfolding poison_seats
game_apply_poison_damage now a = poison_seats now a.room.poison_radius a.room.player_ids a
