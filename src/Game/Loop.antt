-- ===== src/Game/Loop.antt =====
-- `game_thread_func`: the ticks of a game until it ends.
pub mod Ends
pub mod Termination
pub mod Commands
use asciigame.Base.{
  ℕ, zero, suc, Bool, true, false, not, List, [], ◌∷◌, Option, none, some, ℤ, negsuc, ltb_ℤ, pos,
  ◌==ℤ◌, ◌||◌, if◌then◌else◌,
}
use asciigame.Player.{player_find_by_id}
use asciigame.Room.{Arena, is_room_gaming}
use asciigame.Room.Ending.{room_end_game}
use asciigame.Game.Buffs.{game_update_buffs}
use asciigame.Game.Poison.{game_update_poison, game_apply_poison_damage}
use asciigame.Game.Pickup.{game_spawn_items}
use asciigame.Game.Finish.{game_check_end, go_on}
use asciigame.Game.Broadcast.{game_broadcast_state}
use asciigame.Snapshot.{snapshot_should_save, snapshot_save}

-- The buffs of the seated players.
unfoldable pub update_all_buffs : ℤ → List ℤ → Arena → Arena
unfolding game_update_buffs player_find_by_id
update_all_buffs now [] a = a
update_all_buffs now (id ∷ ids) a = update_all_buffs now ids (
    if ltb_ℤ id (pos 0)
    then a
    else elim (player_find_by_id a.players id) [ none ↦ a | some s ↦ game_update_buffs now s a ])

-- The times at which the calls of one tick read the clock.
pub record TickTimes : Type 0 where
  pub at_buffs : ℤ
  pub at_poison : ℤ
  pub at_damage : ℤ
  pub at_spawn : ℤ
  pub at_snapshot : ℤ
  pub at_check : ℤ
  pub at_end : ℤ

abbrev pub save_if_due : ℤ → Arena → Arena
save_if_due now a = if snapshot_should_save now a.room then (snapshot_save now a).0 else a

-- One tick up to the check of the end.
unfoldable pub before_check : (ℕ → ℕ) → TickTimes → Arena → Arena
unfolding update_all_buffs
before_check rand t a = save_if_due t.at_snapshot (
    game_spawn_items rand t.at_spawn (
      game_apply_poison_damage t.at_damage
        (game_update_poison t.at_poison (update_all_buffs t.at_buffs a.room.player_ids a))))

-- One round of the loop; `true` is `break`.
unfoldable pub game_tick : (ℕ → ℕ) → TickTimes → Arena → Arena × Bool
unfolding before_check
game_tick rand t a =
    if not a.room.game_thread_running || not (is_room_gaming a.room.status)
    then (a, true)
    else (let (b, winner) = game_check_end t.at_check (before_check rand t a) in
        if winner ==ℤ go_on
        then (game_broadcast_state t.at_end b, false)
        else (room_end_game t.at_end winner b, true))

-- The loop, with what the other threads do to the room while the thread sleeps after each tick;
-- `none` is a loop that is still running after `fuel` ticks.
unfoldable pub game_loop :
    (ℕ → ℕ) → (ℕ → TickTimes) → (ℕ → Arena → Arena) → ℕ → ℕ → Arena → Option Arena
unfolding game_tick
game_loop rand times others zero n a = none
game_loop rand times others (suc fuel) n a =
    let (b, ended) = game_tick rand (times n) a in
    elim ended [ true ↦ some b | false ↦ game_loop rand times others fuel (suc n) (others n b) ]

unfoldable pub game_thread_func :
    (ℕ → ℕ) → (ℕ → TickTimes) → (ℕ → Arena → Arena) → ℕ → Arena → Option Arena
unfolding game_loop
game_thread_func rand times others fuel a =
    game_loop rand times others fuel 0
      (record a { room = record (a.room) { game_thread_running = true } })
