-- ===== src/Examples/Loop.antt =====
-- A game in which one player tries to step up after each tick.
use asciigame.Base.{ℕ, suc, ◌*◌, ◌≡◌, some, ℤ, pos, ◌+ℤ◌, ◌≤ℤ◌, arith, +ℤ_parts}
use asciigame.Config.{tick_interval_ms}
use asciigame.Room.{Arena}
use asciigame.Game.Move.{game_handle_move}
use asciigame.Game.Loop.{TickTimes, game_thread_func}
use asciigame.Game.Loop.Termination.{IsOver, game_thread_func_ends}
use asciigame.Game.Loop.Commands.{game_handle_move-began}
use asciigame.Examples.{fight}

abbrev now_at : ℕ → ℤ
now_at k = pos (60 * k)

abbrev every_60 : ℕ → TickTimes
every_60 k = record {
  at_buffs = now_at k;
  at_poison = now_at k;
  at_damage = now_at k;
  at_spawn = now_at k;
  at_snapshot = now_at k;
  at_check = now_at k;
  at_end = now_at k;
}

abbrev step_each : ℕ → Arena → Arena
step_each k a = (game_handle_move (now_at k) 0 b'U' a).0

abbrev sevens : ℕ → ℕ
sevens n = n * 7

sixty_on : (k : ℕ) → now_at k +ℤ pos tick_interval_ms ≤ℤ now_at (suc k)
sixty_on k = omega (arith, +ℤ_parts (now_at k) (pos tick_interval_ms))

game_thread_func_ends_example :
    (b : Arena) × (game_thread_func sevens every_60 step_each 6001 fight ≡ some b) × IsOver b
game_thread_func_ends_example =
    game_thread_func_ends sevens every_60 step_each sixty_on
      (λ k a. game_handle_move-began (now_at k) 0 b'U' a) fight (omega arith)
