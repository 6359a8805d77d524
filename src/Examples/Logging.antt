-- ===== src/Examples/Logging.antt =====
-- A fight whose log is written: a step up, the use of the potion, and the safe zone shrinking.
use asciigame.Base.{
  ℕ, ◌<◌, ◌≤◌, take, ◌∷◌, ◌≡◌, ◌⊎◌, refl, true, false, ltb_ℤ, ◌≤ℤ◌, [], some, ℤ, pos, ◌+ℤ◌, ◌-ℤ◌,
  arith, get_elem?,
}
use asciigame.Config.{max_inventory, move_cooldown_ms, poison_start_time, poison_shrink_interval}
use asciigame.GameMap.{
  MapItem, MapItemType, map_item_none, map_item_shield, map_is_walkable, map_generate,
}
use asciigame.Player.{update_player, Player, ItemType, item_none}
use asciigame.Player.Inventory.{items}
use asciigame.Wal.{WalManager}
use asciigame.Room.{Arena, write_wal, room_broadcast}
use asciigame.Room.Start.{item_number, map_item_number}
use asciigame.Recovery.Meaning.{stamped}
use asciigame.Recovery.{RecoveryState}
use asciigame.Recovery.Replay.{replay_lines}
use asciigame.Recovery.Events.{GameEvent, moves, uses, picks_up, shrinks, effect}
use asciigame.Recovery.Events.Written.{IsInt, IsWritten}
use asciigame.Recovery.Events.Replayed.{Stamped, IsStamped}
use asciigame.Recovery.Events.Logged.{ReplaysTo, next_of}
use asciigame.Game.Move.{game_handle_move, step_from}
use asciigame.Game.Pickup.{game_check_item_pickup}
use asciigame.Game.Pickup.Found.{NothingAt}
use asciigame.Game.UseItem.{game_handle_use_item}
use asciigame.Game.Poison.{game_update_poison}
use asciigame.Game.Logging.{
  Replayed, Took, game_handle_use_item-Replayed, game_update_poison-Replayed,
}
use asciigame.Game.Logging.Moving.{game_handle_move-Replayed}
use asciigame.Examples.{fighter, fight}
use asciigame.Examples.Players.{fighter-IsStocked}
use asciigame.Examples.Logs.{an-IsInt, one_player}

abbrev new_log : WalManager
new_log = record { room_id = pos 1; sequence = pos 1; lines = []; last_sync_time = pos 0 }

abbrev shield_above : MapItem
shield_above = record { x = pos 6; y = pos 4; type = map_item_shield; active = true }

abbrev logged_fight : Arena
logged_fight = record fight {
  room = record (fight.room) { wal = some new_log; items = shield_above ∷ []; item_count = 1 };
}

abbrev ann : Player
ann = fighter (pos 1) (pos 5)

abbrev stamp : ℕ → ℕ → GameEvent → Stamped
stamp time number e = record { timestamp = pos time; sequence = pos number; event = e }

stamp-IsStamped :
    (time number : ℕ) (e : GameEvent)
    → time < 100000
    → number < 100000
    → IsWritten e
    → IsStamped (stamp time number e)
stamp-IsStamped time number e h g v = record {
  time = (omega arith, omega arith);
  number = (omega arith, omega arith);
  written = v;
}

type-IsInt : (t : ItemType) → IsInt (item_number t)
type-IsInt item_none = an-IsInt 0 (omega arith)
type-IsInt _ = (omega arith, omega arith)

map_type-IsInt : (t : MapItemType) → IsInt (map_item_number t)
map_type-IsInt map_item_none = an-IsInt 0 (omega arith)
map_type-IsInt _ = (omega arith, omega arith)

nothing_yet : (clock : ℤ) → ReplaysTo clock one_player new_log 0 one_player
unfolding replay_lines
nothing_yet clock = refl

abbrev step_up : GameEvent
step_up = moves (pos 1) b'U' (pos 6) (pos 5) (pos 6) (pos 4)

open_above : map_is_walkable map_generate (pos 6) (pos 4) ≡ true
unfolding map_is_walkable map_generate
open_above = refl

rested : ltb_ℤ (pos 1000 -ℤ pos 0) move_cooldown_ms ≡ false
unfolding ◌-ℤ◌
rested = refl

goes_up : step_from (pos 6) (pos 5) b'U' ≡ some (pos 6, pos 4)
unfolding step_from ◌-ℤ◌
goes_up = refl

step_up-IsStamped : IsStamped (next_of (pos 1000) new_log step_up)
step_up-IsStamped = stamp-IsStamped 1000 1 step_up (omega arith) (omega arith) (
  (
    an-IsInt 1 (omega arith),
    an-IsInt 6 (omega arith),
    an-IsInt 5 (omega arith),
    an-IsInt 6 (omega arith),
    an-IsInt 4 (omega arith),
  ),
  refl,
  refl,
)

pickup-IsStamped :
    (t : MapItemType)
    → IsStamped (record {
      timestamp = pos 1000;
      sequence = pos 1 +ℤ pos 1;
      event = picks_up (pos 1) (map_item_number t) (pos 6) (pos 4);
    })
unfolding ◌+ℤ◌
pickup-IsStamped t =
    stamp-IsStamped 1000 2 (picks_up (pos 1) (map_item_number t) (pos 6) (pos 4)) (omega arith)
      (omega arith)
      (
        an-IsInt 1 (omega arith),
        map_type-IsInt t,
        an-IsInt 6 (omega arith),
        an-IsInt 4 (omega arith),
      )

use-IsStamped :
    (t : ItemType) → IsStamped (next_of (pos 1000) new_log (uses (pos 1) (item_number t) (pos 0)))
use-IsStamped t =
    stamp-IsStamped 1000 1 (uses (pos 1) (item_number t) (pos 0)) (omega arith) (omega arith)
      (an-IsInt 1 (omega arith), type-IsInt t, an-IsInt 0 (omega arith))

shrink-IsStamped : IsStamped (next_of (pos 70000) new_log (shrinks (pos 10 -ℤ pos 1)))
unfolding ◌-ℤ◌
shrink-IsStamped =
    stamp-IsStamped 70000 1 (shrinks (pos 9)) (omega arith) (omega arith) (an-IsInt 9 (omega arith))

start_over : poison_start_time ≤ℤ pos 70000 -ℤ pos 0
unfolding ◌-ℤ◌
start_over = omega arith

interval_over : poison_shrink_interval ≤ℤ pos 70000 -ℤ pos 0
unfolding ◌-ℤ◌
interval_over = omega arith

abbrev after_step : RecoveryState
after_step = effect step_up (stamped (pos 1) (pos 1000) 0 one_player)

game_handle_move-Replayed_example :
    let b = (game_handle_move (pos 1000) 0 b'U' logged_fight).0 in
    (w' : WalManager) × ReplaysTo (pos 0) one_player w' 1 after_step
    × (((b.room.wal ≡ some w')
          × (b.room.items ≡ shield_above ∷ [])
          × ((max_inventory ≤ ann.inventory_count)
              ⊎ NothingAt (pos 6) (pos 4) (take 1 (shield_above ∷ []))))
        ⊎ Took (pos 6) (pos 4) ann.inventory_count 1 (shield_above ∷ []) b.room.items λ item.
          Replayed
            (pos 0)
            one_player
            (pos 1000)
            w'
            1
            after_step
            (picks_up (pos 1) (map_item_number item.type) (pos 6) (pos 4))
            b.room.wal)
game_handle_move-Replayed_example =
    game_handle_move-Replayed (pos 0) one_player (pos 1000) logged_fight new_log 0 one_player 0 b'U'
      ann (pos 6) (pos 4) refl rested goes_up open_above refl (an-IsInt 1 (omega arith))
      step_up-IsStamped pickup-IsStamped (nothing_yet (pos 0))

shield_taken :
    (game_handle_move (pos 1000) 0 b'U' logged_fight).0.room.items
    ≡ record shield_above { active = false } ∷ []
unfolding game_handle_move map_is_walkable map_generate ◌+ℤ◌ ◌-ℤ◌ game_check_item_pickup
    update_player write_wal room_broadcast
shield_taken = refl

game_handle_use_item-Replayed_example :
    (t : ItemType) × (get_elem? (items ann) 0 ≡ some t)
    × Replayed
        (pos 0)
        one_player
        (pos 1000)
        new_log
        0
        one_player
        (uses (pos 1) (item_number t) (pos 0))
        (game_handle_use_item (pos 1000) 0 (pos 0) logged_fight).0.room.wal
game_handle_use_item-Replayed_example =
    game_handle_use_item-Replayed (pos 0) one_player (pos 1000) logged_fight new_log 0 one_player 0
      0 ann refl (fighter-IsStocked (pos 1) (pos 5)) (omega arith) refl (an-IsInt 1 (omega arith))
      use-IsStamped (nothing_yet (pos 0))

game_update_poison-Replayed_example :
    Replayed
      (pos 0)
      one_player
      (pos 70000)
      new_log
      0
      one_player
      (shrinks (pos 10 -ℤ pos 1))
      (game_update_poison (pos 70000) logged_fight).room.wal
    × ((game_update_poison (pos 70000) logged_fight).room.poison_radius ≡ pos 10 -ℤ pos 1)
game_update_poison-Replayed_example =
    game_update_poison-Replayed (pos 0) one_player (pos 70000) logged_fight new_log 0 one_player
      start_over interval_over (omega arith) refl (an-IsInt 1 (omega arith)) shrink-IsStamped
      (nothing_yet (pos 0))
