-- ===== src/Recovery/Events.antt =====
-- The events of a running game, the text that the server writes for each, and what each means for
-- the state that is rebuilt.
pub mod Written
pub mod Reading
pub mod Replayed
pub mod Logged
use asciigame.Base.{ℕ, List, [], ◌∷◌, ◌++◌, ℤ, pos, negsuc, true, false}
use asciigame.Text.{Text, codes}
use asciigame.Wal.{
  WalActionType, wal_move, wal_pickup, wal_use_item, wal_damage, wal_player_death, wal_item_spawn,
  wal_poison_shrink,
}
use asciigame.Room.{entry, commas}
use asciigame.Player.{player_dead}
use asciigame.Recovery.{RecoveryState}
use asciigame.Recovery.Meaning.{with_player, on_map, off_map, carrying, without, empowered}

-- server/game.c writes these seven kinds of record; a hit that a shield takes has a text of its own.
pub data GameEvent : Type 0 where
  moves : ℤ → ℕ → ℤ → ℤ → ℤ → ℤ → GameEvent
  is_damaged : ℤ → ℤ → ℤ → ℤ → GameEvent
  loses_shield : ℤ → ℤ → ℤ → GameEvent
  dies : ℤ → ℤ → GameEvent
  shrinks : ℤ → GameEvent
  spawns : ℤ → ℤ → ℤ → GameEvent
  picks_up : ℤ → ℤ → ℤ → ℤ → GameEvent
  uses : ℤ → ℤ → ℤ → GameEvent

abbrev pub action_of : GameEvent → WalActionType
action_of (moves pid direction ox oy nx ny) = wal_move
action_of (is_damaged atk vic dmg hp) = wal_damage
action_of (loses_shield atk vic hp) = wal_damage
action_of (dies pid killer) = wal_player_death
action_of (shrinks radius) = wal_poison_shrink
action_of (spawns type x y) = wal_item_spawn
action_of (picks_up pid item x y) = wal_pickup
action_of (uses pid item idx) = wal_use_item

-- The formats of the calls of snprintf.
abbrev pub entries : GameEvent → List Text
entries (moves pid direction ox oy nx ny) =
    entry (codes "pid") pid
    ∷ (codes "dir=" ++ direction ∷ [])
    ∷ entry (codes "ox") ox
    ∷ entry (codes "oy") oy
    ∷ entry (codes "nx") nx
    ∷ entry (codes "ny") ny
    ∷ []
entries (is_damaged atk vic dmg hp) =
    entry (codes "atk") atk
    ∷ entry (codes "vic") vic
    ∷ entry (codes "dmg") dmg
    ∷ entry (codes "hp") hp
    ∷ []
entries (loses_shield atk vic hp) =
    entry (codes "atk") atk
    ∷ entry (codes "vic") vic
    ∷ codes "dmg=0"
    ∷ entry (codes "hp") hp
    ∷ codes "shield_broken=1"
    ∷ []
entries (dies pid killer) = entry (codes "pid") pid ∷ entry (codes "killer") killer ∷ []
entries (shrinks radius) = entry (codes "radius") radius ∷ []
entries (spawns type x y) =
    entry (codes "type") type ∷ entry (codes "x") x ∷ entry (codes "y") y ∷ []
entries (picks_up pid item x y) =
    entry (codes "pid") pid
    ∷ entry (codes "item") item
    ∷ entry (codes "x") x
    ∷ entry (codes "y") y
    ∷ []
entries (uses pid item idx) =
    entry (codes "pid") pid ∷ entry (codes "item") item ∷ entry (codes "idx") idx ∷ []

abbrev pub text_of : GameEvent → Text
text_of e = commas (entries e)

-- What the event does to the rebuilt state, whatever its text and whoever reads it.
abbrev pub effect : GameEvent → RecoveryState → RecoveryState
effect (moves pid direction ox oy nx ny) = with_player pid λ p. record p { x = nx; y = ny }
effect (is_damaged atk vic dmg hp) = with_player vic λ p. record p { hp = hp }
effect (loses_shield atk vic hp) = with_player vic λ p. record p { hp = hp; has_shield = pos 0 }
effect (dies pid killer) = with_player pid λ p. record p { hp = pos 0; status = player_dead }
effect (shrinks radius) = λ state. record state { poison_radius = radius }
effect (spawns type x y) = λ state. record state { items = on_map type x y state.items }
effect (picks_up pid item x y) =
    λ state. with_player pid (carrying item) (record state { items = off_map x y state.items })
effect (uses pid item idx) = with_player pid λ p. empowered item (without idx p)
