-- ===== src/Game/Logging.antt =====
-- What the handlers of a game write to the log of the room, and what a replay of it gives.
pub mod Moving
use asciigame.Base.{
  ℕ, zero, suc, ◌+◌, ◌<◌, ◌≤◌, ◌≡◌, ◌⊎◌, refl, sym, ap, ◌∙◌, true, false, List, [], ◌∷◌, ◌++◌,
  Option, none, some, ℤ, pos, ◌+ℤ◌, ◌-ℤ◌, inl, inr, Option-cases, Bool-cases, leb, length, arith,
  get_elem?, take, set, ltb_ℤ, ◌<ℤ◌, ◌≤ℤ◌,
}
use asciigame.Config.{max_inventory, poison_start_time, poison_shrink_interval}
use asciigame.Text.{Text, snprintf}
use asciigame.Player.{
  Player, player_at, player_use_item, is_none, update_player, ItemType, item_none, item_health,
  item_attack, item_shield,
}
use asciigame.Player.Inventory.{items, IsStocked, player_use_item_lem, player_use_item_none}
use asciigame.Wal.{
  WalManager, WalActionType, wal_write, wal_use_item, wal_poison_shrink, wal_move, wal_pickup,
}
use asciigame.Room.{Room, Arena, room_broadcast, write_wal}
use asciigame.Room.Start.{item_number, map_item_number}
use asciigame.GameMap.{MapItem, MapItemType}
use asciigame.Game.Pickup.{game_check_item_pickup, item_at, item_type_of}
use asciigame.Game.Pickup.Found.{
  NothingAt, FoundAt, item_at-none, item_at-some, item_number-item_type_of,
}
use asciigame.Game.UseItem.{game_handle_use_item}
use asciigame.Game.UseItem.Effect.{used_real}
use asciigame.Game.Poison.{game_update_poison}
use asciigame.Recovery.Meaning.{stamped}
use asciigame.Recovery.{RecoveryState}
use asciigame.Recovery.Replay.{noted}
use asciigame.Recovery.Events.{
  GameEvent, uses, shrinks, moves, picks_up, action_of, text_of, effect,
}
use asciigame.Recovery.Events.Written.{IsInt, IsWritten, buffer_size}
use asciigame.Recovery.Events.Replayed.{record_of, IsStamped}
use asciigame.Recovery.Events.Logged.{next_of, ReplaysTo, wal_write-replays}

pub write_wal-wal :
    (now : ℤ) (type : WalActionType) (text : Text) (room : Room) (w : WalManager)
    → room.wal ≡ some w
    → (write_wal now type text room).wal ≡ some (wal_write now type text w).0
unfolding write_wal
write_wal-wal now type text room w e =
    ap
      (λ (o : Option WalManager). elim o as (λ _. Option WalManager) [
        | none ↦ none
        | some v ↦ some (wal_write now type text v).0
      ])
      e

-- The log `o` replays to what the log `w` replayed to, and then the event.
abbrev pub Replayed :
    ℤ → RecoveryState → ℤ → WalManager → ℕ → RecoveryState → GameEvent → Option WalManager → Type 0
Replayed clock start now w k state e o =
    (w' : WalManager) × (o ≡ some w')
    × ReplaysTo clock start w' (suc k) (effect e (stamped w.room_id now k state))

item_number-IsInt : (t : ItemType) → IsInt (item_number t)
item_number-IsInt item_none = (omega arith, omega arith)
item_number-IsInt _ = (omega arith, omega arith)

-- There was room in the inventory for the first item of the map that lies at the position; it is
-- no longer there, and what is said of it holds.
abbrev pub Took : ℤ → ℤ → ℕ → ℕ → List MapItem → List MapItem → (MapItem → Type 0) → Type 0
Took x y held n items left Said =
    (item : MapItem) × (j : ℕ) × (held < max_inventory)
    × FoundAt x y n items j item
    × (left ≡ set items j (record item { active = false }))
    × Said item

module _ (clock : ℤ) (start : RecoveryState) (now : ℤ) (a : Arena) (w : WalManager) (k : ℕ)
    (state : RecoveryState) where
  pub logged-Replayed :
      (e : GameEvent) (o : Option WalManager)
      → IsInt w.room_id
      → IsStamped (next_of now w e)
      → ReplaysTo clock start w k state
      → o ≡ some (wal_write now (action_of e) (snprintf (buffer_size e) (text_of e)) w).0
      → Replayed clock start now w k state e o
  logged-Replayed e o i h r g = (_, g, wal_write-replays clock start now e w k state i h r)

  -- Let the log of the room replay to a state, and let the player of slot `s` use the item at an index
  -- inside the inventory. Then the log afterwards replays to one record more and to what the use of
  -- just that item, under the number of its type, does to the state. The numbers written are of type
  -- int, times and sequence numbers of type long.
  pub game_handle_use_item-Replayed :
      (s index : ℕ) (p : Player)
      → player_at a.players s ≡ some p
      → IsStocked p
      → index < p.inventory_count
      → a.room.wal ≡ some w
      → IsInt w.room_id
      → ((t : ItemType) → IsStamped (next_of now w (uses p.id (item_number t) (pos index))))
      → ReplaysTo clock start w k state
      → (t : ItemType) × (get_elem? (items p) index ≡ some t)
        × Replayed clock start now w k state
            (uses p.id (item_number t) (pos index))
            (game_handle_use_item now s (pos index) a).0.room.wal
  unfolding game_handle_use_item
  game_handle_use_item-Replayed s index p e v h g i st r =
      let t = (player_use_item p (pos index)).1 in
      let real = used_real p index v h in
      (
        t,
        (player_use_item_lem p index v h).0,
        logged-Replayed (uses p.id (item_number t) (pos index)) _ i (st t) r
            (rw (e, game_handle_use_item) (rw real (write_wal-wal now wal_use_item _ a.room w g))),
      )

  -- Let the log of the room replay to a state, and let both times for the safe zone to shrink be over
  -- and its radius be above 1. Then the log afterwards replays to one record more and to the state
  -- with the new radius of the room. The numbers written are of type int, times and sequence numbers of
  -- type long.
  pub game_update_poison-Replayed :
      poison_start_time ≤ℤ now -ℤ a.room.game_start_time
      → poison_shrink_interval ≤ℤ now -ℤ a.room.last_poison_shrink
      → pos 1 <ℤ a.room.poison_radius
      → a.room.wal ≡ some w
      → IsInt w.room_id
      → IsStamped (next_of now w (shrinks (a.room.poison_radius -ℤ pos 1)))
      → ReplaysTo clock start w k state
      → Replayed clock start now w k state
          (shrinks (a.room.poison_radius -ℤ pos 1))
          (game_update_poison now a).room.wal
        × ((game_update_poison now a).room.poison_radius ≡ a.room.poison_radius -ℤ pos 1)
  unfolding game_update_poison room_broadcast write_wal
  game_update_poison-Replayed e f h g i st r =
      let e' : ltb_ℤ (now -ℤ a.room.game_start_time) poison_start_time ≡ false = ground arith in
      let f' : ltb_ℤ (now -ℤ a.room.last_poison_shrink) poison_shrink_interval ≡ false =
        ground arith in
      let h' : ltb_ℤ (pos 1) a.room.poison_radius ≡ true = ground arith in
      (
        logged-Replayed (shrinks (a.room.poison_radius -ℤ pos 1)) _ i st r (
            rw (e', f', h', game_update_poison) (write_wal-wal now wal_poison_shrink _ a.room w g)),
        rw (e', f', h', game_update_poison) refl,
      )

  -- A player whose inventory is full, or where nothing lies, takes nothing, and nothing changes. Any other
  -- takes the first item that lies there, whose type the event has.
  pub game_check_item_pickup-Replayed :
      (s : ℕ) (p : Player)
      → player_at a.players s ≡ some p
      → a.room.wal ≡ some w
      → IsInt w.room_id
      → ((t : MapItemType) → IsStamped (next_of now w (picks_up p.id (map_item_number t) p.x p.y)))
      → ReplaysTo clock start w k state
      → ((game_check_item_pickup now s a ≡ a)
          × ((max_inventory ≤ p.inventory_count)
              ⊎ NothingAt p.x p.y (take a.room.item_count a.room.items)))
        ⊎ Took p.x p.y p.inventory_count a.room.item_count a.room.items
            (game_check_item_pickup now s a).room.items
            λ item.
              Replayed clock start now w k state
                (picks_up p.id (map_item_number item.type) p.x p.y)
                (game_check_item_pickup now s a).room.wal
  unfolding game_check_item_pickup room_broadcast write_wal
  game_check_item_pickup-Replayed s p e g i st r =
      elim (Bool-cases (leb max_inventory p.inventory_count)) [
        | inl f ↦ inl (rw (e, f, game_check_item_pickup) refl, inl (ground arith))
        | inr f ↦ elim (Option-cases (item_at p.x p.y a.room.item_count a.room.items)) [
          | inl n ↦ inl (
            rw (e, f, n, game_check_item_pickup) refl,
            inr (item_at-none p.x p.y a.room.item_count a.room.items n),
          )
          | inr ((j, item), n) ↦
              let found = item_at-some p.x p.y a.room.item_count a.room.items j item n in
              let same = item_number-item_type_of item.type in
              inr (
                item,
                j,
                ground arith,
                found,
                rw (e, f, n, game_check_item_pickup) refl,
                rw (← same) (
                    logged-Replayed (picks_up p.id (item_number (item_type_of item.type)) p.x p.y) _
                      i (rw same (st item.type)) r
                      (rw (e, f, n, game_check_item_pickup)
                        (write_wal-wal now wal_pickup _ a.room w g))),
              )
        ]
      ]
