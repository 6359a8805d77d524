-- ===== src/Game/Pickup.antt =====
-- `game_check_item_pickup` and `game_spawn_items`: the items on the map.
pub mod Effect
pub mod Found
use asciigame.Base.{
  ℕ, zero, suc, ◌+◌, ◌≡◌, Bool, true, false, not, ◌&&◌, List, [], ◌∷◌, Option, none, some, ℤ, pos,
  ◌-ℤ◌, leb, ltb_ℤ, ◌==ℤ◌, if◌then◌else◌, set, later,
}
use asciigame.Config.{max_inventory, max_map_items, item_spawn_interval}
use asciigame.Text.{Text, codes, snprintf}
use asciigame.GameMap.{
  MapItem, MapItemType, map_item_none, map_item_health, map_item_attack, map_item_shield,
  map_random_item_position,
}
use asciigame.Player.{
  Player, ItemType, item_none, item_health, item_attack, item_shield, player_at, update_player,
  player_add_item,
}
use asciigame.Wal.{wal_pickup, wal_item_spawn}
use asciigame.Room.{Room, Arena, log_action, entry, commas}
use asciigame.Room.Start.{item_number, map_item_number, random_item}
use asciigame.Game.Event.{game_broadcast_event, bars}

-- `(ItemType)item->type`
abbrev pub item_type_of : MapItemType → ItemType
item_type_of map_item_none = item_none
item_type_of map_item_health = item_health
item_type_of map_item_attack = item_attack
item_type_of map_item_shield = item_shield

abbrev pub lies_at : ℤ → ℤ → MapItem → Bool
lies_at px py i = i.active && (i.x ==ℤ px && i.y ==ℤ py)

-- Of the first `n` items, the first one at the position: its index and the item.
unfoldable pub item_at : ℤ → ℤ → ℕ → List MapItem → Option (ℕ × MapItem)
item_at px py zero items = none
item_at px py (suc n) [] = none
item_at px py (suc n) (i ∷ items) =
    let rest = elim (item_at px py n items) as (λ _. Option (ℕ × MapItem)) [
      | none ↦ none
      | some (k, j) ↦ some (suc k, j)
    ] in
    if lies_at px py i then some (0, i) else rest

unfoldable pub game_check_item_pickup : ℤ → ℕ → Arena → Arena
unfolding item_at
game_check_item_pickup now s a = elim (player_at a.players s) [
  | none ↦ a
  | some p ↦
      if leb max_inventory p.inventory_count
      then a
      else elim (item_at p.x p.y a.room.item_count a.room.items) [
        | none ↦ a
        | some (k, item) ↦
            let type = item_type_of item.type in
            let room : Room = record (a.room) {
              items = set a.room.items k (record item { active = false });
            } in
            let wal_data = snprintf 128 (
              commas (
                entry (codes "pid") p.id
                ∷ entry (codes "item") (item_number type)
                ∷ entry (codes "x") p.x
                ∷ entry (codes "y") p.y
                ∷ [])) in
            let logged = log_action now wal_pickup wal_data (record a { room = room }) in
            let taken : Arena = record logged {
              players = update_player s (λ q. (player_add_item q type).0) logged.players;
            } in
            game_broadcast_event (codes "PICKUP")
              (snprintf 64 (bars (p.id ∷ item_number type ∷ []))) taken
      ]
]

-- The first slot of the array without an active item.
unfoldable pub free_item : List MapItem → Option ℕ
free_item [] = none
free_item (i ∷ items) = let rest = later (free_item items) in if i.active then rest else some 0

unfoldable pub game_spawn_items : (ℕ → ℕ) → ℤ → Arena → Arena
unfolding free_item
game_spawn_items rand now a =
    if ltb_ℤ (now -ℤ a.room.last_item_spawn) item_spawn_interval
    then a
    else elim (free_item a.room.items) [
      | none ↦ record a { room = record (a.room) { last_item_spawn = now } }
      | some slot ↦
          let place = map_random_item_position rand a.room.grid a.drawn in
          let type = random_item (rand place.drawn) in
          let room : Room = record (a.room) {
            last_item_spawn = now;
            items =
                set a.room.items slot
                  (record { x = pos place.px; y = pos place.py; type = type; active = true });
            item_count = if leb a.room.item_count slot then slot + 1 else a.room.item_count;
          } in
          let wal_data = snprintf 128 (
            commas (
              entry (codes "type") (map_item_number type)
              ∷ entry (codes "x") (pos place.px)
              ∷ entry (codes "y") (pos place.py)
              ∷ [])) in
          log_action now wal_item_spawn wal_data (record a { room = room; drawn = place.drawn + 1 })
    ]
