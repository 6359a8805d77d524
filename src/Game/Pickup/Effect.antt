-- ===== src/Game/Pickup/Effect.antt =====
-- What picking up and spawning items change.
use asciigame.Base.{ℕ, ◌≡◌, refl, ◌⊎◌, inl, inr, ℤ, leb, Bool-cases, Option-cases}
use asciigame.Config.{max_inventory}
use asciigame.Player.{player_at, update_player, player_add_item, ItemType}
use asciigame.Room.{Arena, room_broadcast}
use asciigame.Game.Pickup.{game_check_item_pickup, item_at, item_type_of}

-- Picking up leaves the table as it is, or adds one item of the map to the one player.
pub pickup_players :
    (now : ℤ) (s : ℕ) (a : Arena)
    → ((game_check_item_pickup now s a).players ≡ a.players)
      ⊎ ((t : ItemType) × ((game_check_item_pickup now s a).players
            ≡ update_player s (λ q. (player_add_item q t).0) a.players))
unfolding game_check_item_pickup room_broadcast
pickup_players now s a = elim (Option-cases (player_at a.players s)) [
  | inl e ↦ inl (rw (e, game_check_item_pickup) refl)
  | inr (p, e) ↦ elim (Bool-cases (leb max_inventory p.inventory_count)) [
    | inl full ↦ inl (rw (e, game_check_item_pickup) (rw full refl))
    | inr room ↦ elim (Option-cases (item_at p.x p.y a.room.item_count a.room.items)) [
      | inl n ↦ inl (rw (e, game_check_item_pickup) (rw room (rw (n, game_check_item_pickup) refl)))
      | inr ((k, i), f) ↦ inr (
        item_type_of i.type,
        rw (e, game_check_item_pickup) (rw room (rw (f, game_check_item_pickup) refl)),
      )
    ]
  ]
]
