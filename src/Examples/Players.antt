-- ===== src/Examples/Players.antt =====
-- The table of players and the inventory.
use asciigame.Base.{
  ◌≡◌, refl, ◌↔◌, arith, ℤ, pos, ◌++◌, ◌<◌, [], ◌∷◌, none, some, true, false, get_elem?,
}
use asciigame.Config.{max_inventory}
use asciigame.Player.{
  Player, PlayerTable, item_shield, is_none, player_add_item, player_use_item, player_init,
  player_create, player_destroy, player_find_by_id, new_player,
}
use asciigame.Player.Inventory.{
  items, IsStocked, remove_at, player_add_item_lem, player_use_item_lem,
}
use asciigame.Player.Table.{
  At, IsTable, player_create-IsTable, player_create_lem, player_destroy_lem, player_init-IsTable,
}
use asciigame.Examples.{fighter}

abbrev ann : Player
ann = fighter (pos 1) (pos 5)

pub fighter-IsStocked : (id y : ℤ) → IsStocked (fighter id y)
fighter-IsStocked id y = record { places = refl; fits = omega arith; real = (refl, tt) }

player_add_item_lem_example :
    let (q, done) = player_add_item ann item_shield in
    ((done ≡ true) ↔ ((is_none item_shield ≡ false) × (ann.inventory_count < max_inventory)))
    × ((done ≡ true) → items q ≡ items ann ++ (item_shield ∷ []))
    × ((done ≡ false) → q ≡ ann)
    × IsStocked q
player_add_item_lem_example =
    player_add_item_lem ann item_shield (fighter-IsStocked (pos 1) (pos 5))

player_use_item_lem_example :
    let (q, t) = player_use_item ann (pos 0) in
    (get_elem? (items ann) 0 ≡ some t) × (items q ≡ remove_at 0 (items ann)) × IsStocked q
player_use_item_lem_example =
    player_use_item_lem ann 0 (fighter-IsStocked (pos 1) (pos 5)) (omega arith)

player_create-IsTable_example : IsTable (player_create player_init (pos 9)).0
player_create-IsTable_example = player_create-IsTable player_init (pos 9) player_init-IsTable

first_slot : (player_create player_init (pos 9)).1 ≡ some 0
unfolding player_create player_init
first_slot = refl

abbrev lobby : PlayerTable
lobby = (player_create player_init (pos 9)).0

in_lobby : At lobby.slots 0 (new_player (pos 9) player_init.next_player_id)
in_lobby = (player_create_lem player_init (pos 9) 0 player_init-IsTable first_slot).1

lobby-IsTable : IsTable lobby
lobby-IsTable = player_create-IsTable player_init (pos 9) player_init-IsTable

player_destroy_lem_example :
    IsTable (player_destroy lobby 0)
    × (player_find_by_id
          (player_destroy lobby 0).slots
          (new_player (pos 9) player_init.next_player_id).id
        ≡ none)
player_destroy_lem_example =
    player_destroy_lem lobby 0 (new_player (pos 9) player_init.next_player_id) lobby-IsTable
      in_lobby
