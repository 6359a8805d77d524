-- ===== src/Recovery/Meaning.antt =====
-- What a record means for a rebuilt state, without its text and apart from how server/recovery.c reads
-- it: a description to hold the replay against, which uses none of its functions.
pub mod Agrees
use asciigame.Base.{
  ℕ, zero, suc, ◌-◌, List, [], ◌∷◌, ◌++◌, ℤ, pos, negsuc, ◌+ℤ◌, Bool, true, false, ◌&&◌, ltb, leb_ℤ,
  ◌==ℤ◌, if◌then◌else◌, length, set,
}
use asciigame.Config.{max_inventory, max_map_items, health_restore, initial_atk, atk_buff_amount}
use asciigame.Player.{player_dead}
use asciigame.Recovery.{RecoveredPlayer, RecoveredItem, RecoveryState}

-- What every record sets: the room and the time; the first one also the start of the game.
abbrev pub stamped : ℤ → ℤ → ℕ → RecoveryState → RecoveryState
stamped room_id time zero state = record state {
  room_id = room_id;
  last_timestamp = time;
  game_start_time = time;
}
stamped room_id time (suc n) state = record state { room_id = room_id; last_timestamp = time }

-- The first player with the identifier changes, and nobody else.
abbrev pub on_first :
    ℤ → (RecoveredPlayer → RecoveredPlayer) → List RecoveredPlayer → List RecoveredPlayer
on_first pid f [] = []
on_first pid f (p ∷ ps) =
    let rest = on_first pid f ps in if p.id ==ℤ pid then f p ∷ ps else p ∷ rest

abbrev pub with_player : ℤ → (RecoveredPlayer → RecoveredPlayer) → RecoveryState → RecoveryState
with_player pid f state = record state { players = on_first pid f state.players }

-- The first active item at the position is no longer there.
abbrev pub off_map : ℤ → ℤ → List RecoveredItem → List RecoveredItem
off_map x y [] = []
off_map x y (i ∷ is) =
    let rest = off_map x y is in
    if i.active && (i.x ==ℤ x && i.y ==ℤ y) then record i { active = false } ∷ is else i ∷ rest

-- There is one item more, unless the map is full.
abbrev pub on_map : ℤ → ℤ → ℤ → List RecoveredItem → List RecoveredItem
on_map type x y items =
    if ltb (length items) max_map_items
    then items ++ (record { x = x; y = y; type = type; active = true } ∷ [])
    else items

-- The next free place of the inventory holds the item, unless all are taken.
abbrev pub carrying : ℤ → RecoveredPlayer → RecoveredPlayer
carrying item p =
    if ltb p.inventory_count max_inventory
    then record p {
      inventory = set p.inventory p.inventory_count item;
      inventory_count = suc p.inventory_count;
    }
    else p

abbrev pub first_or : ℤ → List ℤ → ℤ
first_or z [] = z
first_or z (x ∷ xs) = x

-- From place `i` on, each of `n` places holds what was at the place behind it, all at once.
abbrev pub closed_up : ℕ → ℕ → List ℤ → List ℤ
closed_up i n [] = []
closed_up (suc i) n (x ∷ xs) = x ∷ closed_up i n xs
closed_up zero zero (x ∷ xs) = x ∷ xs
closed_up zero (suc n) (x ∷ xs) = first_or (pos 0) xs ∷ closed_up zero n xs

-- The item at an index inside the inventory is gone, and the ones behind it close up.
abbrev pub without : ℤ → RecoveredPlayer → RecoveredPlayer
without (negsuc i) p = p
without (pos i) p =
    if ltb i p.inventory_count
    then record p {
      inventory = closed_up i (p.inventory_count - 1 - i) p.inventory;
      inventory_count = p.inventory_count - 1;
    }
    else p

-- A health pack, an attack potion and a shield are the types 1, 2 and 3; others do nothing.
abbrev pub empowered : ℤ → RecoveredPlayer → RecoveredPlayer
empowered type p =
    if type ==ℤ pos 1
    then record p {
      hp = if leb_ℤ (p.hp +ℤ health_restore) p.max_hp then p.hp +ℤ health_restore else p.max_hp;
    }
    else if type ==ℤ pos 2
    then record p { atk = initial_atk +ℤ atk_buff_amount }
    else if type ==ℤ pos 3
    then record p { has_shield = pos 1 }
    else p
