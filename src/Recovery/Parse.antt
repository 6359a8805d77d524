-- ===== src/Recovery/Parse.antt =====
-- The functions that take the data of one record over into the state.
use asciigame.Base.{
  ℕ, zero, suc, ◌-◌, List, [], ◌∷◌, ◌++◌, none, some, ℤ, pos, ◌+ℤ◌, Bool, true, false, ◌&&◌, ltb,
  ltb_ℤ, leb_ℤ, ◌==ℤ◌, if◌then◌else◌, length, get_or, set, pos_part,
}
use asciigame.Config.{max_inventory, max_map_items, health_restore, initial_atk, atk_buff_amount}
use asciigame.Text.{Text, codes}
use asciigame.Text.Scan.{Directive, byte, int, skip_int, skip_until, expect, sscanf, after_first}
use asciigame.Player.{player_dead}
use asciigame.Recovery.{RecoveredPlayer, RecoveredItem, RecoveryState, change_player}

-- "%*[^,],"
abbrev pub skip_field : List Directive → List Directive
skip_field ds = skip_until b',' ∷ byte b',' ∷ ds

-- "pid=%d,%*[^,],%*[^,],%*[^,],nx=%d,ny=%d"
abbrev pub move_format : List Directive
move_format = expect (codes "pid=") (
    int
    ∷ byte b','
    ∷ skip_field
        (skip_field (skip_field (expect (codes "nx=") (int ∷ expect (codes ",ny=") (int ∷ []))))))

abbrev pub stand_at : ℤ → ℤ → RecoveredPlayer → RecoveredPlayer
stand_at nx ny p = record p { x = nx; y = ny }

unfoldable pub parse_move : Text → RecoveryState → RecoveryState
unfolding sscanf
parse_move action_data state = elim (sscanf move_format action_data) [
  | pid ∷ nx ∷ ny ∷ _ ↦ change_player pid (stand_at nx ny) state
  | _ ↦ state
]

-- "%*[^,],vic=%d,%*[^,],hp=%d"
abbrev pub damage_format : List Directive
damage_format =
    skip_field
      (expect (codes "vic=") (int ∷ byte b',' ∷ skip_field (expect (codes "hp=") (int ∷ []))))

-- "atk=%*d,vic=%d,dmg=%*d,hp=%d"
abbrev pub damage_format_2 : List Directive
damage_format_2 = expect (codes "atk=") (
    skip_int
    ∷ expect (codes ",vic=")
        (int ∷ expect (codes ",dmg=") (skip_int ∷ expect (codes ",hp=") (int ∷ []))))

abbrev pub hurt_to : Bool → ℤ → RecoveredPlayer → RecoveredPlayer
hurt_to shield_broken hp p = record p {
  hp = hp;
  has_shield = if shield_broken then pos 0 else p.has_shield;
}

abbrev pub contains : Text → Text → Bool
contains p s = elim (after_first p s) [ none ↦ false | some _ ↦ true ]

unfoldable pub parse_damage : Text → RecoveryState → RecoveryState
unfolding sscanf after_first
parse_damage action_data state =
    let shield_broken = contains (codes "shield_broken=1") action_data in
    elim (sscanf damage_format action_data) [
      | vic ∷ hp ∷ _ ↦ change_player vic (hurt_to shield_broken hp) state
      | _ ↦ elim (sscanf damage_format_2 action_data) [
        | vic ∷ hp ∷ _ ↦ change_player vic (hurt_to shield_broken hp) state
        | _ ↦ state
      ]
    ]

abbrev pub dead : RecoveredPlayer → RecoveredPlayer
dead p = record p { hp = pos 0; status = player_dead }

unfoldable pub parse_player_death : Text → RecoveryState → RecoveryState
unfolding sscanf
parse_player_death action_data state =
    elim (sscanf (expect (codes "pid=") (int ∷ [])) action_data) [
      | pid ∷ _ ↦ change_player pid dead state
      | _ ↦ state
    ]

unfoldable pub parse_poison_shrink : Text → RecoveryState → RecoveryState
unfolding sscanf
parse_poison_shrink action_data state =
    elim (sscanf (expect (codes "radius=") (int ∷ [])) action_data) [
      | radius ∷ _ ↦ record state { poison_radius = radius }
      | _ ↦ state
    ]

-- "type=%d,x=%d,y=%d"
abbrev pub spawn_format : List Directive
spawn_format =
    expect (codes "type=") (int ∷ expect (codes ",x=") (int ∷ expect (codes ",y=") (int ∷ [])))

-- At MAX_MAP_ITEMS items a further one is dropped.
abbrev pub add_item : ℤ → ℤ → ℤ → RecoveryState → RecoveryState
add_item type x y state =
    let item : RecoveredItem = record { x = x; y = y; type = type; active = true } in
    if ltb (length state.items) max_map_items
    then record state { items = state.items ++ (item ∷ []) }
    else state

unfoldable pub parse_item_spawn : Text → RecoveryState → RecoveryState
unfolding sscanf
parse_item_spawn action_data state = elim (sscanf spawn_format action_data) [
  | type ∷ x ∷ y ∷ _ ↦ add_item type x y state
  | _ ↦ state
]

-- The first active item at the position is taken.
abbrev pub take_item : ℤ → ℤ → List RecoveredItem → List RecoveredItem
take_item x y [] = []
take_item x y (i ∷ is) =
    let rest = take_item x y is in
    if i.x ==ℤ x && i.y ==ℤ y && i.active then record i { active = false } ∷ is else i ∷ rest

abbrev pub stow : ℤ → RecoveredPlayer → RecoveredPlayer
stow item_type p =
    if ltb p.inventory_count max_inventory
    then record p {
      inventory = set p.inventory p.inventory_count item_type;
      inventory_count = suc p.inventory_count;
    }
    else p

-- "pid=%d,item=%d,x=%d,y=%d"
abbrev pub pickup_format : List Directive
pickup_format = expect (codes "pid=") (
    int
    ∷ expect (codes ",item=") (int ∷ expect (codes ",x=") (int ∷ expect (codes ",y=") (int ∷ []))))

abbrev pub picked : ℤ → ℤ → ℤ → ℤ → RecoveryState → RecoveryState
picked pid item_type x y state =
    change_player pid (stow item_type) (record state { items = take_item x y state.items })

unfoldable pub parse_pickup : Text → RecoveryState → RecoveryState
unfolding sscanf
parse_pickup action_data state = elim (sscanf pickup_format action_data) [
  | pid ∷ item_type ∷ x ∷ y ∷ _ ↦ picked pid item_type x y state
  | _ ↦ state
]

-- The later items move up by one place, and the last place keeps its item.
unfoldable pub move_up : ℕ → ℕ → List ℤ → List ℤ
move_up zero i inventory = inventory
move_up (suc rounds) i inventory =
    move_up rounds (suc i) (set inventory i (get_or inventory (suc i) (pos 0)))

unfoldable pub take_out : ℤ → RecoveredPlayer → RecoveredPlayer
unfolding move_up
take_out item_idx p =
    let i = pos_part item_idx in
    if leb_ℤ (pos 0) item_idx && ltb_ℤ item_idx (pos p.inventory_count)
    then record p {
      inventory = move_up (p.inventory_count - 1 - i) i p.inventory;
      inventory_count = p.inventory_count - 1;
    }
    else p

-- ITEM_HEALTH, ITEM_ATTACK and ITEM_SHIELD are 1, 2 and 3.
unfoldable pub apply_effect : ℤ → RecoveredPlayer → RecoveredPlayer
apply_effect item_type p =
    if item_type ==ℤ pos 1
    then (let hp = p.hp +ℤ health_restore in
        record p { hp = if ltb_ℤ p.max_hp hp then p.max_hp else hp })
    else if item_type ==ℤ pos 2
    then record p { atk = initial_atk +ℤ atk_buff_amount }
    else if item_type ==ℤ pos 3
    then record p { has_shield = pos 1 }
    else p

abbrev pub use_up : ℤ → ℤ → RecoveredPlayer → RecoveredPlayer
use_up item_type item_idx p = apply_effect item_type (take_out item_idx p)

-- "pid=%d,item=%d,idx=%d"
abbrev pub use_format : List Directive
use_format =
    expect (codes "pid=") (int ∷ expect (codes ",item=") (int ∷ expect (codes ",idx=") (int ∷ [])))

unfoldable pub parse_use_item : Text → RecoveryState → RecoveryState
unfolding sscanf take_out apply_effect
parse_use_item action_data state = elim (sscanf use_format action_data) [
  | pid ∷ item_type ∷ item_idx ∷ _ ↦ change_player pid (use_up item_type item_idx) state
  | _ ↦ state
]
