-- ===== src/Game/Broadcast.antt =====
-- `game_broadcast_state`: the state of the room as text, sent to its players at each tick.
use asciigame.Base.{
  ℕ, zero, suc, Bool, true, false, List, [], ◌∷◌, ◌++◌, Option, none, some, ℤ, pos, ltb_ℤ, map,
  if◌then◌else◌,
}
use asciigame.Config.{max_msg_len}
use asciigame.Text.{Text, codes, snprintf}
use asciigame.Text.Decimal.{print_int}
use asciigame.GameMap.{MapItem}
use asciigame.Player.{
  Player, PlayerStatus, player_disconnected, player_connected, player_lobby, player_in_room,
  player_ready, player_gaming, player_dead, player_at, player_find_by_id,
}
use asciigame.Protocol.{protocol_build_game_state}
use asciigame.Room.{Arena, room_broadcast, commas}
use asciigame.Room.Start.{map_item_number, flag, inventory_number}

abbrev pub player_status_number : PlayerStatus → ℤ
player_status_number player_disconnected = pos 0
player_status_number player_connected = pos 1
player_status_number player_lobby = pos 2
player_status_number player_in_room = pos 3
player_status_number player_ready = pos 4
player_status_number player_gaming = pos 5
player_status_number player_dead = pos 6

-- The players at the places that are taken, in their order.
unfoldable pub seated_players : List ℤ → List (Option Player) → List Player
unfolding player_find_by_id
seated_players [] ps = []
seated_players (id ∷ ids) ps =
    let rest = seated_players ids ps in
    if ltb_ℤ id (pos 0) then rest else elim (player_find_by_id ps id) as (λ _. List Player) [
      | none ↦ rest
      | some s ↦ elim (player_at ps s) as (λ _. List Player) [ none ↦ rest | some p ↦ p ∷ rest ]
    ]

-- The arguments of "%d,%d,%d,%d,%d,%d,%d,%d,%d,%d,%d,%d,%d".
abbrev pub state_numbers : Player → List ℤ
state_numbers p =
    p.id
    ∷ p.x
    ∷ p.y
    ∷ p.hp
    ∷ p.atk
    ∷ p.def
    ∷ player_status_number p.status
    ∷ flag p.has_shield
    ∷ inventory_number p 0
    ∷ inventory_number p 1
    ∷ inventory_number p 2
    ∷ inventory_number p 3
    ∷ inventory_number p 4
    ∷ []

abbrev pub item_numbers : MapItem → List ℤ
item_numbers i = i.x ∷ i.y ∷ map_item_number i.type ∷ []

-- The items that lie on the map, of the first `n`.
abbrev pub lying : ℕ → List MapItem → List MapItem
lying zero items = []
lying (suc n) [] = []
lying (suc n) (i ∷ items) = let rest = lying n items in if i.active then i ∷ rest else rest

-- One entry, with the separator before all but the first.
abbrev pub entry_text : Bool → List ℤ → Text
entry_text first numbers = (if first then [] else codes ";") ++ commas (map print_int numbers)

-- What the two loops write from `ps_pos` or `is_pos` on.
abbrev pub entries_text : Bool → List (List ℤ) → Text
entries_text first [] = []
entries_text first (e ∷ es) = entry_text first e ++ entries_text false es

abbrev pub player_states : Arena → Text
player_states a =
    snprintf max_msg_len
      (entries_text true (map state_numbers (seated_players a.room.player_ids a.players)))

abbrev pub item_states : Arena → Text
item_states a =
    snprintf max_msg_len
      (entries_text true (map item_numbers (lying a.room.item_count a.room.items)))

unfoldable pub game_broadcast_state : ℤ → Arena → Arena
unfolding seated_players
game_broadcast_state now a =
    room_broadcast
      (protocol_build_game_state max_msg_len now (player_states a) (item_states a)
        a.room.poison_radius)
      a
