-- ===== src/Client/State.antt =====
-- `handle_game_state`: the players, the items and the safe zone, from the message of a tick.
pub mod Tokens
pub mod Shown
use asciigame.Base.{
  ℕ, zero, suc, Bool, List, [], ◌∷◌, ◌++◌, ℤ, pos, ltb, leb, ◌==ℤ◌, length, get_or, take, replicate,
  if◌then◌else◌,
}
use asciigame.Text.{Text, codes, copy_into}
use asciigame.Text.Decimal.{atoi}
use asciigame.Text.Fields.{tokens}
use asciigame.Text.Scan.{Directive, byte, int, sscanf}
use asciigame.Player.{is_empty}
use asciigame.Recovery.Start.{count_positive}
use asciigame.Client.{GameState, PlayerView, ItemView, max_players_view, max_items_view}

-- "%d,%d,...": n + 1 conversions.
abbrev pub int_list : ℕ → List Directive
int_list zero = int ∷ []
int_list (suc n) = int ∷ byte b',' ∷ int_list n

abbrev pub view_of : (ℕ → ℤ) → PlayerView
view_of v = record { id = v 0; x = v 1; y = v 2; hp = v 3; status = v 6 }

-- What the state takes from the entry about the player at the screen.
abbrev pub take_own : (ℕ → ℤ) → GameState → GameState
take_own v g = record g { my_x = v 1; my_y = v 2; my_hp = v 3; my_atk = v 4; my_def = v 5 }

abbrev pub take_inventory : (ℕ → ℤ) → GameState → GameState
take_inventory v g =
    let items = v 8 ∷ v 9 ∷ v 10 ∷ v 11 ∷ v 12 ∷ [] in
    record g { my_has_shield = v 7; inventory = items; inventory_count = count_positive items }

-- One entry of which four numbers or more were read. The first player seen is taken for the own one
-- while that is unknown.
abbrev pub take_view : ℕ → (ℕ → ℤ) → GameState → GameState
take_view parsed v g =
    let me = if g.my_id ==ℤ pos 0 then v 0 else g.my_id in
    let seen : GameState = record g { my_id = me; players = g.players ++ (view_of v ∷ []) } in
    if v 0 ==ℤ me
    then (let own = take_own v seen in if leb 13 parsed then take_inventory v own else own)
    else seen

-- A local variable that is not assigned has an unknown value, `junk`.
module _ (junk : ℕ → ℤ) where
  abbrev pub local : List ℤ → ℕ → ℤ
  local numbers k = get_or numbers k (junk k)

  unfoldable pub player_tokens : List Text → GameState → GameState
  unfolding sscanf
  player_tokens [] g = g
  player_tokens (token ∷ rest) g =
      let numbers = sscanf (int_list 12) token in
      let taken = take_view (length numbers) (local numbers) g in
      let next = player_tokens rest (if leb 4 (length numbers) then taken else g) in
      if ltb (length g.players) max_players_view then next else g

  unfoldable pub parse_player_states : Text → GameState → GameState
  unfolding player_tokens tokens
  parse_player_states states g =
      if is_empty states
      then g
      else player_tokens (tokens b';' (copy_into 4096 states)) (record g { players = [] })

-- An entry with fewer than three numbers is overwritten by the next one.
abbrev pub take_item_view : List ℤ → GameState → GameState
take_item_view (x ∷ y ∷ type ∷ _) g = record g {
  items = g.items ++ (record { x = x; y = y; type = type } ∷ []);
}
take_item_view _ g = g

unfoldable pub item_tokens : List Text → GameState → GameState
unfolding sscanf
item_tokens [] g = g
item_tokens (token ∷ rest) g =
    let next = take_item_view (sscanf (int_list 2) token) g in
    let more = item_tokens rest next in if ltb (length g.items) max_items_view then more else g

unfoldable pub parse_item_states : Text → GameState → GameState
unfolding item_tokens tokens
parse_item_states states g =
    if is_empty states
    then record g { items = [] }
    else item_tokens (tokens b';' (copy_into 1024 states)) (record g { items = [] })

unfoldable pub handle_game_state : (ℕ → ℤ) → List Text → GameState → GameState
unfolding parse_player_states parse_item_states atoi
handle_game_state junk (timestamp ∷ players ∷ items ∷ radius ∷ _) g =
    record (parse_item_states items (parse_player_states junk players g)) {
      poison_radius = atoi radius;
    }
handle_game_state junk _ g = g
