-- ===== src/Client/State/Shown.antt =====
-- What the client shows of a room after the message that the server sends at a tick.
use asciigame.Base.{
  ℕ, ◌+◌, ◌<◌, ◌≤◌, ◌≡◌, refl, ap, sym, ◌∙◌, true, false, List, [], ◌∷◌, ◌++◌, ℤ, arith, ◌==ℤ◌, ltb,
  leb, if◌then◌else◌, All, length, length-append, map, take_all, Bool-cases, inl, inr, pos,
}
use mathlib.Core.List.{append_assoc, append-nil}
use asciigame.Text.{Text, copy_into}
use asciigame.Text.Scan.{sscanf}
use asciigame.GameMap.{MapItem}
use asciigame.Player.{Player, is_empty}
use asciigame.Room.Start.{map_item_number}
use asciigame.Game.Broadcast.{state_numbers, item_numbers, entries_text, player_status_number}
use asciigame.Client.{GameState, PlayerView, ItemView, max_players_view, max_items_view}
use asciigame.Client.State.{
  int_list, view_of, take_view, local, player_tokens, parse_player_states, take_item_view,
  item_tokens, parse_item_states,
}
use asciigame.Client.State.Tokens.{
  numbers_entry, sscanf-entry, entry_nonempty, Filled, tokens-entries,
}

abbrev pub shown_player : Player → PlayerView
shown_player p = record {
  id = p.id;
  x = p.x;
  y = p.y;
  hp = p.hp;
  status = player_status_number p.status;
}

abbrev pub shown_item : MapItem → ItemView
shown_item i = record { x = i.x; y = i.y; type = map_item_number i.type }

take_view-players :
    (n : ℕ) (v : ℕ → ℤ) (g : GameState) → (take_view n v g).players ≡ g.players ++ (view_of v ∷ [])
take_view-players n v g = elim (Bool-cases (v 0 ==ℤ (if g.my_id ==ℤ pos 0 then v 0 else g.my_id))) [
  | inl own ↦ elim (Bool-cases (leb 13 n)) [
    | inl all ↦ rw (own, all) refl
    | inr few ↦ rw (own, few) refl
  ]
  | inr other ↦ rw other refl
]

module _ (junk : ℕ → ℤ) where
  player_tokens-players :
      (ps : List Player) (g : GameState)
      → length g.players + length ps ≤ 10
      → (player_tokens junk (map numbers_entry (map state_numbers ps)) g).players
        ≡ g.players ++ map shown_player ps
  unfolding player_tokens
  player_tokens-players [] g w = sym (append-nil g.players)
  player_tokens-players (p ∷ ps) g w =
      let numbers = state_numbers p in
      let read : sscanf (int_list 12) (numbers_entry numbers) ≡ numbers = sscanf-entry p.id _ in
      let place : ltb (length g.players) max_players_view ≡ true = ground arith in
      let next = take_view 13 (local junk numbers) g in
      let seen = take_view-players 13 (local junk numbers) g in
      rw (place, read)
        (player_tokens-players ps next
            (omega (arith, ap length seen, length-append g.players (shown_player p ∷ [])))
          ∙ ap (λ t. t ++ map shown_player ps) seen
          ∙ append_assoc g.players (shown_player p ∷ []) (map shown_player ps))

item_tokens-items :
    (is : List MapItem) (g : GameState)
    → length g.items + length is ≤ 20
    → (item_tokens (map numbers_entry (map item_numbers is)) g).items ≡ g.items ++ map shown_item is
unfolding item_tokens
item_tokens-items [] g w = sym (append-nil g.items)
item_tokens-items (i ∷ is) g w =
    let numbers = item_numbers i in
    let read : sscanf (int_list 2) (numbers_entry numbers) ≡ numbers = sscanf-entry i.x _ in
    let place : ltb (length g.items) max_items_view ≡ true = ground arith in
    let next : GameState = record g { items = g.items ++ (shown_item i ∷ []) } in
    rw (place, read)
      (item_tokens-items is next (omega (arith, length-append g.items (shown_item i ∷ [])))
        ∙ append_assoc g.items (shown_item i ∷ []) (map shown_item is))

take_item_view-players :
    (numbers : List ℤ) (g : GameState) → (take_item_view numbers g).players ≡ g.players
take_item_view-players [] g = refl
take_item_view-players (x ∷ []) g = refl
take_item_view-players (x ∷ y ∷ []) g = refl
take_item_view-players (x ∷ y ∷ type ∷ rest) g = refl

item_tokens-players : (ts : List Text) (g : GameState) → (item_tokens ts g).players ≡ g.players
unfolding item_tokens
item_tokens-players [] g = refl
item_tokens-players (t ∷ ts) g = elim (Bool-cases (ltb (length g.items) max_items_view)) [
  | inl room ↦ rw room (
      item_tokens-players ts (take_item_view (sscanf (int_list 2) t) g)
      ∙ take_item_view-players (sscanf (int_list 2) t) g)
  | inr full ↦ rw full refl
]

not_empty : (t : Text) → 0 < length t → is_empty t ≡ false
not_empty [] l = absurd (omega arith)
not_empty (c ∷ t) l = refl

pub entries_of_players : (ps : List Player) → All Filled (map state_numbers ps)
entries_of_players [] = tt
entries_of_players (p ∷ ps) =
    (entry_nonempty (state_numbers p) (omega arith), entries_of_players ps)

pub entries_of_items : (is : List MapItem) → All Filled (map item_numbers is)
entries_of_items [] = tt
entries_of_items (i ∷ is) = (entry_nonempty (item_numbers i) (omega arith), entries_of_items is)

pub parse_player_states-players :
    (junk : ℕ → ℤ) (ps : List Player) (g : GameState)
    → let states = entries_text true (map state_numbers ps) in
      0 < length states
      → length states < 4096
      → length ps ≤ 10
      → (parse_player_states junk states g).players ≡ map shown_player ps
unfolding parse_player_states
parse_player_states-players junk ps g k l w =
    let states = entries_text true (map state_numbers ps) in
    let whole : copy_into 4096 states ≡ states = take_all 4095 states (omega (arith, l)) in
    let split = tokens-entries (map state_numbers ps) (entries_of_players ps) in
    rw (not_empty states k, whole, split)
      (player_tokens-players junk ps (record g { players = [] }) (omega arith))

pub parse_item_states-items :
    (is : List MapItem) (g : GameState)
    → let states = entries_text true (map item_numbers is) in
      0 < length states
      → length states < 1024
      → length is ≤ 20
      → ((parse_item_states states g).items ≡ map shown_item is)
        × ((parse_item_states states g).players ≡ g.players)
unfolding parse_item_states
parse_item_states-items is g k l w =
    let states = entries_text true (map item_numbers is) in
    let whole : copy_into 1024 states ≡ states = take_all 1023 states (omega (arith, l)) in
    let split = tokens-entries (map item_numbers is) (entries_of_items is) in
    let start : GameState = record g { items = [] } in
    rw (not_empty states k, whole, split)
      (
        item_tokens-items is start (omega arith),
        item_tokens-players (map numbers_entry (map item_numbers is)) start,
      )
