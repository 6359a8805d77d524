-- ===== src/Recovery/Meaning/Agrees.antt =====
-- The functions of the replay do what the records mean.
use asciigame.Base.{
  ℕ, zero, suc, ◌≡◌, refl, ap, ◌∙◌, ◌-◌, List, [], ◌∷◌, Option, none, some, ℤ, pos, negsuc, ◌==ℤ◌,
  ◌==◌, later, Bool-cases, inl, inr, true, false, ltb, arith, get_or, length, leb_ℤ, ltb_ℤ, ◌+ℤ◌,
  if◌then◌else◌,
}
use mathlib.Core.Path.{fun_ext}
use asciigame.Config.{max_map_items, health_restore, initial_atk, atk_buff_amount}
use asciigame.Recovery.{
  RecoveredPlayer, RecoveredItem, RecoveryState, find_index, change_at, change_player,
}
use asciigame.Wal.Records.{WalRecord}
use asciigame.Recovery.Replay.{noted}
use asciigame.Recovery.Parse.{add_item, picked, take_item, move_up, take_out, apply_effect, use_up}
use asciigame.Recovery.Meaning.{
  stamped, on_first, with_player, off_map, on_map, first_or, carrying, closed_up, without,
  empowered,
}

abbrev changed :
    Option ℕ → (RecoveredPlayer → RecoveredPlayer) → List RecoveredPlayer → List RecoveredPlayer
changed none f ps = ps
changed (some k) f ps = change_at k f ps

changed-later :
    (o : Option ℕ) (f : RecoveredPlayer → RecoveredPlayer) (p : RecoveredPlayer)
    (ps : List RecoveredPlayer)
    → changed (later o) f (p ∷ ps) ≡ p ∷ changed o f ps
unfolding change_at
changed-later none f p ps = refl
changed-later (some k) f p ps = refl

find_index-on_first :
    (pid : ℤ) (f : RecoveredPlayer → RecoveredPlayer) (ps : List RecoveredPlayer)
    → changed (find_index pid ps) f ps ≡ on_first pid f ps
unfolding find_index change_at
find_index-on_first pid f [] = refl
find_index-on_first pid f (p ∷ ps) = elim (Bool-cases (p.id ==ℤ pid)) [
  | inl h ↦ rw h refl
  | inr h ↦
      rw h
        (changed-later (find_index pid ps) f p ps ∙ ap (λ l. p ∷ l) (find_index-on_first pid f ps))
]

pub change_player-with_player :
    (pid : ℤ) (f : RecoveredPlayer → RecoveredPlayer) (state : RecoveryState)
    → change_player pid f state ≡ with_player pid f state
unfolding change_player
change_player-with_player pid f state =
    at_index (find_index pid state.players)
    ∙ ap (λ ps. record state { players = ps }) (find_index-on_first pid f state.players)
  where
    at_index :
        (o : Option ℕ)
        → elim o as (λ _. RecoveryState) [
          | none ↦ state
          | some idx ↦ record state { players = change_at idx f state.players }
        ]
          ≡ record state { players = changed o f state.players }
    at_index none = refl
    at_index (some k) = refl

take_item-off_map : (x y : ℤ) (items : List RecoveredItem) → take_item x y items ≡ off_map x y items
take_item-off_map x y [] = refl
take_item-off_map x y (i ∷ is) = let rest = take_item-off_map x y is in ground (arith, rest)

pub add_item-on_map :
    (type x y : ℤ) (state : RecoveryState)
    → add_item type x y state ≡ record state { items = on_map type x y state.items }
add_item-on_map type x y state = elim (Bool-cases (ltb (length state.items) max_map_items)) [
  | inl more ↦ rw more refl
  | inr full ↦ rw full refl
]

pub picked-carrying :
    (pid item x y : ℤ) (state : RecoveryState)
    → picked pid item x y state
      ≡ with_player pid (carrying item) (record state { items = off_map x y state.items })
picked-carrying pid item x y state =
    rw (take_item-off_map x y state.items) (change_player-with_player pid (carrying item) _)

move_up_empty : (r i : ℕ) → move_up r i [] ≡ []
unfolding move_up
move_up_empty zero i = refl
move_up_empty (suc r) i = move_up_empty r (suc i)

move_up-suc : (r i : ℕ) (x : ℤ) (xs : List ℤ) → move_up r (suc i) (x ∷ xs) ≡ x ∷ move_up r i xs
unfolding move_up
move_up-suc zero i x xs = refl
move_up-suc (suc r) i x xs = move_up-suc r (suc i) x _

get_or_first : (z : ℤ) (xs : List ℤ) → get_or xs 0 z ≡ first_or z xs
get_or_first z [] = refl
get_or_first z (x ∷ xs) = refl

move_up-closed_up : (r i : ℕ) (inventory : List ℤ) → move_up r i inventory ≡ closed_up i r inventory
unfolding move_up
move_up-closed_up r i [] = move_up_empty r i
move_up-closed_up r (suc i) (x ∷ xs) =
    move_up-suc r i x xs ∙ ap (λ l. x ∷ l) (move_up-closed_up r i xs)
move_up-closed_up zero zero (x ∷ xs) = refl
move_up-closed_up (suc r) zero (x ∷ xs) =
    move_up-suc r 0 _ xs
    ∙ rw (get_or_first (pos 0) xs) (ap (λ l. first_or (pos 0) xs ∷ l) (move_up-closed_up r 0 xs))

take_out-without : (idx : ℤ) (p : RecoveredPlayer) → take_out idx p ≡ without idx p
unfolding take_out
take_out-without (negsuc i) p =
    let below : leb_ℤ (pos 0) (negsuc i) ≡ false = ground arith in rw below refl
take_out-without (pos i) p = elim (Bool-cases (ltb i p.inventory_count)) [
  | inl inside ↦
      let a : leb_ℤ (pos 0) (pos i) ≡ true = ground arith in
      let b : ltb_ℤ (pos i) (pos p.inventory_count) ≡ true = ground arith in
      rw (a, b, inside)
        (ap (λ l. record p { inventory = l; inventory_count = p.inventory_count - 1 })
          (move_up-closed_up (p.inventory_count - 1 - i) i p.inventory))
  | inr beyond ↦
      let a : leb_ℤ (pos 0) (pos i) ≡ true = ground arith in
      let b : ltb_ℤ (pos i) (pos p.inventory_count) ≡ false = ground arith in rw (a, b, beyond) refl
]

capped :
    (hp max_hp : ℤ)
    → (if ltb_ℤ max_hp hp then max_hp else hp) ≡ (if leb_ℤ hp max_hp then hp else max_hp)
capped hp max_hp = ground arith

apply_effect-empowered : (type : ℤ) (p : RecoveredPlayer) → apply_effect type p ≡ empowered type p
unfolding apply_effect
apply_effect-empowered type p =
    ap
      (λ hp.
        if type ==ℤ pos 1
        then record p { hp = hp }
        else if type ==ℤ pos 2
        then record p { atk = initial_atk +ℤ atk_buff_amount }
        else if type ==ℤ pos 3
        then record p { has_shield = pos 1 }
        else p)
      (capped (p.hp +ℤ health_restore) p.max_hp)

pub use_up-empowered :
    (pid item idx : ℤ) (state : RecoveryState)
    → change_player pid (use_up item idx) state
      ≡ with_player pid (λ p. empowered item (without idx p)) state
use_up-empowered pid item idx state =
    change_player-with_player pid (use_up item idx) state
    ∙ ap (λ f. with_player pid f state)
        (fun_ext λ p.
          apply_effect-empowered item (take_out idx p)
          ∙ ap (empowered item) (take_out-without idx p))

pub noted-stamped :
    (n : ℕ) (r : WalRecord) (state : RecoveryState)
    → noted n r state ≡ stamped r.room_id r.timestamp n state
noted-stamped zero r state = refl
noted-stamped (suc n) r state =
    let later_one : (suc n == 0) ≡ false = ground arith in rw later_one refl
