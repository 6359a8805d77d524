-- ===== src/Handler/Refused.antt =====
-- What a command that is answered with an error leaves behind.
pub mod Entering
pub mod Commands
pub mod Creating
pub mod Every
use asciigame.Base.{
  ℕ, zero, suc, ◌≡◌, ◌≢◌, refl, sym, ap, ◌∙◌, ◌⊎◌, inl, inr, Bool, true, false, not, ◌||◌, List, [],
  ◌∷◌, Option, none, some, ℤ, pos, ltb_ℤ, leb_ℤ, Bool-cases, Option-cases, set, arith, ltb, leb,
  length, if◌then◌else◌, ◌+ℤ◌, ◌-ℤ◌,
}
use asciigame.Config.{attack_cooldown_ms}
use asciigame.Text.{Text, codes}
use asciigame.Text.Decimal.{atoi}
use asciigame.Player.{
  Player, player_at, is_gaming, is_none, player_find_by_username, player_use_item,
}
use asciigame.Player.Inventory.{IsStocked, player_use_item_none}
use asciigame.Protocol.{
  CommandType, cmd_login, cmd_register, cmd_list_rooms, cmd_create_room, cmd_join_room,
  cmd_leave_room, cmd_ready, cmd_move, cmd_attack, cmd_use_item, cmd_chat, cmd_logout,
}
use asciigame.Room.{Room, Arena}
use asciigame.Room.Table.{room_find_by_id}
use asciigame.Game.Move.{Moved, moved, on_cooldown, invalid_move, game_handle_move}
use asciigame.Game.Move.Effect.{game_handle_move_lem, Moves}
use asciigame.Game.Attack.{game_handle_attack}
use asciigame.Game.UseItem.{game_handle_use_item}
use asciigame.Game.UseItem.Effect.{use_item_refused}
use asciigame.World.{World, room_in, into_room, out_of_room, send}
use asciigame.Handler.{send_error, refuse}
use asciigame.Handler.Lobby.{handler_leave_room}
use asciigame.Handler.Play.{
  handler_move, handler_attack, handler_use_item, move_reply, attack_reply, use_reply, first_byte,
}

-- Where the result is -1, the world is the one before and one error message to the player.
abbrev pub OnlyError : ℕ → World → World × Bool → Type 0
OnlyError s w (after, ok) =
    ok ≡ false → (code : ℤ) × (message : Text) × (after ≡ send_error s code message w)

pub refuse-OnlyError :
    (s : ℕ) (code : ℤ) (message : Text) (w : World) → OnlyError s w (refuse s code message w)
refuse-OnlyError s code message w = λ e. (code, message, refl)

pub success-OnlyError : (s : ℕ) (w after : World) → OnlyError s w (after, true)
success-OnlyError s w after = λ e. absurd (cc)

set_same :
    (rs : List (Option Room)) (i : ℕ) (r : Room) → room_in rs i ≡ some r → set rs i (some r) ≡ rs
set_same [] i r e = refl
set_same (o ∷ rs) zero r e = ap (λ (x : Option Room). x ∷ rs) (sym e)
set_same (o ∷ rs) (suc i) r e = ap (λ (l : List (Option Room)). o ∷ l) (set_same rs i r e)

-- A room that was not changed goes back to where it was.
out_of_room-into_room :
    (w : World) (i : ℕ) (r : Room)
    → room_in w.rooms.rooms i ≡ some r
    → out_of_room w i (into_room w r) ≡ w
out_of_room-into_room w i r e =
    ap (λ (rs : List (Option Room)). record w { rooms = record (w.rooms) { rooms = rs } })
      (set_same w.rooms.rooms i r e)

-- A handler that finds the room of the player first.
module _ (s : ℕ) (w : World) where
  abbrev Unchanged : ℕ → Arena → Type 0
  Unchanged i a = out_of_room w i a ≡ w

  pub refuse-Unchanged :
      (code : ℤ) (message : Text) (i : ℕ) (a : Arena)
      → Unchanged i a
      → OnlyError s w (refuse s code message (out_of_room w i a))
  refuse-Unchanged code message i a e = rw e (refuse-OnlyError s code message w)

  move_reply-OnlyError :
      (i : ℕ) (a : Arena) (ret : Moved)
      → (ret ≢ moved → Unchanged i a)
      → OnlyError s w (move_reply s ret (out_of_room w i a))
  move_reply-OnlyError i a moved h = success-OnlyError s w (out_of_room w i a)
  move_reply-OnlyError i a on_cooldown h =
      refuse-Unchanged _ (codes "Move on cooldown") i a (h (λ e. cc))
  move_reply-OnlyError i a invalid_move h =
      refuse-Unchanged _ (codes "Invalid move") i a (h (λ e. cc))

  attack_reply-OnlyError :
      (i : ℕ) (a : Arena) (done : Bool)
      → (done ≡ false → Unchanged i a)
      → OnlyError s w (attack_reply s done (out_of_room w i a))
  attack_reply-OnlyError i a true h = success-OnlyError s w (out_of_room w i a)
  attack_reply-OnlyError i a false h = refuse-Unchanged _ (codes "Attack on cooldown") i a (h refl)

  use_reply-OnlyError :
      (i : ℕ) (a : Arena) (done : Bool)
      → (done ≡ false → Unchanged i a)
      → OnlyError s w (use_reply s done (out_of_room w i a))
  use_reply-OnlyError i a true h = λ e. absurd (cc)
  use_reply-OnlyError i a false h = refuse-Unchanged _ (codes "Invalid item index") i a (h refl)

move_refused :
    (now : ℤ) (s direction : ℕ) (a : Arena) (p : Player)
    → player_at a.players s ≡ some p
    → (game_handle_move now s direction a).1 ≢ moved
    → (game_handle_move now s direction a).0 ≡ a
move_refused now s direction a p e n = elim (game_handle_move_lem now s direction a p e) [
  | inl (m, q, e', g) ↦ absurd (n m)
  | inr (_, q) ↦ q
]

attack_refused :
    (now : ℤ) (s : ℕ) (a : Arena)
    → (game_handle_attack now s a).1 ≡ false
    → (game_handle_attack now s a).0 ≡ a
unfolding game_handle_attack
attack_refused now s a e = elim (Option-cases (player_at a.players s)) [
  | inl n ↦ rw (n, game_handle_attack) refl
  | inr (p, n) ↦ elim (Bool-cases (ltb_ℤ (now -ℤ p.last_attack_time) attack_cooldown_ms)) [
    | inl c ↦ rw (n, c, game_handle_attack) refl
    | inr c ↦ absurd (
        let done : (game_handle_attack now s a).1 ≡ true = rw (n, c, game_handle_attack) refl in cc)
  ]
]

-- What leaves the room as it was leaves the world as it was.
pub unmoved :
    (w : World) (i : ℕ) (r : Room) {a : Arena}
    → room_in w.rooms.rooms i ≡ some r
    → a ≡ into_room w r
    → out_of_room w i a ≡ w
unmoved w i r m h = ap (out_of_room w i) h ∙ out_of_room-into_room w i r m

use_refused :
    (now : ℤ) (s : ℕ) (index : ℤ) (a : Arena) (p : Player)
    → player_at a.players s ≡ some p
    → IsStocked p
    → (game_handle_use_item now s index a).1 ≡ false
    → (game_handle_use_item now s index a).0 ≡ a
unfolding game_handle_use_item
use_refused now s index a p n v e = elim (Bool-cases (is_none ((player_use_item p index).1))) [
  | inl t ↦
      ap (λ (r : Arena × Bool). r.0)
        (use_item_refused now s index a p n v ((player_use_item_none p index v).0.0 t))
  | inr f ↦ absurd (
      let done : (game_handle_use_item now s index a).1 ≡ true =
        rw (n, f, game_handle_use_item) refl in
      cc)
]

pub handler_move-OnlyError :
    (now : ℤ) (s : ℕ) (p : Player) (args : List Text) (w : World)
    → player_at w.table.slots s ≡ some p
    → OnlyError s w (handler_move now s p args w)
unfolding handler_move
handler_move-OnlyError now s p [] w e = refuse-OnlyError s _ (codes "Usage: MOVE|direction") w
handler_move-OnlyError now s p (d ∷ args) w e = elim (Bool-cases (is_gaming p.status)) [
  | inr f ↦ simp f (refuse-OnlyError s _ (codes "Not in game") w)
  | inl f ↦ elim (Option-cases (room_find_by_id p.room_id w.rooms)) [
    | inl n ↦ simp (f, n) (refuse-OnlyError s _ (codes "Room not found") w)
    | inr (i, n) ↦ elim (Option-cases (room_in w.rooms.rooms i)) [
      | inl m ↦ simp (f, n, m) (refuse-OnlyError s _ (codes "Room not found") w)
      | inr (r, m) ↦
          simp (f, n, m)
            (move_reply-OnlyError s w i _ _
              (λ k. unmoved w i r m (move_refused now s (first_byte d) (into_room w r) p e k)))
    ]
  ]
]

pub handler_attack-OnlyError :
    (now : ℤ) (s : ℕ) (p : Player) (w : World)
    → player_at w.table.slots s ≡ some p
    → OnlyError s w (handler_attack now s p w)
unfolding handler_attack
handler_attack-OnlyError now s p w e = elim (Bool-cases (is_gaming p.status)) [
  | inr f ↦ simp f (refuse-OnlyError s _ (codes "Not in game") w)
  | inl f ↦ elim (Option-cases (room_find_by_id p.room_id w.rooms)) [
    | inl n ↦ simp (f, n) (refuse-OnlyError s _ (codes "Room not found") w)
    | inr (i, n) ↦ elim (Option-cases (room_in w.rooms.rooms i)) [
      | inl m ↦ simp (f, n, m) (refuse-OnlyError s _ (codes "Room not found") w)
      | inr (r, m) ↦
          simp (f, n, m)
            (attack_reply-OnlyError s w i _ _
              (λ k. unmoved w i r m (attack_refused now s (into_room w r) k)))
    ]
  ]
]

pub handler_use_item-OnlyError :
    (now : ℤ) (s : ℕ) (p : Player) (args : List Text) (w : World)
    → player_at w.table.slots s ≡ some p
    → IsStocked p
    → OnlyError s w (handler_use_item now s p args w)
unfolding handler_use_item
handler_use_item-OnlyError now s p [] w e v = refuse-OnlyError s _ (codes "Usage: USE_ITEM|index") w
handler_use_item-OnlyError now s p (d ∷ args) w e v = elim (Bool-cases (is_gaming p.status)) [
  | inr f ↦ simp f (refuse-OnlyError s _ (codes "Not in game") w)
  | inl f ↦ elim (Option-cases (room_find_by_id p.room_id w.rooms)) [
    | inl n ↦ simp (f, n) (refuse-OnlyError s _ (codes "Room not found") w)
    | inr (i, n) ↦ elim (Option-cases (room_in w.rooms.rooms i)) [
      | inl m ↦ simp (f, n, m) (refuse-OnlyError s _ (codes "Room not found") w)
      | inr (r, m) ↦
          simp (f, n, m)
            (use_reply-OnlyError s w i _ _
              (λ k. unmoved w i r m (use_refused now s (atoi d) (into_room w r) p e v k)))
    ]
  ]
]
