-- ===== src/Handler/Refused/Entering.antt =====
-- The refusals of the commands about rooms, but the creation of one.
use asciigame.Base.{
  ℕ, ◌≡◌, ◌≢◌, refl, inl, inr, not, ◌||◌, List, [], ◌∷◌, ℤ, pos, Bool-cases, Option-cases, ltb_ℤ,
  leb_ℤ, ◌==◌, all, ◌&&◌,
}
use asciigame.Text.{Text, codes}
use asciigame.Text.Decimal.{atoi}
use asciigame.Player.{Player, player_at, is_ready}
use asciigame.Room.{
  Arena, room_add_player, Joined, joined, room_full, in_progress, is_room_gaming, free_seat,
}
use asciigame.Room.Table.{room_find_by_id}
use asciigame.World.{World, room_in, into_room, out_of_room}
use asciigame.Handler.{before_room}
use asciigame.Handler.Lobby.{
  handler_join_room, handler_leave_room, handler_ready, handler_chat, is_lobby, is_in_room,
  join_reply,
}
use asciigame.Handler.Refused.{
  OnlyError, refuse-OnlyError, success-OnlyError, unmoved, refuse-Unchanged,
}

join_refused : (a : Arena) (s : ℕ) → (room_add_player a s).1 ≢ joined → (room_add_player a s).0 ≡ a
unfolding room_add_player
join_refused a s n = elim (Option-cases (player_at a.players s)) [
  | inl e ↦ rw (e, room_add_player) refl
  | inr (p, e) ↦ elim (Bool-cases (is_room_gaming a.room.status)) [
    | inl g ↦ rw (e, g, room_add_player) refl
    | inr g ↦ elim (Bool-cases (leb_ℤ a.room.max_players a.room.player_count)) [
      | inl l ↦ rw (e, g, l, room_add_player) refl
      | inr l ↦ elim (Option-cases (free_seat a.room.player_ids)) [
        | inl f ↦ rw (e, g, l, f, room_add_player) refl
        | inr (seat, f) ↦ absurd (n (rw (e, g, l, f, room_add_player) refl))
      ]
    ]
  ]
]

join_reply-OnlyError :
    (s : ℕ) (w : World) (i : ℕ) (a : Arena) (result : Joined)
    → (result ≢ joined → out_of_room w i a ≡ w)
    → OnlyError s w (join_reply s i result (out_of_room w i a))
join_reply-OnlyError s w i a joined h = λ e. absurd (cc)
join_reply-OnlyError s w i a room_full h =
    refuse-Unchanged s w _ (codes "Room is full") i a (h (λ e. cc))
join_reply-OnlyError s w i a in_progress h =
    refuse-Unchanged s w _ (codes "Game in progress") i a (h (λ e. cc))

pub handler_join_room-OnlyError :
    (s : ℕ) (p : Player) (args : List Text) (w : World)
    → OnlyError s w (handler_join_room s p args w)
unfolding handler_join_room
handler_join_room-OnlyError s p [] w = refuse-OnlyError s _ (codes "Usage: JOIN_ROOM|room_id") w
handler_join_room-OnlyError s p (d ∷ args) w = elim (Bool-cases (is_lobby p.status)) [
  | inr f ↦ simp f (refuse-OnlyError s _ (codes "Must be in lobby") w)
  | inl f ↦ elim (Option-cases (room_find_by_id (atoi d) w.rooms)) [
    | inl n ↦ simp (f, n) (refuse-OnlyError s _ (codes "Room not found") w)
    | inr (i, n) ↦ elim (Option-cases (room_in w.rooms.rooms i)) [
      | inl m ↦ simp (f, n, m) (refuse-OnlyError s _ (codes "Room not found") w)
      | inr (r, m) ↦
          simp (f, n, m)
            (join_reply-OnlyError s w i _ _
              (λ k. unmoved w i r m (join_refused (into_room w r) s k)))
    ]
  ]
]

pub handler_leave_room-OnlyError :
    (s : ℕ) (p : Player) (w : World) → OnlyError s w (handler_leave_room s p w)
unfolding handler_leave_room
handler_leave_room-OnlyError s p w = elim (Bool-cases (before_room p.status)) [
  | inl f ↦ simp f (refuse-OnlyError s _ (codes "Not in a room") w)
  | inr f ↦ elim (Option-cases (room_find_by_id p.room_id w.rooms)) [
    | inl n ↦ simp (f, n) (refuse-OnlyError s _ (codes "Room not found") w)
    | inr (i, n) ↦ elim (Option-cases (room_in w.rooms.rooms i)) [
      | inl m ↦ simp (f, n, m) (refuse-OnlyError s _ (codes "Room not found") w)
      | inr (r, m) ↦ simp (f, n, m) (success-OnlyError s w _)
    ]
  ]
]

pub handler_ready-OnlyError :
    (rand : ℕ → ℕ) (now : ℤ) (old_lines : List Text) (s : ℕ) (p : Player) (w : World)
    → OnlyError s w (handler_ready rand now old_lines s p w)
unfolding handler_ready
handler_ready-OnlyError rand now old_lines s p w =
    elim (Bool-cases (not (is_in_room p.status) && not (is_ready p.status))) [
      | inl f ↦ simp f (refuse-OnlyError s _ (codes "Not in a room") w)
      | inr f ↦ elim (Option-cases (room_find_by_id p.room_id w.rooms)) [
        | inl n ↦ simp (f, n) (refuse-OnlyError s _ (codes "Room not found") w)
        | inr (i, n) ↦ elim (Option-cases (room_in w.rooms.rooms i)) [
          | inl m ↦ simp (f, n, m) (refuse-OnlyError s _ (codes "Room not found") w)
          | inr (r, m) ↦ simp (f, n, m) (success-OnlyError s w _)
        ]
      ]
    ]

pub handler_chat-OnlyError :
    (s : ℕ) (p : Player) (args : List Text) (w : World) → OnlyError s w (handler_chat s p args w)
unfolding handler_chat
handler_chat-OnlyError s p [] w = success-OnlyError s w w
handler_chat-OnlyError s p (d ∷ args) w = elim (Bool-cases (all (λ c. c == b' ' || c == 9) d)) [
  | inl b ↦ simp b (success-OnlyError s w w)
  | inr b ↦ elim (Bool-cases (ltb_ℤ p.room_id (pos 0))) [
    | inl f ↦ simp (b, f) (refuse-OnlyError s _ (codes "Not in a room") w)
    | inr f ↦ elim (Option-cases (room_find_by_id p.room_id w.rooms)) [
      | inl n ↦ simp (b, f, n) (refuse-OnlyError s _ (codes "Room not found") w)
      | inr (i, n) ↦ elim (Option-cases (room_in w.rooms.rooms i)) [
        | inl m ↦ simp (b, f, n, m) (refuse-OnlyError s _ (codes "Room not found") w)
        | inr (r, m) ↦ simp (b, f, n, m) (success-OnlyError s w _)
      ]
    ]
  ]
]
