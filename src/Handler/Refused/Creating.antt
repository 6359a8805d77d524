-- ===== src/Handler/Refused/Creating.antt =====
-- The creation of a room, which succeeds once there is a place for it.
use asciigame.Base.{
  ℕ, zero, suc, ◌≡◌, refl, ◌⊎◌, inl, inr, true, false, List, [], ◌∷◌, Option, none, some, ℤ, pos,
  Bool-cases, Option-cases, arith, set, ltb_ℤ, leb_ℤ, ◌+ℤ◌,
}
use asciigame.Config.{min_room_players, max_room_players}
use asciigame.Text.{Text, codes}
use asciigame.Text.Decimal.{atoi}
use asciigame.Player.{Player, player_at, is_empty, free_slot}
use asciigame.Player.Lookup.{later-eq-some}
use asciigame.Room.{Room, new_room, room_add_player, joined, free_seat}
use asciigame.Room.Table.{RoomTable, room_create}
use asciigame.World.{World, room_in, into_room}
use asciigame.Handler.Lobby.{handler_create_room, enter_created, is_lobby}
use asciigame.Handler.Refused.{OnlyError, refuse-OnlyError}

abbrev added_room : Text → ℤ → RoomTable → ℕ → RoomTable
added_room name m t i = record {
  rooms = set t.rooms i (some (new_room t.next_room_id name m));
  next_room_id = t.next_room_id +ℤ pos 1;
}

room_create-cases :
    (name : Text) (m : ℤ) (t : RoomTable)
    → (room_create name m t ≡ (t, none))
      ⊎ ((i : ℕ) × (free_slot t.rooms ≡ some i)
          × (room_create name m t ≡ (added_room name m t i, some i)))
unfolding room_create
room_create-cases name m t = elim (Bool-cases (is_empty name)) [
  | inl b ↦ inl (rw (b, room_create) refl)
  | inr b ↦ elim (Option-cases (free_slot t.rooms)) [
    | inl n ↦ inl (rw (b, n, room_create) refl)
    | inr (k, n) ↦ inr (k, n, rw (b, n, room_create) refl)
  ]
]

room_in-set :
    (rs : List (Option Room)) (i : ℕ) (r : Room)
    → free_slot rs ≡ some i
    → room_in (set rs i (some r)) i ≡ some r
unfolding free_slot
room_in-set [] i r e = absurd (cc)
room_in-set (none ∷ rs) zero r e = refl
room_in-set (none ∷ rs) (suc i) r e = absurd (ground arith)
room_in-set (some q ∷ rs) i r e =
    let (k, n, h) = later-eq-some (free_slot rs) i e in rw h (room_in-set rs k r n)

create_joined :
    (w : World) (s : ℕ) (p : Player) (id : ℤ) (name : Text) (m : ℤ)
    → player_at w.table.slots s ≡ some p
    → ltb_ℤ m (pos min_room_players) ≡ false
    → ltb_ℤ (pos max_room_players) m ≡ false
    → (room_add_player (into_room w (new_room id name m)) s).1 ≡ joined
unfolding room_add_player free_seat new_room
create_joined w s p id name m e h g =
    let c : leb_ℤ m (pos 0) ≡ false = ground arith in
    rw (e, room_add_player) (rw (h, g) (rw c refl))

enter_created-joined :
    (w : World) (s i : ℕ) (r : Room)
    → room_in w.rooms.rooms i ≡ some r
    → (room_add_player (into_room w r) s).1 ≡ joined
    → (enter_created s i w).1 ≡ true
unfolding enter_created
enter_created-joined w s i r e j = rw (e, j, enter_created) refl

pub handler_create_room-OnlyError :
    (s : ℕ) (p : Player) (args : List Text) (w : World)
    → player_at w.table.slots s ≡ some p
    → OnlyError s w (handler_create_room s p args w)
unfolding handler_create_room
handler_create_room-OnlyError s p [] w e =
    refuse-OnlyError s _ (codes "Usage: CREATE_ROOM|name|max_players") w
handler_create_room-OnlyError s p (name ∷ []) w e =
    refuse-OnlyError s _ (codes "Usage: CREATE_ROOM|name|max_players") w
handler_create_room-OnlyError s p (name ∷ number ∷ args) w e =
    let m = atoi number in
    elim (Bool-cases (is_lobby p.status)) [
      | inr f ↦ simp f (refuse-OnlyError s _ (codes "Must be in lobby") w)
      | inl f ↦ elim (Bool-cases (ltb_ℤ m (pos min_room_players))) [
        | inl b ↦ simp (f, b) (refuse-OnlyError s _ (codes "Invalid max players (6-10)") w)
        | inr b ↦ elim (Bool-cases (ltb_ℤ (pos max_room_players) m)) [
          | inl c ↦ simp (f, b, c) (refuse-OnlyError s _ (codes "Invalid max players (6-10)") w)
          | inr c ↦ elim (room_create-cases name m w.rooms) [
            | inl n ↦ simp (f, b, c, n) (refuse-OnlyError s _ (codes "Failed to create room") w)
            | inr (i, n, k) ↦
                let here = room_in-set w.rooms.rooms i (new_room w.rooms.next_room_id name m) n in
                let created : World = record w { rooms = added_room name m w.rooms i } in
                let entered = create_joined created s p w.rooms.next_room_id name m e b c in
                let done = enter_created-joined created s i _ here entered in
                simp (f, b, c, k) (λ z. absurd (cc))
          ]
        ]
      ]
    ]
