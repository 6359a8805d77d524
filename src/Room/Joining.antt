-- ===== src/Room/Joining.antt =====
-- What joining and leaving a room do to its places, its count and the player.
use asciigame.Base.{
  ℕ, suc, ◌<◌, ◌≤◌, ◌≡◌, refl, sym, inl, inr, true, false, none, some, arith, pos, negsuc, ltb_ℤ,
  leb_ℤ, ◌+ℤ◌, ◌-ℤ◌, ◌==ℤ◌, length, set, length-set, Bool-cases,
}
use asciigame.Player.{Player, player_at, player_in_room, player_lobby}
use asciigame.Player.Update.{player_at-update_self}
use asciigame.Room.{
  Room, Arena, seat_of, room_add_player, room_remove_player, joined, room_full, in_progress, left,
  emptied, not_there, is_room_gaming, room_broadcast,
}
use asciigame.Room.Seats.{count_taken, free_seat_found, count_taken-take, count_taken-free}

-- The count is the number of taken places, and there are places for all the players allowed.
pub record IsSeated (r : Room) : Type 0 where
  pub capacity : ℕ
  pub allowed : r.max_players ≡ pos capacity
  pub room_for_all : capacity ≤ length r.player_ids
  pub counted : r.player_count ≡ pos (count_taken r.player_ids)
  pub within : count_taken r.player_ids ≤ capacity

+ℤ_pos : (c : ℕ) → pos c +ℤ pos 1 ≡ pos (suc c)
unfolding ◌+ℤ◌
+ℤ_pos c = ground arith

-ℤ_pos : (c : ℕ) → pos (suc c) -ℤ pos 1 ≡ pos c
unfolding ◌-ℤ◌
-ℤ_pos c = ground arith

-- A player with identifier n joins a well-formed room. If a game runs there, the room refuses and
-- nothing changes; if the room has as many players as allowed, it is full and nothing changes; in
-- each other case the player joins: a free place is found, the room stays well-formed with one
-- player more, and the player is in the room. So the loop over the places never fails.
pub room_add_player_lem :
    (a : Arena) (s n : ℕ) (p : Player)
    → IsSeated a.room
    → player_at a.players s ≡ some p
    → p.id ≡ pos n
    → let (b, r) = room_add_player a s in
      (is_room_gaming a.room.status ≡ true → (b ≡ a) × (r ≡ in_progress))
      × (is_room_gaming a.room.status ≡ false
          → leb_ℤ a.room.max_players a.room.player_count ≡ true
          → (b ≡ a) × (r ≡ room_full))
      × (is_room_gaming a.room.status ≡ false
          → leb_ℤ a.room.max_players a.room.player_count ≡ false
          → (r ≡ joined)
            × IsSeated b.room
            × (count_taken b.room.player_ids ≡ suc (count_taken a.room.player_ids))
            × (player_at b.players s
                ≡ some (record p { room_id = a.room.id; status = player_in_room })))
unfolding room_add_player room_broadcast
room_add_player_lem a s n p w e i =
    rw (e, room_add_player)
      (
        λ g. simp g (refl, refl),
        λ g f. simp (g, f) (refl, refl),
        λ g f.
            let fewer : count_taken a.room.player_ids < w.capacity =
              ground (arith, w.allowed, w.counted) in
            let more : count_taken a.room.player_ids < length a.room.player_ids =
              ground (arith, w.room_for_all) in
            let (seat, q) = free_seat_found a.room.player_ids more in
            let taken : count_taken (set a.room.player_ids seat p.id)
                ≡ suc (count_taken a.room.player_ids) =
              simp i (count_taken-take a.room.player_ids seat n q) in
            simp (g, f, q)
              (
                refl,
                record {
                  capacity = w.capacity;
                  allowed = w.allowed;
                  room_for_all = simp (length-set a.room.player_ids seat p.id) w.room_for_all;
                  counted = simp (taken, w.counted) (+ℤ_pos (count_taken a.room.player_ids));
                  within = simp taken (ground arith);
                },
                taken,
                player_at-update_self a.players s
                    (λ r. record r { room_id = a.room.id; status = player_in_room }) p e,
              ),
      )

-- A player with identifier n leaves a well-formed room. Without a place there, nothing changes and
-- the room says so. Otherwise the room stays well-formed with one player less, the player is back
-- in the lobby without a room, and the room reports itself emptied exactly when no place is taken.
pub room_remove_player_lem :
    (a : Arena) (s n : ℕ) (p : Player)
    → IsSeated a.room
    → player_at a.players s ≡ some p
    → p.id ≡ pos n
    → let (b, r) = room_remove_player a s in
      (seat_of p.id a.room.player_ids ≡ none → (b ≡ a) × (r ≡ not_there))
      × ((seat : ℕ)
          → seat_of p.id a.room.player_ids ≡ some seat
          → IsSeated b.room
            × (suc (count_taken b.room.player_ids) ≡ count_taken a.room.player_ids)
            × (player_at b.players s
                ≡ some (record p { room_id = negsuc 0; status = player_lobby }))
            × (count_taken b.room.player_ids ≡ 0 → r ≡ emptied)
            × (0 < count_taken b.room.player_ids → r ≡ left))
unfolding room_remove_player room_broadcast
room_remove_player_lem a s n p w e i =
    rw (e, room_remove_player)
      (
        λ q. simp q (refl, refl),
        λ seat q.
            let ids' = set a.room.player_ids seat (negsuc 0) in
            let c = count_taken ids' in
            let taken : suc c ≡ count_taken a.room.player_ids =
              count_taken-free a.room.player_ids seat n (simp i at q) in
            let remaining : a.room.player_count -ℤ pos 1 ≡ pos c =
              simp (w.counted, sym taken) (-ℤ_pos c) in
            let seated : IsSeated (record (a.room) { player_ids = ids'; player_count = pos c }) =
              record {
                capacity = w.capacity;
                allowed = w.allowed;
                room_for_all = simp (length-set a.room.player_ids seat (negsuc 0)) w.room_for_all;
                counted = refl;
                within = ground (arith, w.within);
              } in
            let back =
              player_at-update_self a.players s
                (λ r. record r { room_id = negsuc 0; status = player_lobby }) p e in
            elim (Bool-cases (pos c ==ℤ pos 0)) [
              | inl z ↦
                  simp (q, remaining, z)
                    (seated, taken, back, λ _. refl, λ l. absurd (ground arith))
              | inr z ↦
                  let l : ltb_ℤ (pos 0) (pos c) ≡ true = ground arith in
                  simp (q, remaining, z, l)
                    (seated, taken, back, λ m. absurd (ground arith), λ _. refl)
            ],
      )
