-- ===== src/Examples/Rooms.antt =====
-- The places of a room.
use asciigame.Base.{◌≡◌, refl, suc, arith, pos, negsuc, ◌<◌, some, none, true, false, leb_ℤ, ℕ}
use asciigame.Player.{player_at, player_in_room, player_lobby}
use asciigame.Room.{
  room_add_player, room_remove_player, joined, room_full, in_progress, left, emptied, not_there,
  is_room_gaming, seat_of,
}
use asciigame.Room.Seats.{count_taken}
use asciigame.Room.Joining.{IsSeated, room_add_player_lem, room_remove_player_lem}
use asciigame.Examples.{fighter, fight, yard, seats}

yard-IsSeated : IsSeated yard
yard-IsSeated = record {
  capacity = 4;
  allowed = refl;
  room_for_all = omega arith;
  counted = refl;
  within = omega arith;
}

room_add_player_lem_example :
    let (b, r) = room_add_player fight 1 in
    (is_room_gaming yard.status ≡ true → (b ≡ fight) × (r ≡ in_progress))
    × (is_room_gaming yard.status ≡ false
        → leb_ℤ yard.max_players yard.player_count ≡ true
        → (b ≡ fight) × (r ≡ room_full))
    × (is_room_gaming yard.status ≡ false
        → leb_ℤ yard.max_players yard.player_count ≡ false
        → (r ≡ joined)
          × IsSeated b.room
          × (count_taken b.room.player_ids ≡ suc (count_taken seats))
          × (player_at b.players 1
              ≡ some (record (fighter (pos 2) (pos 6)) {
                room_id = yard.id;
                status = player_in_room;
              })))
room_add_player_lem_example =
    room_add_player_lem fight 1 2 (fighter (pos 2) (pos 6)) yard-IsSeated refl refl

room_remove_player_lem_example :
    let (b, r) = room_remove_player fight 1 in
    (seat_of (pos 2) seats ≡ none → (b ≡ fight) × (r ≡ not_there))
    × ((seat : ℕ)
        → seat_of (pos 2) seats ≡ some seat
        → IsSeated b.room
          × (suc (count_taken b.room.player_ids) ≡ count_taken seats)
          × (player_at b.players 1
              ≡ some
                  (record (fighter (pos 2) (pos 6)) { room_id = negsuc 0; status = player_lobby }))
          × (count_taken b.room.player_ids ≡ 0 → r ≡ emptied)
          × (0 < count_taken b.room.player_ids → r ≡ left))
room_remove_player_lem_example =
    room_remove_player_lem fight 1 2 (fighter (pos 2) (pos 6)) yard-IsSeated refl refl
