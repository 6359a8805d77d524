-- ===== src/Room/Table.antt =====
-- The table of all rooms: server/room.c from `room_init` to `room_find_by_id`, and the room list.
-- A `Room *` is the index of its slot in the table.
use asciigame.Base.{
  ℕ, suc, ◌+◌, ◌-◌, List, [], ◌∷◌, ◌++◌, Option, none, some, ℤ, pos, ◌+ℤ◌, ◌==ℤ◌, Bool, true, false,
  ltb, if◌then◌else◌, length, take, replicate, set,
}
use asciigame.Config.{max_rooms, max_msg_len}
use asciigame.Text.{Text, codes}
use asciigame.Text.Decimal.{print_int}
use asciigame.Player.{free_slot, find_slot, is_empty}
use asciigame.Protocol.{protocol_build_room_list}
use asciigame.Room.{
  Room, RoomStatus, room_waiting, room_starting, room_gaming, room_ended, new_room,
}

pub record RoomTable : Type 0 where
  pub rooms : List (Option Room)
  pub next_room_id : ℤ

-- `max_id` is the greatest identifier of a log file that is still there.
unfoldable pub room_init : ℤ → RoomTable
room_init max_id = record { rooms = replicate max_rooms none; next_room_id = max_id +ℤ pos 1 }

unfoldable pub room_create : Text → ℤ → RoomTable → RoomTable × Option ℕ
unfolding free_slot new_room
room_create name max_players t = if is_empty name then (t, none) else elim (free_slot t.rooms) [
  | none ↦ (t, none)
  | some slot ↦ (
    record {
      rooms = set t.rooms slot (some (new_room t.next_room_id name max_players));
      next_room_id = t.next_room_id +ℤ pos 1;
    },
    some slot,
  )
]

-- The log of the room, its file and its snapshot go with it.
unfoldable pub room_destroy : ℕ → RoomTable → RoomTable
room_destroy slot t = record t { rooms = set t.rooms slot none }

unfoldable pub room_find_by_id : ℤ → RoomTable → Option ℕ
unfolding find_slot
room_find_by_id id t = find_slot (λ (r : Room). r.id ==ℤ id) t.rooms

abbrev pub count_rooms : List (Option Room) → ℕ
count_rooms [] = 0
count_rooms (none ∷ rs) = count_rooms rs
count_rooms (some r ∷ rs) = suc (count_rooms rs)

unfoldable pub room_get_count : RoomTable → ℕ
room_get_count t = count_rooms t.rooms

abbrev pub status_number : RoomStatus → ℤ
status_number room_waiting = pos 0
status_number room_starting = pos 1
status_number room_gaming = pos 2
status_number room_ended = pos 3

-- "%s%d,%s,%d,%d,%d"
abbrev pub room_text : Bool → Room → Text
room_text first r =
    (if first then [] else codes ";")
    ++ (print_int r.id
        ++ b','
          ∷ (r.name
              ++ b','
                ∷ (print_int r.player_count
                    ++ b','
                      ∷ (print_int r.max_players ++ b',' ∷ print_int (status_number r.status)))))

-- The text up to `pos`, and what stands behind it after a room that did not fit.
abbrev pub list_rooms : List (Option Room) → Bool → Text → Text → Text
list_rooms [] first done tail = done ++ tail
list_rooms (none ∷ rs) first done tail = list_rooms rs first done tail
list_rooms (some r ∷ rs) first done tail =
    let written = room_text first r in
    let fitting = list_rooms rs false (done ++ written) [] in
    let cut = list_rooms rs first done (take (max_msg_len - 1 - length done) written) in
    if ltb (length done + length written) max_msg_len then fitting else cut

unfoldable pub room_get_list : ℕ → RoomTable → Text
room_get_list max_len t = protocol_build_room_list max_len (list_rooms t.rooms true [] [])
