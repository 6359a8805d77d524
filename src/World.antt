-- ===== src/World.antt =====
-- The state of the whole server, as the command handlers see it, and how the functions of one room
-- (on an `Arena`) work on it.
use asciigame.Base.{ℕ, zero, suc, List, [], ◌∷◌, Option, none, some, ℤ, set}
use asciigame.Text.{Text}
use asciigame.Player.{Player, PlayerTable, player_at, update_player}
use asciigame.Room.{Room, Arena}
use asciigame.Room.Table.{RoomTable}
use asciigame.Storage.{UserRecord}

pub record World : Type 0 where
  pub table : PlayerTable
  pub rooms : RoomTable
  pub users : List UserRecord
  pub sent : List (ℤ × Text)
  pub drawn : ℕ

-- The room in its slot.
abbrev pub room_in : List (Option Room) → ℕ → Option Room
room_in [] i = none
room_in (r ∷ rs) zero = r
room_in (r ∷ rs) (suc i) = room_in rs i

abbrev pub into_room : World → Room → Arena
into_room w r = record { room = r; players = w.table.slots; sent = w.sent; drawn = w.drawn }

-- The room goes back to slot `i`.
abbrev pub out_of_room : World → ℕ → Arena → World
out_of_room w i a = record w {
  table = record (w.table) { slots = a.players };
  rooms = record (w.rooms) { rooms = set w.rooms.rooms i (some a.room) };
  sent = a.sent;
  drawn = a.drawn;
}

-- `player_send` to the player of slot `s`.
abbrev pub send : ℕ → Text → World → World
send s msg w = elim (player_at w.table.slots s) [
  | none ↦ w
  | some p ↦ record w { sent = (p.fd, msg) ∷ w.sent }
]

abbrev pub change : ℕ → (Player → Player) → World → World
change s f w = record w { table = record (w.table) { slots = update_player s f w.table.slots } }
