-- ===== src/Game/Logging/Moving.antt =====
-- What a move writes to the log: itself, and the item that it reaches.
use asciigame.Base.{
  ℕ, suc, ◌≡◌, ◌≤◌, take, ◌⊎◌, refl, ap, ◌∙◌, true, false, some, ℤ, pos, ◌+ℤ◌, ◌-ℤ◌, inl, inr,
  ltb_ℤ,
}
use asciigame.Config.{move_cooldown_ms, max_inventory}
use asciigame.Text.{snprintf}
use asciigame.GameMap.{map_is_walkable, MapItemType}
use asciigame.Player.{Player, player_at, update_player}
use asciigame.Player.Update.{player_at-update_self}
use asciigame.Wal.{WalManager, wal_write, wal_move}
use asciigame.Wal.Actions.{wal_write_lem}
use asciigame.Room.{Arena, log_action, write_wal}
use asciigame.Room.Start.{map_item_number}
use asciigame.Game.Pickup.{game_check_item_pickup}
use asciigame.Game.Move.{game_handle_move, step_from, place_player}
use asciigame.Recovery.Meaning.{stamped}
use asciigame.Recovery.{RecoveryState}
use asciigame.Recovery.Events.{GameEvent, moves, picks_up, text_of, effect}
use asciigame.Recovery.Events.Written.{IsInt}
use asciigame.Recovery.Events.Replayed.{IsStamped}
use asciigame.Recovery.Events.Logged.{next_of, ReplaysTo, wal_write-replays}
use asciigame.Game.Pickup.Found.{NothingAt}
use asciigame.Game.Logging.{Replayed, Took, write_wal-wal, game_check_item_pickup-Replayed}

module _ (clock : ℤ) (start : RecoveryState) (now : ℤ) (a : Arena) (w : WalManager) (k : ℕ)
    (state : RecoveryState) (s direction : ℕ) (p : Player) (nx ny : ℤ) where
  abbrev the_move : GameEvent
  the_move = moves p.id direction p.x p.y nx ny

  -- The log and the arena after the move, before the item.
  abbrev move_log : WalManager
  move_log = (wal_write now wal_move (snprintf 256 (text_of the_move)) w).0

  abbrev placed : Arena
  placed = record (log_action now wal_move (snprintf 256 (text_of the_move)) a) {
    players = update_player s (place_player now nx ny) a.players;
  }

  abbrev after_move : RecoveryState
  after_move = effect the_move (stamped w.room_id now k state)

  -- Let the log of the room replay to a state, and let the player of slot `s` make a move that is
  -- allowed. Then there is a log that replays to one record more and to what the event of that move,
  -- with the old and the new position, does to the state. Where the inventory is full or nothing lies at
  -- the new position, that is the log of the room afterwards, and the items are as before. Otherwise
  -- the first item that lies there is no longer on the map, and the log of the room
  -- replays to one record more again and to what the pickup at the new position of an item of
  -- just its type does. The numbers written are of type int, times and sequence numbers of type
  -- long.
  pub game_handle_move-Replayed :
      player_at a.players s ≡ some p
      → ltb_ℤ (now -ℤ p.last_move_time) move_cooldown_ms ≡ false
      → step_from p.x p.y direction ≡ some (nx, ny)
      → map_is_walkable a.room.grid nx ny ≡ true
      → a.room.wal ≡ some w
      → IsInt w.room_id
      → IsStamped (next_of now w the_move)
      → ((t : MapItemType)
          → IsStamped (record {
            timestamp = now;
            sequence = w.sequence +ℤ pos 1;
            event = picks_up p.id (map_item_number t) nx ny;
          }))
      → ReplaysTo clock start w k state
      → (w' : WalManager) × ReplaysTo clock start w' (suc k) after_move
        × let room = (game_handle_move now s direction a).0.room in
          (((room.wal ≡ some w')
              × (room.items ≡ a.room.items)
              × ((max_inventory ≤ p.inventory_count)
                  ⊎ NothingAt nx ny (take a.room.item_count a.room.items)))
            ⊎ Took nx ny p.inventory_count a.room.item_count a.room.items room.items λ item.
              Replayed clock start now w'
                (suc k)
                after_move
                (picks_up p.id (map_item_number item.type) nx ny)
                room.wal)
  unfolding game_handle_move place_player write_wal
  game_handle_move-Replayed e c f walk g i st pk r =
      let (seq, id, _, _) = wal_write_lem now wal_move (snprintf 256 (text_of the_move)) w in
      let here : player_at placed.players s ≡ some (place_player now nx ny p) =
        player_at-update_self a.players s (place_player now nx ny) p e in
      let logged : placed.room.wal ≡ some move_log =
        write_wal-wal now wal_move (snprintf 256 (text_of the_move)) a.room w g in
      let replays : ReplaysTo clock start move_log (suc k) after_move =
        wal_write-replays clock start now the_move w k state i st r in
      let pick =
        game_check_item_pickup-Replayed clock start now placed move_log (suc k) after_move s
          (place_player now nx ny p) here logged (rw id i) (λ t. rw seq (pk t)) replays in
      let runs : (game_handle_move now s direction a).0 ≡ game_check_item_pickup now s placed =
        rw (e, c, f, walk, game_handle_move) refl in
      (
        move_log,
        replays,
        elim pick [
          | inl (h, why) ↦ inl (
            ap (λ (b : Arena). b.room.wal) (runs ∙ h) ∙ logged,
            ap (λ (b : Arena). b.room.items) (runs ∙ h),
            why,
          )
          | inr took ↦ inr (rw runs took)
        ],
      )
