-- ===== src/Game/Move/Effect.antt =====
-- What a move changes.
use asciigame.Base.{
  ℕ, ◌≡◌, refl, ap, ◌∙◌, ◌≢◌, ◌⊎◌, inl, inr, true, false, arith, some, ℤ, pos, ◌≤ℤ◌, ◌-ℤ◌, ◌+ℤ◌,
  Bool-cases, Option-cases, int_laws, ltb_ℤ, abs,
}
use asciigame.Config.{move_cooldown_ms}
use asciigame.GameMap.{map_is_walkable, map_distance, map_generate}
use asciigame.GameMap.Cells.{map_generate_closed}
use asciigame.Player.{Player, player_at, update_player, player_add_item, ItemType}
use asciigame.Player.Update.{player_at-update_self}
use asciigame.Room.{Arena, Room}
use asciigame.Game.Pickup.{game_check_item_pickup}
use asciigame.Game.Pickup.Effect.{pickup_players}
use asciigame.Game.Move.{game_handle_move, step_from, moved, place_player}

-- A step goes to a position at distance exactly 1, whatever the letter that is accepted.
pub step_from_distance :
    (x y : ℤ) (direction : ℕ) (nx ny : ℤ)
    → step_from x y direction ≡ some (nx, ny)
    → map_distance x y nx ny ≡ 1
unfolding step_from map_distance
step_from_distance x y direction nx ny e =
    ground (arith, stay x, stay y, down x, down y, up x, up y)
  where
    stay : (a : ℤ) → abs (a -ℤ a) ≡ 0
    stay a = omega int_laws

    down : (a : ℤ) → abs (a -ℤ (a -ℤ pos 1)) ≡ 1
    down a = omega int_laws

    up : (a : ℤ) → abs (a -ℤ (a +ℤ pos 1)) ≡ 1
    up a = omega int_laws

-- A player's new position and time, whatever an item picked up there adds to the inventory.
record Stands (nx ny now : ℤ) (q : Player) : Type 0 where
  at_x : q.x ≡ nx
  at_y : q.y ≡ ny
  at_time : q.last_move_time ≡ now

add_item-Stands :
    (nx ny now : ℤ) (p : Player) (t : ItemType)
    → Stands nx ny now (player_add_item (place_player now nx ny p) t).0
unfolding player_add_item place_player
add_item-Stands nx ny now p t = ground arith

place_player-Stands : (nx ny now : ℤ) (p : Player) → Stands nx ny now (place_player now nx ny p)
unfolding place_player
place_player-Stands nx ny now p = record { at_x = refl; at_y = refl; at_time = refl }

-- What a successful move does to the player.
pub record Moves (a : Arena) (now : ℤ) (p q : Player) : Type 0 where
  pub lands : map_is_walkable a.room.grid q.x q.y ≡ true
  pub adjacent : map_distance p.x p.y q.x q.y ≡ 1
  pub stamped : q.last_move_time ≡ now
  pub rested : move_cooldown_ms ≤ℤ now -ℤ p.last_move_time

-- The slot of the moving player after the pickup.
after_pickup :
    (now : ℤ) (s : ℕ) (nx ny : ℤ) (room : Room) (a : Arena) (p : Player)
    → player_at a.players s ≡ some p
    → let b =
        game_check_item_pickup now s (record a {
          room = room;
          players = update_player s (place_player now nx ny) a.players;
        }) in
      (q : Player) × (player_at b.players s ≡ some q) × Stands nx ny now q
after_pickup now s nx ny room a p e =
    let placed = update_player s (place_player now nx ny) a.players in
    let there = player_at-update_self a.players s (place_player now nx ny) p e in
    elim (pickup_players now s (record a { room = room; players = placed })) [
      | inl k ↦ (
        place_player now nx ny p,
        ap (λ ps. player_at ps s) k ∙ there,
        place_player-Stands nx ny now p,
      )
      | inr (t, k) ↦ (
        (player_add_item (place_player now nx ny p) t).0,
        ap (λ ps. player_at ps s) k
            ∙ player_at-update_self placed s (λ q. (player_add_item q t).0) _ there,
        add_item-Stands nx ny now p t,
      )
    ]

Stands-Moves :
    (now : ℤ) (a : Arena) (p q : Player) (nx ny : ℤ)
    → Stands nx ny now q
    → ltb_ℤ (now -ℤ p.last_move_time) move_cooldown_ms ≡ false
    → map_is_walkable a.room.grid nx ny ≡ true
    → map_distance p.x p.y nx ny ≡ 1
    → Moves a now p q
Stands-Moves now a p q nx ny v rested walk near = record {
  lands = rw (v.at_x, v.at_y) walk;
  adjacent = rw (v.at_x, v.at_y) near;
  stamped = v.at_time;
  rested = ground arith;
}

move_accepted :
    (now : ℤ) (s direction : ℕ) (a : Arena) (p : Player) (nx ny : ℤ)
    → player_at a.players s ≡ some p
    → ltb_ℤ (now -ℤ p.last_move_time) move_cooldown_ms ≡ false
    → step_from p.x p.y direction ≡ some (nx, ny)
    → map_is_walkable a.room.grid nx ny ≡ true
    → let (b, r) = game_handle_move now s direction a in
      (r ≡ moved) × (q : Player) × (player_at b.players s ≡ some q) × Moves a now p q
unfolding game_handle_move
move_accepted now s direction a p nx ny e rested st walk =
    rw (e, game_handle_move)
      (rw rested (
        rw (st, game_handle_move)
          (rw walk (
            let (q, g, v) = after_pickup now s nx ny _ a p e in
            (
              refl,
              q,
              g,
              Stands-Moves now a p q nx ny v rested walk
                  (step_from_distance p.x p.y direction nx ny st),
            )))))

-- A move succeeds or is refused. When it succeeds, the player stands on a walkable cell at distance
-- 1 from before, the cooldown since the last move was over, and the clock is noted for the next
-- one. When it is refused, nothing at all changes.
pub game_handle_move_lem :
    (now : ℤ) (s direction : ℕ) (a : Arena) (p : Player)
    → player_at a.players s ≡ some p
    → let (b, r) = game_handle_move now s direction a in
      ((r ≡ moved) × (q : Player) × (player_at b.players s ≡ some q) × Moves a now p q)
      ⊎ ((r ≢ moved) × (b ≡ a))
game_handle_move_lem now s direction a p e =
    elim (Bool-cases (ltb_ℤ (now -ℤ p.last_move_time) move_cooldown_ms)) [
      | inl cold ↦
          inr (unfold game_handle_move in rw (e, game_handle_move) (rw cold (λ k. cc, refl)))
      | inr rested ↦ elim (Option-cases (step_from p.x p.y direction)) [
        | inl n ↦ inr (
            unfold game_handle_move in
            rw (e, game_handle_move) (rw rested (rw (n, game_handle_move) (λ k. cc, refl))))
        | inr ((nx, ny), st) ↦ elim (Bool-cases (map_is_walkable a.room.grid nx ny)) [
          | inl walk ↦ inl (move_accepted now s direction a p nx ny e rested st walk)
          | inr wall ↦ inr (
              unfold game_handle_move in
              rw (e, game_handle_move)
                (rw rested (rw (st, game_handle_move) (rw wall (λ k. cc, refl)))))
        ]
      ]
    ]

-- On the generated map a player can never stand on the border or leave the map by moving.
pub move_stays_inside :
    (now : ℤ) (s direction : ℕ) (a : Arena) (p q : Player)
    → a.room.grid ≡ map_generate
    → player_at a.players s ≡ some p
    → (game_handle_move now s direction a).1 ≡ moved
    → player_at (game_handle_move now s direction a).0.players s ≡ some q
    → (pos 1 ≤ℤ q.x) × (q.x ≤ℤ pos 48) × (pos 1 ≤ℤ q.y) × (q.y ≤ℤ pos 18)
move_stays_inside now s direction a p q g e r k =
    elim (game_handle_move_lem now s direction a p e) [
      | inl (_, q', k', v) ↦
          let same : q' ≡ q = ground arith in map_generate_closed q.x q.y (rw (← same, ← g) v.lands)
      | inr (n, _) ↦ absurd (n r)
    ]
