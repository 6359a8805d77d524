-- ===== src/Examples/Fights.antt =====
-- Moves, attacks, items, the poison and the end of a game.
use asciigame.Base.{
  ◌≡◌, refl, ◌≢◌, ◌⊎◌, ℕ, pos, ◌≤ℤ◌, ◌<ℤ◌, ◌-ℤ◌, some, true, false, ◌+ℤ◌, if◌then◌else◌, abs,
}
use asciigame.Config.{attack_cooldown_ms}
use asciigame.GameMap.{map_generate, map_is_walkable, map_distance}
use asciigame.Player.{Player, player_at, update_player, player_find_by_id}
use asciigame.Player.Pointwise.{map_player}
use asciigame.Player.Seated.{is_seated}
use asciigame.Room.{write_wal}
use asciigame.Game.Move.{game_handle_move, moved}
use asciigame.Game.Move.Effect.{Moves, game_handle_move_lem, move_stays_inside}
use asciigame.Game.Attack.{Blow, is_hit, game_handle_attack, strike_at, attack_seat}
use asciigame.Game.Attack.Victim.{suffered}
use asciigame.Game.Attack.Effect.{blow_of, game_handle_attack_lem}
use asciigame.Game.Attack.Seat.{Spared, Shielded, Damaged, attack_seat_lem}
use asciigame.Examples.{fighter, fight, duel, seats, duel-Distinct, seats-NoRepeat}
use asciigame.Game.Pickup.{game_check_item_pickup}

abbrev ann : Player
ann = fighter (pos 1) (pos 5)

game_handle_move_lem_example :
    let (b, r) = game_handle_move (pos 1000) 0 b'D' fight in
    ((r ≡ moved) × (q : Player) × (player_at b.players 0 ≡ some q) × Moves fight (pos 1000) ann q)
    ⊎ ((r ≢ moved) × (b ≡ fight))
game_handle_move_lem_example = game_handle_move_lem (pos 1000) 0 b'D' fight ann refl

moves_down : (game_handle_move (pos 1000) 0 b'D' fight).1 ≡ moved
unfolding game_handle_move map_is_walkable map_generate ◌+ℤ◌ ◌-ℤ◌
moves_down = refl

abbrev ann_moved : Player
ann_moved = record ann { y = pos 6; last_move_time = pos 1000 }

stands_there : player_at (game_handle_move (pos 1000) 0 b'D' fight).0.players 0 ≡ some ann_moved
unfolding game_handle_move map_is_walkable map_generate ◌+ℤ◌ ◌-ℤ◌ game_check_item_pickup
    update_player write_wal
stands_there = refl

move_stays_inside_example :
    (pos 1 ≤ℤ pos 6) × (pos 6 ≤ℤ pos 48) × (pos 1 ≤ℤ pos 6) × (pos 6 ≤ℤ pos 18)
move_stays_inside_example =
    move_stays_inside (pos 1000) 0 b'D' fight ann ann_moved refl refl moves_down stands_there

game_handle_attack_lem_example :
    let (after, done) = game_handle_attack (pos 1000) 0 fight in
    ((done ≡ true)
      × (attack_cooldown_ms ≤ℤ pos 1000 -ℤ pos 0)
      × (player_at after.players 0 ≡ some (strike_at (pos 1000) ann))
      × ((j : ℕ)
          → 0 ≢ j
          → player_at after.players j
            ≡ map_player
                (λ q. if is_seated seats q then suffered (blow_of (pos 1000) ann) q else q)
                (player_at duel j)))
    ⊎ ((done ≡ false) × (pos 1000 -ℤ pos 0 <ℤ attack_cooldown_ms) × (after ≡ fight))
game_handle_attack_lem_example =
    game_handle_attack_lem (pos 1000) 0 fight ann refl duel-Distinct seats-NoRepeat

abbrev blow : Blow
blow = record {
  attacker_id = pos 2;
  atk_x = pos 6;
  atk_y = pos 6;
  atk_power = pos 20;
  now = pos 1000;
}

hits : is_hit blow ann ≡ true
unfolding map_distance ◌-ℤ◌ abs
hits = refl

attack_seat_lem_example :
    let (after, m) = attack_seat blow (pos 1) (fight, 0) in
    (q : Player) × (player_at after.players 0 ≡ some q)
    × (Spared blow ann q 0 m ⊎ Shielded blow ann q 0 m ⊎ Damaged blow ann q 0 m)
    × ((j : ℕ) → 0 ≢ j → player_at after.players j ≡ player_at duel j)
unfolding player_find_by_id
attack_seat_lem_example = attack_seat_lem blow (pos 1) 0 ann fight 0 refl refl refl
