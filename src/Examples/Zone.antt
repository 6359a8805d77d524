-- ===== src/Examples/Zone.antt =====
-- Items, the poison and the end of a game.
use asciigame.Base.{
  ◌≡◌, refl, ◌⊎◌, arith, pos, ◌≤ℤ◌, ◌<ℤ◌, ◌-ℤ◌, ltb_ℤ, leb_ℤ, ◌&&◌, not, ◌∷◌, some, true, false,
  get_elem?, [], if◌then◌else◌,
}
use asciigame.Config.{poison_start_time, poison_shrink_interval, game_max_duration}
use asciigame.Text.{Text}
use asciigame.GameMap.{map_is_in_poison}
use asciigame.Player.{Player, ItemType, player_at, player_dead}
use asciigame.Player.Inventory.{items, remove_at}
use asciigame.Player.Pointwise.{map_player}
use asciigame.Player.Seated.{is_seated}
use asciigame.Protocol.{protocol_extract_message, no_message}
use asciigame.Room.{Arena}
use asciigame.Game.Buffs.{game_update_buffs}
use asciigame.Game.Buffs.Expiry.{game_update_buffs_lem}
use asciigame.Game.UseItem.{game_handle_use_item}
use asciigame.Game.UseItem.Effect.{Effect, use_item-Effect}
use asciigame.Game.Poison.{game_update_poison, game_apply_poison_damage, poison_player}
use asciigame.Game.Poison.Radius.{game_update_poison_lem, poison_grows}
use asciigame.Game.Poison.Damage.{poisoned, game_apply_poison_damage_lem, poison_player_lem}
use asciigame.Game.Finish.{game_check_end, draw, go_on}
use asciigame.Game.Finish.Verdict.{IsVerdict, IsWaiting, game_check_end_lem}
use asciigame.Examples.{fighter, fight, duel, seats, duel-Distinct, seats-NoRepeat}
use asciigame.Examples.Players.{fighter-IsStocked}

abbrev ann : Player
ann = fighter (pos 1) (pos 5)

abbrev strong : Player
strong = record ann { atk = pos 30; atk_buff_expire = pos 900 }

abbrev strong_fight : Arena
strong_fight = record fight { players = some strong ∷ [] }

game_update_buffs_lem_example :
    let b = game_update_buffs (pos 1000) 0 strong_fight in
    let Sent : Type 0 =
      (m : Text) × (b.sent ≡ (pos 7, m) ∷ strong_fight.sent)
      × (protocol_extract_message m 4096 ≡ (m, no_message)) in
    let remaining = pos 900 -ℤ pos 1000 in
    (ltb_ℤ (pos 0) strong.atk_buff_expire ≡ false → b ≡ strong_fight)
    × (ltb_ℤ (pos 0) strong.atk_buff_expire ≡ true
        → leb_ℤ remaining (pos 0) ≡ true
        → (player_at b.players 0
            ≡ some
                (record strong { atk = pos 20; atk_buff_expire = pos 0; atk_buff_warned = false }))
          × Sent)
    × (ltb_ℤ (pos 0) strong.atk_buff_expire ≡ true
        → leb_ℤ remaining (pos 0) ≡ false
        → (leb_ℤ remaining (pos 5000) && not strong.atk_buff_warned) ≡ true
        → (player_at b.players 0 ≡ some (record strong { atk_buff_warned = true })) × Sent)
    × (ltb_ℤ (pos 0) strong.atk_buff_expire ≡ true
        → leb_ℤ remaining (pos 0) ≡ false
        → (leb_ℤ remaining (pos 5000) && not strong.atk_buff_warned) ≡ false
        → b ≡ strong_fight)
game_update_buffs_lem_example = game_update_buffs_lem (pos 1000) 0 strong_fight strong 4096 refl

use_item-Effect_example :
    let (b, done) = game_handle_use_item (pos 1000) 0 (pos 0) fight in
    (done ≡ true)
    × (t : ItemType) × (q : Player) × (get_elem? (items ann) 0 ≡ some t)
    × (player_at b.players 0 ≡ some q)
    × (items q ≡ remove_at 0 (items ann))
    × Effect (pos 1000) t ann q
use_item-Effect_example =
    use_item-Effect (pos 1000) 0 0 fight ann refl (fighter-IsStocked (pos 1) (pos 5)) (omega arith)

game_update_poison_lem_example :
    let b = game_update_poison (pos 70000) fight in
    (b.players ≡ fight.players)
    × (((poison_start_time ≤ℤ pos 70000 -ℤ pos 0)
          × (poison_shrink_interval ≤ℤ pos 70000 -ℤ pos 0)
          × (pos 1 <ℤ pos 10)
          × (b.room.poison_radius ≡ pos 10 -ℤ pos 1)
          × (b.room.last_poison_shrink ≡ pos 70000))
        ⊎ (((pos 70000 -ℤ pos 0 <ℤ poison_start_time)
              ⊎ (pos 70000 -ℤ pos 0 <ℤ poison_shrink_interval)
              ⊎ (pos 10 ≤ℤ pos 1))
            × (b ≡ fight)))
game_update_poison_lem_example = game_update_poison_lem (pos 70000) fight

poison_grows_example :
    let b = game_update_poison (pos 70000) fight in
    (pos 1 ≤ℤ b.room.poison_radius)
    × (b.room.poison_radius ≤ℤ pos 10)
    × (map_is_in_poison (pos 6) (pos 5) (pos 10) ≡ true
        → map_is_in_poison (pos 6) (pos 5) b.room.poison_radius ≡ true)
poison_grows_example = poison_grows (pos 70000) fight (pos 6) (pos 5) (omega arith)

poison_player_lem_example :
    let q = poison_player ann in
    (q.hp ≡ pos 90 -ℤ pos 1)
    × (pos 0 ≤ℤ q.hp)
    × (ann.hp ≡ pos 1 → q.status ≡ player_dead)
    × (pos 1 <ℤ pos 90 → q.status ≡ ann.status)
poison_player_lem_example = poison_player_lem ann (omega arith)

game_apply_poison_damage_lem_example :
    player_at (game_apply_poison_damage (pos 70000) fight).players 0
    ≡ map_player (λ q. if is_seated seats q then poisoned (pos 10) q else q) (player_at duel 0)
game_apply_poison_damage_lem_example =
    game_apply_poison_damage_lem (pos 70000) fight duel-Distinct seats-NoRepeat 0

game_check_end_lem_example :
    let (b, winner) = game_check_end (pos 1000) fight in
    (b.players ≡ fight.players)
    × (((game_max_duration ≤ℤ pos 1000 -ℤ pos 0) × (winner ≡ draw))
        ⊎ ((pos 1000 -ℤ pos 0 <ℤ game_max_duration)
            × ((IsWaiting (pos 1000) fight × (winner ≡ go_on))
                ⊎ (¬ IsWaiting (pos 1000) fight × IsVerdict fight winner))))
game_check_end_lem_example = game_check_end_lem (pos 1000) fight
