-- ===== src/Game/Attack.antt =====
-- `game_handle_attack`: the cooldown, and what each player of the room suffers.
pub mod Victim
pub mod Effect
pub mod Seat
use asciigame.Base.{
  ℕ, suc, ◌+◌, ◌≡◌, Bool, true, false, ◌&&◌, List, [], ◌∷◌, ◌++◌, Option, none, some, ℤ, pos, ◌-ℤ◌,
  leb, ltb_ℤ, leb_ℤ, ◌==ℤ◌, if◌then◌else◌,
}
use asciigame.Config.{attack_cooldown_ms, attack_range}
use asciigame.Text.{codes, snprintf}
use asciigame.GameMap.{map_distance}
use asciigame.Player.{Player, player_dead, player_at, player_find_by_id, update_player}
use asciigame.Wal.{wal_attack, wal_damage, wal_player_death}
use asciigame.Room.{Arena, log_action, entry, commas, is_alive}
use asciigame.Game.Event.{game_broadcast_event, game_calc_damage, bars}

-- The attack: who, from where, how strong, when.
pub record Blow : Type 0 where
  pub attacker_id : ℤ
  pub atk_x : ℤ
  pub atk_y : ℤ
  pub atk_power : ℤ
  pub now : ℤ

-- Within range, in the game and alive.
abbrev pub is_hit : Blow → Player → Bool
is_hit b target =
    leb (map_distance b.atk_x b.atk_y target.x target.y) attack_range && is_alive target

unfoldable pub break_shield : Player → Player
break_shield p = record p { has_shield = false }

unfoldable pub take_damage : Blow → Player → Player
take_damage b p = record p { hp = p.hp -ℤ game_calc_damage b.atk_power p.def }

unfoldable pub die : Player → Player
die p = record p { hp = pos 0; status = player_dead }

-- What happens to the target at slot `s` whose shield holds.
shield_holds : Blow → ℕ → Player → Arena → Arena
shield_holds b s target a =
    let broken : Arena = record a { players = update_player s break_shield a.players } in
    let wal_data = snprintf 256 (
      commas (
        entry (codes "atk") b.attacker_id
        ∷ entry (codes "vic") target.id
        ∷ codes "dmg=0"
        ∷ entry (codes "hp") target.hp
        ∷ codes "shield_broken=1"
        ∷ [])) in
    game_broadcast_event (codes "SHIELD") (snprintf 64 (bars (b.attacker_id ∷ target.id ∷ [])))
      (log_action b.now wal_damage wal_data broken)

-- The second part of a hit: the target is looked up again, and dies at no hit points.
check_death : Blow → ℤ → Arena → Arena
check_death b id a = elim (player_find_by_id a.players id) [
  | none ↦ a
  | some s ↦ elim (player_at a.players s) [
    | none ↦ a
    | some target ↦
        if leb_ℤ target.hp (pos 0)
        then game_broadcast_event (codes "KILL")
            (snprintf 128 (bars (b.attacker_id ∷ target.id ∷ [])))
            (log_action b.now wal_player_death
              (snprintf 128 (
                commas (entry (codes "pid") target.id ∷ entry (codes "killer") b.attacker_id ∷ [])))
              (record a { players = update_player s die a.players }))
        else a
  ]
]

hit_player : Blow → ℤ → ℕ → Player → Arena → Arena
hit_player b id s target a =
    let damage = game_calc_damage b.atk_power target.def in
    let hp = target.hp -ℤ damage in
    let hurt : Arena = record a { players = update_player s (take_damage b) a.players } in
    let wal_data = snprintf 256 (
      commas (
        entry (codes "atk") b.attacker_id
        ∷ entry (codes "vic") target.id
        ∷ entry (codes "dmg") damage
        ∷ entry (codes "hp") hp
        ∷ [])) in
    check_death b id (
      game_broadcast_event (codes "DAMAGE")
        (snprintf 64 (bars (b.attacker_id ∷ target.id ∷ damage ∷ hp ∷ [])))
        (log_action b.now wal_damage wal_data hurt))

-- One place of the room; the second part counts the hits.
unfoldable pub attack_seat : Blow → ℤ → Arena × ℕ → Arena × ℕ
unfolding shield_holds check_death hit_player
attack_seat b id (a, hit_count) =
    if ltb_ℤ id (pos 0) then (a, hit_count) else elim (player_find_by_id a.players id) [
      | none ↦ (a, hit_count)
      | some s ↦ elim (player_at a.players s) [
        | none ↦ (a, hit_count)
        | some target ↦
            if target.id ==ℤ b.attacker_id
            then (a, hit_count)
            else if is_hit b target
            then if target.has_shield
              then (shield_holds b s target a, hit_count)
              else (hit_player b id s target a, hit_count + 1)
            else (a, hit_count)
      ]
    ]

unfoldable pub attack_seats : Blow → List ℤ → Arena × ℕ → Arena × ℕ
unfolding attack_seat
attack_seats b [] st = st
attack_seats b (id ∷ ids) st = attack_seats b ids (attack_seat b id st)

unfoldable pub strike_at : ℤ → Player → Player
strike_at now p = record p { last_attack_time = now }

-- `false` is the return value -1, for an attack that is on cooldown.
unfoldable pub game_handle_attack : ℤ → ℕ → Arena → Arena × Bool
unfolding attack_seats strike_at
game_handle_attack now s a = elim (player_at a.players s) [
  | none ↦ (a, false)
  | some p ↦
      if ltb_ℤ (now -ℤ p.last_attack_time) attack_cooldown_ms
      then (a, false)
      else let b : Blow = record {
        attacker_id = p.id;
        atk_x = p.x;
        atk_y = p.y;
        atk_power = p.atk;
        now = now;
      } in
        let ready : Arena = record a { players = update_player s (strike_at now) a.players } in
        let wal_data = snprintf 256 (
          commas (
            entry (codes "pid") p.id
            ∷ entry (codes "x") p.x
            ∷ entry (codes "y") p.y
            ∷ entry (codes "atk") p.atk
            ∷ [])) in
        let told =
          game_broadcast_event (codes "ATTACK") (snprintf 64 (bars (p.id ∷ p.x ∷ p.y ∷ [])))
            (log_action now wal_attack wal_data ready) in
        let (hurt, hit_count) = attack_seats b told.room.player_ids (told, 0) in
        (
          game_broadcast_event (codes "ATTACK_RESULT")
              (snprintf 64 (bars (p.id ∷ pos hit_count ∷ []))) hurt,
          true,
        )
]
