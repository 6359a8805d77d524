-- ===== src/Examples.antt =====
-- The properties at concrete inputs: two players, at two places of a room of four, on the map of the
-- game.
mod Text
mod Board
mod Players
mod Rooms
mod Fights
mod Zone
mod Accounts
mod Logs
mod Logging
mod Loop
mod Client
mod Tick
mod Recovered
mod Crash
use asciigame.Base.{
  zero, suc, ◌≡◌, refl, ap, sym, ◌∙◌, ◌≢◌, true, false, List, [], ◌∷◌, Option, none, some, ℤ, pos,
  negsuc, arith, replicate, ==ℤ_iff, ◌==ℤ◌,
}
use asciigame.Config.{max_map_items}
use asciigame.Text.{codes}
use asciigame.GameMap.{map_generate}
use asciigame.Player.{Player, player_gaming, item_none, item_health}
use asciigame.Player.Update.{Distinct}
use asciigame.Player.Seated.{NoRepeat}
use asciigame.Room.{Room, Arena, room_waiting, no_item}

-- A player with one health potion at column 6 and the given line; the last action was at time 0.
abbrev pub fighter : ℤ → ℤ → Player
fighter id y = record {
  fd = pos 7;
  id = id;
  username = codes "ann";
  room_id = pos 1;
  status = player_gaming;
  x = pos 6;
  y = y;
  hp = pos 90;
  max_hp = pos 100;
  atk = pos 20;
  def = pos 5;
  base_atk = pos 20;
  last_move_time = pos 0;
  last_attack_time = pos 0;
  inventory = item_health ∷ replicate 4 item_none;
  inventory_count = 1;
  has_shield = false;
  atk_buff_expire = pos 0;
  atk_buff_warned = false;
  recv_buf = [];
}

abbrev pub seats : List ℤ
seats = pos 1 ∷ pos 2 ∷ replicate 8 (negsuc 0)

abbrev pub yard : Room
yard = record {
  id = pos 1;
  name = codes "yard";
  max_players = pos 4;
  player_ids = seats;
  player_count = pos 2;
  status = room_waiting;
  grid = map_generate;
  items = replicate max_map_items no_item;
  item_count = 0;
  poison_radius = pos 10;
  game_start_time = pos 0;
  last_item_spawn = pos 0;
  last_poison_shrink = pos 0;
  countdown_start = pos 0;
  game_thread_running = true;
  wal = none;
  is_recovery_room = false;
  expected_players = pos 0;
  recovery_start_time = pos 0;
  original_room_id = negsuc 0;
  last_snapshot_time = pos 0;
}

abbrev pub duel : List (Option Player)
duel = some (fighter (pos 1) (pos 5)) ∷ some (fighter (pos 2) (pos 6)) ∷ []

abbrev pub fight : Arena
fight = record { room = yard; players = duel; sent = []; drawn = 0 }

id_of : Option Player → ℤ
id_of none = pos 0
id_of (some p) = p.id

one≢two : pos 1 ≢ pos 2
one≢two e = ground (arith, e)

pub duel-Distinct : Distinct duel
unfolding id_of
duel-Distinct zero zero p q e f h = refl
duel-Distinct zero (suc zero) p q e f h = absurd (one≢two (ap id_of e ∙ h ∙ sym (ap id_of f)))
duel-Distinct zero (suc (suc j)) p q e f h = absurd (cc)
duel-Distinct (suc zero) zero p q e f h = absurd (one≢two (ap id_of f ∙ sym h ∙ sym (ap id_of e)))
duel-Distinct (suc zero) (suc zero) p q e f h = refl
duel-Distinct (suc zero) (suc (suc j)) p q e f h = absurd (cc)
duel-Distinct (suc (suc i)) j p q e f h = absurd (cc)

pub seats-NoRepeat : NoRepeat seats
seats-NoRepeat = (λ p h. ground (arith, h), (λ p h. refl, free))
  where
    free : NoRepeat (replicate 8 (negsuc 0))
    free = (
      λ p h. refl,
      (
        λ p h. refl,
        (
          λ p h. refl,
          (λ p h. refl, (λ p h. refl, (λ p h. refl, (λ p h. refl, (λ p h. refl, tt))))),
        ),
      ),
    )
