-- ===== src/Examples/Crash.antt =====
-- A crash in a game of two players: their log and a snapshot.
use asciigame.Base.{
  ℕ, ◌<◌, ◌≤◌, ◌≡◌, refl, List, [], ◌∷◌, ◌++◌, Option, some, none, ℤ, pos, negsuc, replicate, arith,
  true, All, length, ◌==ℤ◌, if◌then◌else◌,
}
use asciigame.Config.{max_rooms}
use asciigame.Text.{Text, codes}
use asciigame.Text.Scan.{strip_prefix, cut}
use asciigame.GameMap.{map_generate}
use asciigame.Player.{player_gaming}
use asciigame.Room.{room_gaming}
use asciigame.Snapshot.{Snapshot}
use asciigame.Recovery.{RecoveryState, RecoveredPlayer}
use asciigame.Recovery.Replay.{parse_wal_file}
use asciigame.Recovery.Saved.{RecoveryFile, alive_count}
use asciigame.Recovery.Saved.Reading.{recovery_get_player_state}
use asciigame.Recovery.Saved.RoundTrip.{IsSavable, as_saved, first_living, map_option}
use asciigame.Recovery.Listing.{room_of_file, recovery_list_recoverable_rooms, is_recoverable}
use asciigame.Recovery.Listing.Complete.{
  IsUnique, IsId, Listed, recovery_list_recoverable_rooms_lem,
}
use asciigame.Recovery.Recover.{recovered, over, with_snapshot, with_name, recovery_recover_room}
use asciigame.Recovery.Recover.Outcomes.{recovery_recover_room_lem}

abbrev log : List Text
log =
    (codes "100|1|3|GAME_START|room_name=yard,max_players=4" ++ 10 ∷ [])
    ∷ (codes "100|2|3|PLAYER_JOIN|pid=1,username=ann,x=2,y=3,hp=90,inv=1,0,0,0,0" ++ 10 ∷ [])
    ∷ (codes "110|3|3|PLAYER_JOIN|pid=2,username=bob,x=4,y=3,hp=80,inv=0,0,0,0,0" ++ 10 ∷ [])
    ∷ []

abbrev player : ℤ → Text → ℤ → ℤ → ℤ → ℕ → RecoveredPlayer
player id name x hp item count = record {
  id = id;
  username = name;
  x = x;
  y = pos 3;
  hp = hp;
  max_hp = pos 100;
  atk = pos 15;
  def = pos 5;
  base_atk = pos 15;
  has_shield = pos 0;
  status = player_gaming;
  inventory = item ∷ replicate 4 (pos 0);
  inventory_count = count;
  atk_buff_expire = pos 0;
}

abbrev before_crash : RecoveryState
before_crash = record {
  room_id = pos 3;
  room_name = codes "yard";
  max_players = pos 4;
  players =
      player (pos 1) (codes "ann") (pos 2) (pos 90) (pos 1) 1
      ∷ player (pos 2) (codes "bob") (pos 4) (pos 80) (pos 0) 0
      ∷ [];
  grid = map_generate;
  poison_radius = pos 25;
  items = [];
  game_start_time = pos 100;
  last_timestamp = pos 110;
}

log_replayed : parse_wal_file (pos 900) log ≡ some before_crash
unfolding parse_wal_file
log_replayed = refl

abbrev snapshot : Snapshot
snapshot = record {
  timestamp = pos 105;
  room_data = record {
    room_id = pos 3;
    room_name = codes "yard";
    max_players = pos 4;
    player_count = pos 2;
    status = room_gaming;
    grid = codes "####" ∷ codes "#  #" ∷ [];
    poison_radius = pos 24;
    items = [];
    item_count = 0;
    game_start_time = pos 100;
    last_item_spawn = pos 100;
    last_poison_shrink = pos 100;
    player_ids = [];
  };
  players = [];
}

crash-IsSavable : IsSavable (with_name (pos 3) (with_snapshot (some snapshot) before_crash))
unfolding strip_prefix cut
crash-IsSavable = record {
  names =
      (((refl, (refl, (refl, tt))), omega arith), (((refl, (refl, (refl, tt))), omega arith), tt));
  rows = ((refl, refl), ((refl, refl), tt));
}

recovery_recover_room_lem_example :
    (1 < alive_count before_crash.players
      → (f : RecoveryFile) × (recovery_recover_room (pos 900) (pos 3) (some log) (some snapshot)
          ≡ recovered f)
        × ((username : Text)
            → recovery_get_player_state username (f ∷ [])
              ≡ map_option
                  (λ p. (pos 3, as_saved (pos 900) p))
                  (first_living username before_crash.players)))
    × (alive_count before_crash.players ≤ 1
        → recovery_recover_room (pos 900) (pos 3) (some log) (some snapshot) ≡ over)
recovery_recover_room_lem_example =
    recovery_recover_room_lem (pos 900) (pos 3) log (some snapshot) before_crash log_replayed
      (omega arith) crash-IsSavable

abbrev log_of : ℤ → Option (List Text)
log_of id = if id ==ℤ pos 3 then some log else none

abbrev no_snapshot : ℤ → Option Snapshot
no_snapshot id = none

abbrev file_names : List Text
file_names = codes "room_3.wal" ∷ codes "room_3.snap" ∷ codes "users.dat" ∷ []

recovery_list_recoverable_rooms_lem_example :
    let found = recovery_list_recoverable_rooms log_of no_snapshot max_rooms file_names in
    IsUnique found
    × All IsId found
    × All (λ id. is_recoverable log_of no_snapshot id ≡ true) found
    × (length found ≤ max_rooms)
    × (length found < max_rooms → All (Listed log_of no_snapshot found) file_names)
recovery_list_recoverable_rooms_lem_example =
    recovery_list_recoverable_rooms_lem log_of no_snapshot file_names

narrowed : room_of_file (codes "room_4294967299.wal") ≡ some (pos 3)
unfolding room_of_file
narrowed = refl

sign_bit : room_of_file (codes "room_2147483648.snap") ≡ some (negsuc 2147483647)
unfolding room_of_file
sign_bit = refl

largest_long : room_of_file (codes "room_99999999999999999999.wal") ≡ some (negsuc 0)
unfolding room_of_file
largest_long = refl
