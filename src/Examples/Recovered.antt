-- ===== src/Examples/Recovered.antt =====
-- A saved game of two players, one of them dead; a login; a message that is sent in
-- pieces.
use asciigame.Base.{
  ℕ, ◌+◌, ◌≡◌, ◌⊎◌, true, false, refl, ap, [], ◌∷◌, some, pos, replicate, arith, min,
}
use asciigame.Text.{codes, text_eq}
use asciigame.Text.Scan.{strip_prefix, cut}
use asciigame.GameMap.{map_generate}
use asciigame.Player.{Player, player_connected, player_gaming, player_dead}
use asciigame.Room.Table.{room_init}
use asciigame.Handler.Rejoin.{handler_login_or_rejoin}
use asciigame.Handler.Rejoin.Admission.{Admitted, TurnedAway, handler_login_or_rejoin_lem}
use asciigame.Recovery.Rejoin.Restore.{RejoinState}
use asciigame.Examples.{fighter, duel}
use asciigame.Network.{Sent, took, IsBounded, IsResult, send_all, send_all_ends}
use asciigame.Recovery.{RecoveryState, RecoveredPlayer}
use asciigame.Recovery.Saved.{save_recovery_info}
use asciigame.Recovery.Saved.Reading.{recovery_get_player_state}
use asciigame.Recovery.Saved.RoundTrip.{
  IsSavable, as_saved, recovery_get_player_state-save_recovery_info,
}

abbrev survivor : RecoveredPlayer
survivor = record {
  id = pos 3;
  username = codes "ann";
  x = pos 6;
  y = pos 5;
  hp = pos 40;
  max_hp = pos 100;
  atk = pos 25;
  def = pos 5;
  base_atk = pos 15;
  has_shield = pos 1;
  status = player_gaming;
  inventory = pos 1 ∷ pos 3 ∷ replicate 3 (pos 0);
  inventory_count = 2;
  atk_buff_expire = pos 9000;
}

abbrev saved_game : RecoveryState
saved_game = record {
  room_id = pos 12;
  room_name = codes "yard";
  max_players = pos 4;
  players =
      record survivor { username = codes "bob"; hp = pos 0; status = player_dead } ∷ survivor ∷ [];
  grid = codes "####" ∷ codes "#  #" ∷ [];
  poison_radius = pos 20;
  items = [];
  game_start_time = pos 0;
  last_timestamp = pos 5000;
}

saved_game-IsSavable : IsSavable saved_game
unfolding strip_prefix cut
saved_game-IsSavable = record {
  names =
      (((refl, (refl, (refl, tt))), omega arith), (((refl, (refl, (refl, tt))), omega arith), tt));
  rows = ((refl, refl), ((refl, refl), tt));
}

recovery_get_player_state-save_recovery_info_example :
    recovery_get_player_state (codes "ann") (save_recovery_info (pos 6000) (pos 12) saved_game ∷ [])
    ≡ some (pos 12, as_saved (pos 6000) survivor)
unfolding text_eq
recovery_get_player_state-save_recovery_info_example =
    recovery_get_player_state-save_recovery_info (pos 6000) (pos 12) (codes "ann") saved_game
      saved_game-IsSavable

-- A connection of nobody yet, while ann and bob are in the game.
abbrev newcomer : Player
newcomer = record (fighter (pos 8) (pos 5)) { username = []; status = player_connected }

abbrev two_online : RejoinState
two_online = record {
  world = record {
    table = record { slots = duel; next_player_id = pos 3 };
    rooms = room_init (pos 1);
    users = [];
    sent = [];
    drawn = 0;
  };
  files = [];
  mapping = [];
}

handler_login_or_rejoin_lem_example :
    let (after, ok) =
      handler_login_or_rejoin
        (pos 5)
        map_generate
        0
        newcomer
        (codes "eve" ∷ codes "secret" ∷ [])
        two_online in
    ((ok ≡ true) × Admitted newcomer (codes "eve") (codes "secret") two_online.world)
    ⊎ ((ok ≡ false) × TurnedAway 0 newcomer (codes "eve") (codes "secret") two_online after)
handler_login_or_rejoin_lem_example =
    handler_login_or_rejoin_lem (pos 5) map_generate 0 newcomer (codes "eve") (codes "secret") []
      two_online

-- Three bytes at a time.
abbrev in_pieces : ℕ → ℕ → Sent
in_pieces k m = took (min m 3)

taken_by : Sent → ℕ
taken_by (took n) = n
taken_by _ = 0

in_pieces-IsBounded : IsBounded in_pieces
unfolding taken_by
in_pieces-IsBounded k m n e = let same : min m 3 ≡ n = ap taken_by e in omega (arith, same)

send_all_ends_example :
    (send_all in_pieces 10 (10 + 5) 0 0 ≡ send_all in_pieces 10 10 0 0)
    × IsResult 10 (send_all in_pieces 10 10 0 0)
send_all_ends_example = send_all_ends in_pieces 10 5 in_pieces-IsBounded
