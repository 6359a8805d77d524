-- ===== src/Examples/Accounts.antt =====
-- An account, the digest of its password, and a server with two players to whom a command is refused.
use asciigame.Base.{ℕ, ◌*◌, ◌≡◌, ◌≢◌, refl, false, [], ◌∷◌, none, some, ℤ, pos, replicate}
use asciigame.Text.{Text, codes}
use asciigame.Protocol.{Message, cmd_move}
use asciigame.Storage.{
  storage_register_user, storage_verify_user, registered, verified, no_user, wrong_password,
}
use asciigame.Storage.Sha256.{sha256, sha256_transform}
use asciigame.Storage.Accounts.{storage_register_user_lem}
use asciigame.World.{World}
use asciigame.Handler.{send_error}
use asciigame.Handler.Process.{handler_process}
use asciigame.Handler.Refused.Every.{handler_process_refused}
use asciigame.Examples.{fighter, yard, duel}
use asciigame.Examples.Players.{fighter-IsStocked}

-- The digest of "abc" in the text of the standard.
sha256_abc :
    sha256 (codes "abc") ≡ codes "ba7816bf8f01cfea414140de5dae2223b00361a396177a9cb410ff61f20015ad"
unfolding sha256 sha256_transform
sha256_abc = refl

storage_register_user_lem_example :
    let (after, r) = storage_register_user (codes "ann") (codes "abc") [] in
    (r ≢ registered → after ≡ [])
    × (r ≡ registered
        → (storage_verify_user (codes "ann") (codes "abc") [] ≡ no_user)
          × (storage_verify_user (codes "ann") (codes "abc") after ≡ verified)
          × ((other : Text)
              → sha256 (codes "abc") ≢ sha256 other
              → storage_verify_user (codes "ann") other after ≡ wrong_password)
          × ((name q : Text)
              → codes "ann" ≢ name
              → storage_verify_user name q after ≡ storage_verify_user name q []))
storage_register_user_lem_example = storage_register_user_lem (codes "ann") (codes "abc") []

abbrev two_players : World
two_players = record {
  table = record { slots = duel; next_player_id = pos 3 };
  rooms = record { rooms = some yard ∷ replicate 31 none; next_room_id = pos 2 };
  users = [];
  sent = [];
  drawn = 0;
}

abbrev sideways : Message
sideways = record { type = cmd_move; args = codes "X" ∷ [] }

abbrev sevens : ℕ → ℕ
sevens n = n * 7

sideways_refused : (handler_process sevens (pos 1000) [] 0 sideways two_players).1 ≡ false
unfolding handler_process
sideways_refused = refl

handler_process_refused_example :
    (code : ℤ) × (message : Text) × ((handler_process sevens (pos 1000) [] 0 sideways two_players).0
      ≡ send_error 0 code message two_players)
handler_process_refused_example =
    handler_process_refused sevens (pos 1000) [] 0 (fighter (pos 1) (pos 5)) two_players sideways
      refl (fighter-IsStocked (pos 1) (pos 5)) sideways_refused
