-- ===== src/Handler/Rejoin.antt =====
-- `handler_login` with the way back into a recovered game.
pub mod Admission
pub mod Plain
use asciigame.Base.{
  ℕ, Bool, true, not, ◌&&◌, List, [], ◌∷◌, Option, none, some, ℤ, pos, leb_ℤ, ltb_ℤ, if◌then◌else◌,
}
use asciigame.Config.{
  max_msg_len, err_invalid_arg_count, err_invalid_credentials, err_user_logged_in,
}
use asciigame.Text.{Text, codes, snprintf}
use asciigame.Text.Decimal.{print_int}
use asciigame.GameMap.{GameMap}
use asciigame.Player.{Player, player_find_by_username}
use asciigame.Protocol.{line, protocol_build_game_start, protocol_build_room_info}
use asciigame.Protocol.MapData.{protocol_build_map_data}
use asciigame.Room.{Room}
use asciigame.Room.Table.{room_find_by_id, status_number}
use asciigame.Storage.{storage_verify_user, Verified, verified, no_user, wrong_password}
use asciigame.World.{World, room_in, send, change}
use asciigame.Handler.{refuse}
use asciigame.Handler.Process.{is_connected, log_in, welcome}
use asciigame.Recovery.Saved.Reading.{recovery_check_player}
use asciigame.Recovery.Rejoin.Restore.{
  RejoinState, recovery_restore_player_to_game, recovery_cleanup_room,
}

-- "OK|Login successful - Rejoining game|%d\n"
abbrev pub rejoin_welcome : ℤ → Text
rejoin_welcome id =
    snprintf max_msg_len
      (line (codes "OK") (codes "Login successful - Rejoining game" ∷ print_int id ∷ []))

abbrev pub in_world : (World → World) → RejoinState → RejoinState
in_world f st = record st { world = f st.world }

abbrev pub all_reconnected : Room → Bool
all_reconnected r = leb_ℤ r.expected_players r.player_count && ltb_ℤ (pos 0) r.expected_players

abbrev pub tell_room : ℕ → Room → World → World
tell_room s r w = send s (protocol_build_map_data max_msg_len r.grid) (
    send s
      (protocol_build_room_info max_msg_len r.id r.name r.player_count r.max_players
        (status_number r.status))
      w)

-- What the player is told after the way back, and the end of the recovery when all are there.
abbrev pub rejoined : ℕ → Player → ℤ → ℤ → RejoinState → RejoinState
rejoined s p original new_room_id st =
    let told =
      in_world
        (λ w. send s (protocol_build_game_start max_msg_len) (send s (rejoin_welcome p.id) w)) st in
    elim (room_find_by_id new_room_id told.world.rooms) [
      | none ↦ told
      | some i ↦ elim (room_in told.world.rooms.rooms i) [
        | none ↦ told
        | some r ↦
            let shown = in_world (tell_room s r) told in
            if all_reconnected r then recovery_cleanup_room original shown else shown
      ]
    ]

-- The player is logged in; `some original` is the room of a recoverable game.
abbrev pub welcome_or_rejoin : ℤ → GameMap → ℕ → Player → RejoinState → Option ℤ → RejoinState
welcome_or_rejoin now unknown s p st none = in_world (send s (welcome p.id)) st
welcome_or_rejoin now unknown s p st (some original) =
    let (restored, new_room) = recovery_restore_player_to_game now unknown s original st in
    elim new_room [
      | none ↦ in_world (send s (welcome p.id)) restored
      | some new_room_id ↦ rejoined s p original new_room_id restored
    ]

abbrev pub log_in_or_rejoin : ℤ → GameMap → ℕ → Player → Text → RejoinState → RejoinState
log_in_or_rejoin now unknown s p username st =
    welcome_or_rejoin now unknown s p (in_world (change s (log_in username)) st)
      (recovery_check_player username st.files)

abbrev pub refuse_with : ℕ → ℤ → Text → RejoinState → RejoinState × Bool
refuse_with s code words st =
    let (w, ok) = refuse s code words st.world in (record st { world = w }, ok)

abbrev pub rejoin_reply :
    ℤ → GameMap → ℕ → Player → Text → Verified → RejoinState → RejoinState × Bool
rejoin_reply now unknown s p username no_user st =
    refuse_with s err_invalid_credentials (codes "User not found") st
rejoin_reply now unknown s p username wrong_password st =
    refuse_with s err_invalid_credentials (codes "Invalid password") st
rejoin_reply now unknown s p username verified st =
    (log_in_or_rejoin now unknown s p username st, true)

unfoldable pub handler_login_or_rejoin :
    ℤ → GameMap → ℕ → Player → List Text → RejoinState → RejoinState × Bool
unfolding log_in player_find_by_username storage_verify_user print_int recovery_check_player
    recovery_restore_player_to_game recovery_cleanup_room room_find_by_id protocol_build_game_start
    protocol_build_room_info protocol_build_map_data
handler_login_or_rejoin now unknown s p (username ∷ password ∷ _) st =
    if not (is_connected p.status)
    then refuse_with s err_user_logged_in (codes "Already logged in") st
    else elim (player_find_by_username st.world.table.slots username) [
      | some _ ↦ refuse_with s err_user_logged_in (codes "User already online") st
      | none ↦
          rejoin_reply now unknown s p username
            (storage_verify_user username password st.world.users) st
    ]
handler_login_or_rejoin now unknown s p _ st =
    refuse_with s err_invalid_arg_count (codes "Usage: LOGIN|username|password") st
