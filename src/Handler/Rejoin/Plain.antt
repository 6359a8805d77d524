-- ===== src/Handler/Rejoin/Plain.antt =====
-- `handler_process` uses the `handler_login` of Handler/Process, for a user whom no recovery file
-- names; here it is compared with the whole function.
use asciigame.Base.{ℕ, ◌≡◌, refl, ap, true, List, ◌∷◌, none, ℤ, Bool-cases, Option-cases, inl, inr}
use asciigame.Text.{Text}
use asciigame.GameMap.{GameMap}
use asciigame.Player.{Player, player_find_by_username}
use asciigame.Storage.{storage_verify_user, Verified, verified, no_user, wrong_password}
use asciigame.World.{change}
use asciigame.Handler.Process.{is_connected, log_in, login_reply, handler_login}
use asciigame.Recovery.Saved.Reading.{recovery_check_player}
use asciigame.Recovery.Rejoin.Restore.{RejoinState}
use asciigame.Handler.Rejoin.{rejoin_reply, welcome_or_rejoin, in_world, handler_login_or_rejoin}

-- The reply is that of the plain login.
reply_same :
    (now : ℤ) (unknown : GameMap) (s : ℕ) (p : Player) (username : Text) (v : Verified)
    (st : RejoinState)
    → recovery_check_player username st.files ≡ none
    → let (w, ok) = login_reply s p username v st.world in
      rejoin_reply now unknown s p username v st ≡ (record st { world = w }, ok)
reply_same now unknown s p username no_user st e = refl
reply_same now unknown s p username wrong_password st e = refl
reply_same now unknown s p username verified st e =
    ap (λ o. (welcome_or_rejoin now unknown s p (in_world (change s (log_in username)) st) o, true))
      e

-- A login for which no recovery file names a living player of the name is the plain login: the same
-- messages, world and result, and the files and the table of recovered rooms are left alone.
pub handler_login_or_rejoin-handler_login :
    (now : ℤ) (unknown : GameMap) (s : ℕ) (p : Player) (username password : Text) (rest : List Text)
    (st : RejoinState)
    → recovery_check_player username st.files ≡ none
    → let (w, ok) = handler_login s p (username ∷ password ∷ rest) st.world in
      handler_login_or_rejoin now unknown s p (username ∷ password ∷ rest) st
      ≡ (record st { world = w }, ok)
unfolding handler_login_or_rejoin handler_login
handler_login_or_rejoin-handler_login now unknown s p username password rest st e =
    elim (Bool-cases (is_connected p.status)) [
      | inr late ↦ rw late refl
      | inl early ↦
          rw early (elim (Option-cases (player_find_by_username st.world.table.slots username)) [
            | inl free ↦ rw free (
                reply_same now unknown s p username
                  (storage_verify_user username password st.world.users) st e)
            | inr (i, online) ↦ rw online refl
          ])
    ]
