-- ===== src/Handler/Rejoin/Admission.antt =====
-- Whom `handler_login` lets in, the way back into a recovered game included.
use asciigame.Base.{
  ℕ, ◌≡◌, refl, ◌⊎◌, inl, inr, true, false, List, ◌∷◌, none, some, ℤ, Bool-cases, Option-cases,
}
use asciigame.Text.{Text}
use asciigame.GameMap.{GameMap}
use asciigame.Player.{Player, player_find_by_username}
use asciigame.Storage.{storage_verify_user, Verified, verified, no_user, wrong_password}
use asciigame.World.{World}
use asciigame.Handler.{send_error}
use asciigame.Handler.Process.{is_connected}
use asciigame.Handler.Rejoin.{handler_login_or_rejoin}
use asciigame.Recovery.Rejoin.Restore.{RejoinState}

-- The connection is new, nobody online has the name, and the password is that of the account.
abbrev pub Admitted : Player → Text → Text → World → Type 0
Admitted p username password w =
    (is_connected p.status ≡ true)
    × (player_find_by_username w.table.slots username ≡ none)
    × (storage_verify_user username password w.users ≡ verified)

-- One of the three is not so, and an error message is all that happens.
abbrev pub TurnedAway : ℕ → Player → Text → Text → RejoinState → RejoinState → Type 0
TurnedAway s p username password st after =
    ((is_connected p.status ≡ false)
      ⊎ ((i : ℕ) × (player_find_by_username st.world.table.slots username ≡ some i))
      ⊎ (storage_verify_user username password st.world.users ≡ no_user)
      ⊎ (storage_verify_user username password st.world.users ≡ wrong_password))
    × (code : ℤ) × (message : Text) × (after
        ≡ record st { world = send_error s code message st.world })

Verified-cases : (v : Verified) → (v ≡ verified) ⊎ ((v ≡ no_user) ⊎ (v ≡ wrong_password))
Verified-cases verified = inl refl
Verified-cases no_user = inr (inl refl)
Verified-cases wrong_password = inr (inr refl)

-- A login with a name and a password succeeds exactly for a new connection, a name that nobody online
-- has and the password of its account, whether it leads to the lobby or back into a recovered
-- game. Any other is answered by one error message, and nothing else changes: not the players, the
-- rooms and the accounts, and not the recovery files and the table of recovered rooms.
pub handler_login_or_rejoin_lem :
    (now : ℤ) (unknown : GameMap) (s : ℕ) (p : Player) (username password : Text) (rest : List Text)
    (st : RejoinState)
    → let (after, ok) = handler_login_or_rejoin now unknown s p (username ∷ password ∷ rest) st in
      ((ok ≡ true) × Admitted p username password st.world)
      ⊎ ((ok ≡ false) × TurnedAway s p username password st after)
unfolding handler_login_or_rejoin
handler_login_or_rejoin_lem now unknown s p username password rest st =
    elim (Bool-cases (is_connected p.status)) [
      | inr late ↦ rw late (inr (refl, (inl refl, _, _, refl)))
      | inl early ↦
          rw early (elim (Option-cases (player_find_by_username st.world.table.slots username)) [
            | inr (i, online) ↦ rw online (inr (refl, (inr (inl (i, refl)), _, _, refl)))
            | inl free ↦
                rw free
                  (elim (Verified-cases (storage_verify_user username password st.world.users)) [
                    | inl v ↦ rw v (inl (refl, (refl, refl, refl)))
                    | inr (inl v) ↦ rw v (inr (refl, (inr (inr (inl refl)), _, _, refl)))
                    | inr (inr v) ↦ rw v (inr (refl, (inr (inr (inr refl)), _, _, refl)))
                  ])
          ])
    ]
