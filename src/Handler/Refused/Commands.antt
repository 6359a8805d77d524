-- ===== src/Handler/Refused/Commands.antt =====
-- The refusals of the commands about accounts and of the list of rooms.
use asciigame.Base.{
  ℕ, ◌≡◌, ◌≢◌, refl, inl, inr, ◌||◌, List, [], ◌∷◌, Bool-cases, Option-cases, ltb, leb, length,
  ◌==◌,
}
use asciigame.Config.{max_username, max_users}
use asciigame.Text.{Text, codes}
use asciigame.Player.{Player, player_find_by_username}
use asciigame.Storage.{
  UserRecord, storage_register_user, storage_verify_user, Registered, registered, name_taken,
  refused, find_user, Verified, verified, no_user, wrong_password,
}
use asciigame.World.{World}
use asciigame.Handler.{before_lobby}
use asciigame.Handler.Lobby.{handler_register, handler_list_rooms, register_reply}
use asciigame.Handler.Process.{handler_login, login_reply, is_connected}
use asciigame.Handler.Refused.{OnlyError, refuse-OnlyError, success-OnlyError}

-- A registration that is refused stores nobody.
register_refused :
    (username password : Text) (users : List UserRecord)
    → (storage_register_user username password users).1 ≢ registered
    → (storage_register_user username password users).0 ≡ users
unfolding storage_register_user
register_refused username password users n = elim (Bool-cases (length username == 0)) [
  | inl a ↦ rw (a, storage_register_user) refl
  | inr a ↦ elim (Bool-cases (leb max_username (length username))) [
    | inl b ↦ rw (a, b, storage_register_user) refl
    | inr b ↦ elim (Option-cases (find_user username users)) [
      | inr (u, c) ↦ rw (a, b, c, storage_register_user) refl
      | inl c ↦ elim (Bool-cases (leb max_users (length users))) [
        | inl d ↦ rw (a, b, c, d, storage_register_user) refl
        | inr d ↦ absurd (n (rw (a, b, c, d, storage_register_user) refl))
      ]
    ]
  ]
]

register_reply-OnlyError :
    (s : ℕ) (w : World) (users : List UserRecord) (result : Registered)
    → (result ≢ registered → users ≡ w.users)
    → OnlyError s w (register_reply s result (record w { users = users }))
register_reply-OnlyError s w users registered h = λ e. absurd (cc)
register_reply-OnlyError s w users name_taken h =
    rw (h (λ e. cc)) (refuse-OnlyError s _ (codes "Username already exists") w)
register_reply-OnlyError s w users refused h =
    rw (h (λ e. cc)) (refuse-OnlyError s _ (codes "Registration failed") w)

pub handler_register-OnlyError :
    (s : ℕ) (args : List Text) (w : World) → OnlyError s w (handler_register s args w)
unfolding handler_register
handler_register-OnlyError s [] w =
    refuse-OnlyError s _ (codes "Usage: REGISTER|username|password") w
handler_register-OnlyError s (u ∷ []) w =
    refuse-OnlyError s _ (codes "Usage: REGISTER|username|password") w
handler_register-OnlyError s (u ∷ p ∷ args) w =
    elim (Bool-cases (ltb (length u) 1 || leb max_username (length u))) [
      | inl b ↦ simp b (refuse-OnlyError s _ (codes "Invalid username length") w)
      | inr b ↦ simp b (register_reply-OnlyError s w _ _ (register_refused u p w.users))
    ]

pub handler_list_rooms-OnlyError :
    (s : ℕ) (p : Player) (w : World) → OnlyError s w (handler_list_rooms s p w)
unfolding handler_list_rooms
handler_list_rooms-OnlyError s p w = elim (Bool-cases (before_lobby p.status)) [
  | inl f ↦ simp f (refuse-OnlyError s _ (codes "Not logged in") w)
  | inr f ↦ simp f (success-OnlyError s w _)
]

login_reply-OnlyError :
    (s : ℕ) (w : World) (p : Player) (username : Text) (result : Verified)
    → OnlyError s w (login_reply s p username result w)
login_reply-OnlyError s w p username verified = λ e. absurd (cc)
login_reply-OnlyError s w p username no_user = refuse-OnlyError s _ (codes "User not found") w
login_reply-OnlyError s w p username wrong_password =
    refuse-OnlyError s _ (codes "Invalid password") w

pub handler_login-OnlyError :
    (s : ℕ) (p : Player) (args : List Text) (w : World) → OnlyError s w (handler_login s p args w)
unfolding handler_login
handler_login-OnlyError s p [] w = refuse-OnlyError s _ (codes "Usage: LOGIN|username|password") w
handler_login-OnlyError s p (u ∷ []) w =
    refuse-OnlyError s _ (codes "Usage: LOGIN|username|password") w
handler_login-OnlyError s p (u ∷ k ∷ args) w = elim (Bool-cases (is_connected p.status)) [
  | inr f ↦ simp f (refuse-OnlyError s _ (codes "Already logged in") w)
  | inl f ↦ elim (Option-cases (player_find_by_username w.table.slots u)) [
    | inr (t, n) ↦ simp (f, n) (refuse-OnlyError s _ (codes "User already online") w)
    | inl n ↦ simp (f, n) (login_reply-OnlyError s w p u (storage_verify_user u k w.users))
  ]
]
