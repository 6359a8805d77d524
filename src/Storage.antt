-- ===== src/Storage.antt =====
-- server/storage.c: the user accounts. The file of users is not modelled.
pub mod Sha256
pub mod Accounts
pub mod Digest
use asciigame.Base.{
  ℕ, ◌+◌, List, [], ◌∷◌, ◌++◌, Option, none, some, Bool, true, false, length, leb, ◌==◌,
  if◌then◌else◌, later, get_elem?,
}
use asciigame.Config.{max_username, max_users}
use asciigame.Text.{Text, text_eq, copy_into}
use asciigame.Storage.Sha256.{sha256}

pub record UserRecord : Type 0 where
  pub username : Text
  pub password_hash : Text
  pub wins : ℕ
  pub losses : ℕ
  pub points : ℕ

-- The first user of the name.
unfoldable pub find_user : Text → List UserRecord → Option UserRecord
unfolding text_eq
find_user name [] = none
find_user name (u ∷ users) =
    let rest = find_user name users in if text_eq u.username name then some u else rest

-- The return values 0, -1 and -2 of `storage_register_user`.
pub data Registered : Type 0 where
  registered name_taken refused : Registered

unfoldable pub storage_register_user : Text → Text → List UserRecord → List UserRecord × Registered
unfolding find_user sha256
storage_register_user username password users =
    if length username == 0
    then (users, refused)
    else if leb max_username (length username)
    then (users, refused)
    else elim (find_user username users) [
      | some _ ↦ (users, name_taken)
      | none ↦ if leb max_users (length users) then (users, refused) else (
        users
            ++ (record {
              username = copy_into max_username username;
              password_hash = sha256 password;
              wins = 0;
              losses = 0;
              points = 0;
            }
                ∷ []),
        registered,
      )
    ]

-- The return values 0, -1 and -2 of `storage_verify_user`.
pub data Verified : Type 0 where
  verified no_user wrong_password : Verified

unfoldable pub storage_verify_user : Text → Text → List UserRecord → Verified
unfolding find_user sha256 text_eq
storage_verify_user username password users = elim (find_user username users) [
  | none ↦ no_user
  | some u ↦ if text_eq u.password_hash (sha256 password) then verified else wrong_password
]

abbrev pub count_game : Bool → UserRecord → UserRecord
count_game true u = record u { wins = u.wins + 1; points = u.points + 10 }
count_game false u = record u { losses = u.losses + 1; points = u.points + 1 }

-- `false` is the return value -1.
unfoldable pub storage_update_stats : Text → Bool → List UserRecord → List UserRecord × Bool
unfolding text_eq
storage_update_stats name win [] = ([], false)
storage_update_stats name win (u ∷ users) =
    let (rest, done) = storage_update_stats name win users in
    if text_eq u.username name then (count_game win u ∷ users, true) else (u ∷ rest, done)

abbrev pub storage_user_exists : Text → List UserRecord → Bool
storage_user_exists name users = elim (find_user name users) [ none ↦ false | some _ ↦ true ]
