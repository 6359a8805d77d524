-- ===== src/Storage/Accounts.antt =====
-- Registration and verification of users.
use asciigame.Base.{
  ◌<◌, ◌≡◌, ◌≢◌, refl, sym, ap, ◌∙◌, inl, inr, false, List, [], ◌∷◌, ◌++◌, Option, none, some,
  arith, length, leb, ◌==◌, take_all, Bool-cases, Option-cases, if◌then◌else◌,
}
use asciigame.Config.{max_username, max_users}
use asciigame.Text.{Text, copy_into, text_eq, text_eq_iff, text_eq_refl}
use asciigame.Storage.{
  UserRecord, Registered, find_user, storage_register_user, registered, name_taken, refused,
  storage_verify_user, verified, no_user, wrong_password,
}
use asciigame.Storage.Sha256.{sha256}

-- The record that a registration adds.
abbrev pub new_user : Text → Text → UserRecord
new_user username password = record {
  username = copy_into max_username username;
  password_hash = sha256 password;
  wins = 0;
  losses = 0;
  points = 0;
}

find_user-append :
    (name : Text) (users : List UserRecord) (u : UserRecord)
    → find_user name users ≡ none
    → find_user name (users ++ (u ∷ [])) ≡ find_user name (u ∷ [])
unfolding find_user
find_user-append name [] u e = refl
find_user-append name (v ∷ users) u e = elim (Bool-cases (text_eq v.username name)) [
  | inl h ↦ absurd (no (simp h at e))
  | inr h ↦ simp h (find_user-append name users u (simp h at e))
]
  where
    no : ¬ (some v ≡ none)
    no e = cc

find_user-append_other :
    (name : Text) (users : List UserRecord) (u : UserRecord)
    → text_eq u.username name ≡ false
    → find_user name (users ++ (u ∷ [])) ≡ find_user name users
unfolding find_user
find_user-append_other name [] u e = simp e refl
find_user-append_other name (v ∷ users) u e =
    ap (λ (r : Option UserRecord). if text_eq v.username name then some v else r)
      (find_user-append_other name users u e)

-- What registering can do: nothing, with an error, or one more user under a free name that fits.
data Registers (username password : Text) (users : List UserRecord) : Type 0 where
  same :
      (r : Registered)
      → storage_register_user username password users ≡ (users, r)
      → r ≢ registered
      → Registers username password users
  added :
      storage_register_user username password users
        ≡ (users ++ (new_user username password ∷ []), registered)
      → find_user username users ≡ none
      → length username < max_username
      → length users < max_users
      → Registers username password users

register-Registers :
    (username password : Text) (users : List UserRecord) → Registers username password users
unfolding storage_register_user
register-Registers username password users = elim (Bool-cases (length username == 0)) [
  | inl e ↦ same refused (rw e refl) (λ h. cc)
  | inr e ↦ elim (Bool-cases (leb max_username (length username))) [
    | inl f ↦ same refused (rw (e, f) refl) (λ h. cc)
    | inr f ↦ elim (Option-cases (find_user username users)) [
      | inr (v, g) ↦ same name_taken (rw (e, f, g) refl) (λ h. cc)
      | inl g ↦ elim (Bool-cases (leb max_users (length users))) [
        | inl k ↦ same refused (rw (e, f, g, k) refl) (λ h. cc)
        | inr k ↦ added (rw (e, f, g, k) refl) g (ground arith) (ground arith)
      ]
    ]
  ]
]

missing :
    (username password : Text) (users : List UserRecord)
    → find_user username users ≡ none
    → storage_verify_user username password users ≡ no_user
unfolding storage_verify_user
missing username password users g = rw (g, storage_verify_user) refl

verify_same :
    (name q : Text) (us vs : List UserRecord)
    → find_user name us ≡ find_user name vs
    → storage_verify_user name q us ≡ storage_verify_user name q vs
unfolding storage_verify_user
verify_same name q us vs e =
    ap
      (λ (o : Option UserRecord). elim o [
        | none ↦ no_user
        | some u ↦ if text_eq u.password_hash (sha256 q) then verified else wrong_password
      ])
      e

text_ne : (s t : Text) → s ≢ t → text_eq s t ≡ false
text_ne s t n = elim (Bool-cases (text_eq s t)) [
  | inl e ↦ absurd (n ((text_eq_iff s t).0 e))
  | inr e ↦ e
]

verify_found :
    (name q : Text) (users : List UserRecord) (u : UserRecord)
    → find_user name users ≡ some u
    → (u.password_hash ≡ sha256 q → storage_verify_user name q users ≡ verified)
      × (u.password_hash ≢ sha256 q → storage_verify_user name q users ≡ wrong_password)
unfolding storage_verify_user
verify_found name q users u e = (
  λ h. rw (e, (text_eq_iff u.password_hash (sha256 q)).1 h, storage_verify_user) refl,
  λ n. rw (e, text_ne u.password_hash (sha256 q) n, storage_verify_user) refl,
)

find_user-one : (u : UserRecord) → find_user u.username (u ∷ []) ≡ some u
unfolding find_user
find_user-one u = rw (text_eq_refl u.username) refl

added_lem :
    (username password : Text) (users : List UserRecord)
    → find_user username users ≡ none
    → length username < max_username
    → let after = users ++ (new_user username password ∷ []) in
      (storage_verify_user username password after ≡ verified)
      × ((other : Text)
          → sha256 password ≢ sha256 other
          → storage_verify_user username other after ≡ wrong_password)
      × ((name q : Text)
          → username ≢ name
          → storage_verify_user name q after ≡ storage_verify_user name q users)
added_lem username password users g l =
    let u = new_user username password in
    let whole : copy_into max_username username ≡ username = take_all 31 username (omega arith) in
    let found : find_user username (users ++ (u ∷ [])) ≡ some u =
      find_user-append username users u g
      ∙ ap (λ (n : Text). find_user n (u ∷ [])) (sym whole)
      ∙ find_user-one u in
    (
      (verify_found username password (users ++ (u ∷ [])) u found).0 refl,
      λ other n. (verify_found username other (users ++ (u ∷ [])) u found).1 n,
      λ name q n. verify_same name q (users ++ (u ∷ [])) users (
          find_user-append_other name users u
            (ap (λ (m : Text). text_eq m name) whole ∙ text_ne username name n)),
    )

-- A new user can log in with the password given at registration, and with no other text but one of
-- the same digest. What any other name can do stays as it was. A refused registration changes
-- nothing.
pub storage_register_user_lem :
    (username password : Text) (users : List UserRecord)
    → let (after, r) = storage_register_user username password users in
      (r ≢ registered → after ≡ users)
      × (r ≡ registered
          → (storage_verify_user username password users ≡ no_user)
            × (storage_verify_user username password after ≡ verified)
            × ((other : Text)
                → sha256 password ≢ sha256 other
                → storage_verify_user username other after ≡ wrong_password)
            × ((name q : Text)
                → username ≢ name
                → storage_verify_user name q after ≡ storage_verify_user name q users))
storage_register_user_lem username password users =
    elim (register-Registers username password users) [
      | same r e n ↦ rw e (λ m. refl, λ m. absurd (n m))
      | added e g l k ↦ rw e (
        λ m. absurd (m refl),
        λ m.
            let (a, b, c) = added_lem username password users g l in
            (missing username password users g, a, b, c),
      )
    ]
