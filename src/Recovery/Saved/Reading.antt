-- ===== src/Recovery/Saved/Reading.antt =====
-- The two searches for a player in the .recovery files.
use asciigame.Base.{
  ℕ, zero, suc, Bool, true, false, ◌&&◌, List, [], ◌∷◌, Option, none, some, ℤ, pos, negsuc, ltb_ℤ,
  leb_ℤ, get_or, if◌then◌else◌,
}
use asciigame.Config.{initial_atk}
use asciigame.Text.{Text, codes, text_eq}
use asciigame.Text.Decimal.{atoi}
use asciigame.Text.Scan.{strip_prefix, after_first}
use asciigame.Text.Scan.Mixed.{Part, lit, num, word, Value, number, text, scan_parts}
use asciigame.Recovery.Saved.{RecoveryFile, is_gaming_status}

-- "%d,%d,...": n + 1 conversions.
abbrev pub num_list : ℕ → List Part
num_list zero = num ∷ []
num_list (suc n) = num ∷ lit b',' ∷ num_list n

-- "%d,%[^,],%d,...": n + 3 conversions.
abbrev pub player_parts : ℕ → List Part
player_parts n = num ∷ lit b',' ∷ word b',' ∷ lit b',' ∷ num_list n

abbrev pub numbers_of : List Value → List ℤ
numbers_of [] = []
numbers_of (number z ∷ vs) = z ∷ numbers_of vs
numbers_of (text t ∷ vs) = numbers_of vs

-- What is read of a player: the last eight are set before the scan.
pub record SavedPlayer : Type 0 where
  pub pid : ℤ
  pub username : Text
  pub x : ℤ
  pub y : ℤ
  pub hp : ℤ
  pub max_hp : ℤ
  pub atk : ℤ
  pub def : ℤ
  pub has_shield : ℤ
  pub status : ℤ
  pub inv_count : ℤ
  pub inventory : List ℤ
  pub base_atk : ℤ
  pub atk_buff_remain : ℤ

-- `parsed >= 10`
abbrev pub saved_of : ℤ → Text → List ℤ → Option SavedPlayer
saved_of pid name (x ∷ y ∷ hp ∷ max_hp ∷ atk ∷ def ∷ shield ∷ status ∷ more) = some (record {
  pid = pid;
  username = name;
  x = x;
  y = y;
  hp = hp;
  max_hp = max_hp;
  atk = atk;
  def = def;
  has_shield = shield;
  status = status;
  inv_count = get_or more 0 (pos 0);
  inventory =
      get_or more 1 (pos 0)
      ∷ get_or more 2 (pos 0)
      ∷ get_or more 3 (pos 0)
      ∷ get_or more 4 (pos 0)
      ∷ get_or more 5 (pos 0)
      ∷ [];
  base_atk = get_or more 6 initial_atk;
  atk_buff_remain = get_or more 7 (pos 0);
})
saved_of pid name _ = none

abbrev pub player_of : List Value → Option SavedPlayer
player_of (number pid ∷ text name ∷ rest) = saved_of pid name (numbers_of rest)
player_of _ = none

unfoldable pub saved_player : Text → Option SavedPlayer
unfolding scan_parts
saved_player s = player_of (scan_parts (player_parts 15) s)

abbrev pub can_rejoin : Text → SavedPlayer → Bool
can_rejoin username p =
    text_eq p.username username && (is_gaming_status p.status && ltb_ℤ (pos 0) p.hp)

abbrev pub taken_if :
    Text → ℤ → Option SavedPlayer → Option (ℤ × SavedPlayer) → Option (ℤ × SavedPlayer)
taken_if username room_id none next = next
taken_if username room_id (some p) next = if can_rejoin username p then some (room_id, p) else next

-- The first entry of a living player of the name, with the room identifier read before it.
unfoldable pub player_in_lines : Text → ℤ → List Text → Option (ℤ × SavedPlayer)
unfolding saved_player strip_prefix text_eq atoi
player_in_lines username room_id [] = none
player_in_lines username room_id (line ∷ lines) =
    let next = player_in_lines username room_id lines in
    elim (strip_prefix (codes "room_id=") line) as (λ _. Option (ℤ × SavedPlayer)) [
      | some v ↦ player_in_lines username (atoi v) lines
      | none ↦ elim (strip_prefix (codes "player=") line) as (λ _. Option (ℤ × SavedPlayer)) [
        | none ↦ next
        | some v ↦ taken_if username room_id (saved_player v) next
      ]
    ]

-- `strstr(entry->d_name, ".recovery") != NULL`
abbrev pub is_recovery_file : Text → Bool
is_recovery_file name = elim (after_first (codes ".recovery") name) [ none ↦ false | some _ ↦ true ]

unfoldable pub recovery_get_player_state : Text → List RecoveryFile → Option (ℤ × SavedPlayer)
unfolding player_in_lines after_first
recovery_get_player_state username [] = none
recovery_get_player_state username (f ∷ files) =
    let next = recovery_get_player_state username files in
    if is_recovery_file f.name
    then elim (player_in_lines username (negsuc 0) f.lines) as (λ _. Option (ℤ × SavedPlayer)) [
      | none ↦ next
      | some q ↦ some q
    ]
    else next

-- The last room identifier of the file, and whether a living player has the name.
abbrev pub checked_lines : Text → ℤ → Bool → List Text → ℤ × Bool
checked_lines username room_id found [] = (room_id, found)
checked_lines username room_id found (line ∷ lines) =
    elim (strip_prefix (codes "room_id=") line) as (λ _. ℤ × Bool) [
      | some v ↦ checked_lines username (atoi v) found lines
      | none ↦ elim (strip_prefix (codes "player=") line) as (λ _. ℤ × Bool) [
        | none ↦ checked_lines username room_id found lines
        | some v ↦
            let here : Bool = elim (player_of (scan_parts (player_parts 7) v)) [
              | none ↦ false
              | some p ↦ can_rejoin username p
            ] in
            checked_lines username room_id (if here then true else found) lines
      ]
    ]

unfoldable pub recovery_check_player : Text → List RecoveryFile → Option ℤ
unfolding after_first strip_prefix text_eq atoi scan_parts
recovery_check_player username [] = none
recovery_check_player username (f ∷ files) =
    let next = recovery_check_player username files in
    let (room_id, found) = checked_lines username (negsuc 0) false f.lines in
    if is_recovery_file f.name && (found && leb_ℤ (pos 0) room_id) then some room_id else next
