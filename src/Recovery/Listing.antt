-- ===== src/Recovery/Listing.antt =====
-- Which rooms are recovered at the start: `recovery_list_recoverable_rooms`, `wal_has_game_end`,
-- `recovery_get_max_room_id`, `recovery_check_and_recover`. The directory is given as the names of
-- its files in the order of `readdir`.
pub mod Complete
use asciigame.Base.{
  ℕ, zero, suc, min, ◌%◌, ◌^◌, ◌-◌, negsuc, ◌<◌, ◌≤◌, ◌≡◌, refl, ap, ◌∙◌, Bool, true, false, not,
  ◌&&◌, ◌||◌, List, [], ◌∷◌, ◌++◌, Option, none, some, ℤ, pos, ◌==ℤ◌, ==ℤ_iff, ltb_ℤ, ltb, arith,
  length, length-append, take, if◌then◌else◌, Bool-cases, inl, inr, All,
}
use asciigame.Config.{max_rooms}
use asciigame.Text.{Text, codes, text_eq}
use asciigame.Text.Decimal.{skip_space}
use asciigame.Text.Scan.{strip_prefix, number_at, after_first}
use asciigame.Snapshot.{Snapshot}
use asciigame.Recovery.Recover.{Outcome, recovered, over, recover_failed, recovery_recover_room}

-- `strtol` stops at the greatest and the least long.
abbrev pub long_of : ℤ → ℤ
long_of (pos n) = pos (min n (2 ^ 63 - 1))
long_of (negsuc n) = negsuc (min n (2 ^ 63 - 1))

-- `(int)id`: the low 32 bits, the top one of them the sign.
abbrev pub int_of : ℤ → ℤ
int_of (pos n) =
    let low = n % 2 ^ 32 in if ltb low (2 ^ 31) then pos low else negsuc (2 ^ 32 - 1 - low)
int_of (negsuc n) =
    let low = n % 2 ^ 32 in if ltb low (2 ^ 31) then negsuc low else pos (2 ^ 32 - 1 - low)

-- "room_%d" and one of two endings. `strtol` skips blanks and reads a sign.
abbrev pub numbered_file : Text → Text → Text → Option ℤ
numbered_file one_end other_end name = elim (strip_prefix (codes "room_") name) [
  | none ↦ none
  | some s ↦ elim (number_at (skip_space s)) [
    | none ↦ none
    | some (id, end) ↦
        if text_eq end one_end || text_eq end other_end then some (int_of (long_of id)) else none
  ]
]

unfoldable pub room_of_file : Text → Option ℤ
unfolding strip_prefix number_at skip_space text_eq
room_of_file name = numbered_file (codes ".wal") (codes ".snap") name

unfoldable pub wal_has_game_end : List Text → Bool
unfolding after_first
wal_has_game_end [] = false
wal_has_game_end (line ∷ lines) =
    let rest = wal_has_game_end lines in
    elim (after_first (codes "|GAME_END|") line) [ none ↦ rest | some _ ↦ true ]

abbrev pub member : ℤ → List ℤ → Bool
member id [] = false
member id (x ∷ xs) = x ==ℤ id || member id xs

abbrev pub is_some {ℓ} : {A : Type ℓ} → Option A → Bool
is_some none = false
is_some (some a) = true

-- The logs and the snapshots by their rooms.
module _ (logs : ℤ → Option (List Text)) (snapshots : ℤ → Option Snapshot) where
  abbrev pub has_end : Option (List Text) → Bool
  has_end none = false
  has_end (some lines) = wal_has_game_end lines

  -- The game did not end, and there is a file to recover it from.
  abbrev pub is_recoverable : ℤ → Bool
  is_recoverable id = not (has_end (logs id)) && (is_some (logs id) || is_some (snapshots id))

  -- A file of a room that is not found yet.
  abbrev pub note_file : Option ℤ → List ℤ → List ℤ
  note_file none found = found
  note_file (some id) found =
      if not (ltb_ℤ id (pos 0)) && (not (member id found) && is_recoverable id)
      then found ++ (id ∷ [])
      else found

  unfoldable pub scan_names : List Text → List ℤ → List ℤ
  unfolding room_of_file wal_has_game_end
  scan_names [] found = found
  scan_names (name ∷ names) found =
      let next = scan_names names (note_file (room_of_file name) found) in
      if ltb (length found) max_rooms then next else found

  unfoldable pub recovery_list_recoverable_rooms : ℕ → List Text → List ℤ
  unfolding scan_names
  recovery_list_recoverable_rooms max_count names = take max_count (scan_names names [])

  abbrev pub count_recovered : ℤ → List ℤ → ℕ
  count_recovered now [] = 0
  count_recovered now (id ∷ ids) =
      let rest = count_recovered now ids in
      elim (recovery_recover_room now id (logs id) (snapshots id)) [
        | recovered _ ↦ suc rest
        | over ↦ suc rest
        | recover_failed ↦ rest
      ]

  -- The number of rooms that are recovered or found to be over.
  unfoldable pub recovery_check_and_recover : ℤ → List Text → ℕ
  unfolding recovery_list_recoverable_rooms recovery_recover_room
  recovery_check_and_recover now names =
      count_recovered now (recovery_list_recoverable_rooms max_rooms names)

-- The greatest room identifier among the logs and the recovery files, 0 at least.
unfoldable pub max_of_files : List Text → ℤ → ℤ
unfolding strip_prefix number_at skip_space text_eq
max_of_files [] max_id = max_id
max_of_files (name ∷ names) max_id =
    max_of_files names (elim (numbered_file (codes ".wal") (codes ".recovery") name) [
      | none ↦ max_id
      | some id ↦ if ltb_ℤ max_id id then id else max_id
    ])

unfoldable pub recovery_get_max_room_id : List Text → ℤ
unfolding max_of_files
recovery_get_max_room_id names = max_of_files names (pos 0)
