-- ===== src/Recovery/Recover/Outcomes.antt =====
-- What becomes of a room whose server crashed.
use asciigame.Base.{
  ◌<◌, ◌≤◌, ◌≡◌, refl, ap, ◌∙◌, Bool-cases, inl, inr, true, false, List, [], ◌∷◌, Option, none,
  some, ℤ, arith, leb, length,
}
use asciigame.Text.{Text}
use asciigame.Player.{is_empty}
use asciigame.Snapshot.{Snapshot}
use asciigame.Recovery.{RecoveryState, RecoveredPlayer}
use asciigame.Recovery.Replay.{parse_wal_file}
use asciigame.Recovery.Saved.{RecoveryFile, alive_count, save_recovery_info}
use asciigame.Recovery.Saved.Reading.{recovery_get_player_state}
use asciigame.Recovery.Saved.RoundTrip.{
  IsSavable, as_saved, first_living, map_option, recovery_get_player_state-save_recovery_info,
}
use asciigame.Recovery.Recover.{
  finish_recovery, if_players, recover_by, recovery_recover_room, with_name, with_players,
  with_snapshot, recovered, over,
}

if_players-some :
    (ps : List RecoveredPlayer) (state : RecoveryState)
    → 0 < length ps
    → if_players ps state ≡ some state
if_players-some [] state h = absurd (omega arith)
if_players-some (p ∷ ps) state h = refl

recovered_by :
    (now room_id : ℤ) (lines : List Text) (o : Option Snapshot) (state : RecoveryState)
    → parse_wal_file now lines ≡ some state
    → 0 < length state.players
    → recovery_recover_room now room_id (some lines) o
      ≡ finish_recovery now room_id (with_snapshot o state)
unfolding recovery_recover_room
recovered_by now room_id lines o state e h =
    ap (λ q. recover_by now room_id o (with_players q)) e
    ∙ ap (recover_by now room_id o) (if_players-some state.players state h)

-- What the snapshot and the name leave of the log.
kept_parts :
    (room_id : ℤ) (o : Option Snapshot) (state : RecoveryState)
    → let s = with_name room_id (with_snapshot o state) in
      (s.players ≡ state.players) × (s.room_id ≡ state.room_id)
kept_parts room_id o state = elim (Bool-cases (is_empty (with_snapshot o state).room_name)) [
  | inl e ↦ rw e (snapshot_parts o)
  | inr e ↦ rw e (snapshot_parts o)
]
  where
    snapshot_parts :
        (o : Option Snapshot)
        → ((with_snapshot o state).players ≡ state.players)
          × ((with_snapshot o state).room_id ≡ state.room_id)
    snapshot_parts none = (refl, refl)
    snapshot_parts (some s) = (refl, refl)

with_snapshot-players :
    (o : Option Snapshot) (state : RecoveryState) → (with_snapshot o state).players ≡ state.players
with_snapshot-players none state = refl
with_snapshot-players (some s) state = refl

finished :
    (now room_id : ℤ) (state : RecoveryState)
    → (1 < alive_count state.players
        → finish_recovery now room_id state
          ≡ recovered (save_recovery_info now room_id (with_name room_id state)))
      × (alive_count state.players ≤ 1 → finish_recovery now room_id state ≡ over)
finished now room_id state = (
  λ h. let many : leb (alive_count state.players) 1 ≡ false = ground arith in rw many refl,
  λ h. let few : leb (alive_count state.players) 1 ≡ true = ground arith in rw few refl,
)

-- A log that is replayed to a state with two or more living players leaves a recovery file, with or
-- without a snapshot, and from that file a user gets back the first living player of the name: what
-- the replay of the log gives, number by number. With fewer living players, but with some player,
-- the game is over and nothing is left. The names are words without commas, and no row of the map
-- begins like a line about the room or a player.
pub recovery_recover_room_lem :
    (now room_id : ℤ) (lines : List Text) (o : Option Snapshot) (state : RecoveryState)
    → parse_wal_file now lines ≡ some state
    → 0 < length state.players
    → IsSavable (with_name room_id (with_snapshot o state))
    → (1 < alive_count state.players
        → (f : RecoveryFile) × (recovery_recover_room now room_id (some lines) o ≡ recovered f)
          × ((username : Text)
              → recovery_get_player_state username (f ∷ [])
                ≡ map_option
                    (λ p. (state.room_id, as_saved now p))
                    (first_living username state.players)))
      × (alive_count state.players ≤ 1 → recovery_recover_room now room_id (some lines) o ≡ over)
recovery_recover_room_lem now room_id lines o state e k v =
    let whole = with_snapshot o state in
    let players = ap alive_count (with_snapshot-players o state) in
    let (many, few) = finished now room_id whole in
    let by = recovered_by now room_id lines o state e k in
    let (same_players, same_room) = kept_parts room_id o state in
    (
      λ h. (
        save_recovery_info now room_id (with_name room_id whole),
        by ∙ many (omega (arith, players, h)),
        λ username.
            recovery_get_player_state-save_recovery_info now room_id username
              (with_name room_id whole) v
            ∙ ap
                (λ (i : ℤ).
                  map_option (λ p. (i, as_saved now p))
                    (first_living username (with_name room_id whole).players))
                same_room
            ∙ ap
                (λ ps. map_option (λ p. (state.room_id, as_saved now p)) (first_living username ps))
                same_players,
      ),
      λ h. by ∙ few (omega (arith, players, h)),
    )
