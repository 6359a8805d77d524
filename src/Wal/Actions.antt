-- ===== src/Wal/Actions.antt =====
-- Action names, and the sequence numbers of the records.
use asciigame.Base.{
  ◌≡◌, refl, some, ℤ, pos, ◌+ℤ◌, [], ◌∷◌, ◌++◌, true, false, leb, length, Bool-cases, inl, inr,
}
use asciigame.Config.{wal_buffer_size}
use asciigame.Text.{Text}
use asciigame.Wal.{
  WalActionType, WalManager, wal_action_name, wal_parse_action, wal_write, wal_record,
  wal_game_start,
}

-- Every action is read back from its name.
pub wal_parse_action-wal_action_name :
    (a : WalActionType) → wal_parse_action (wal_action_name a) ≡ some a
unfolding wal_parse_action
wal_parse_action-wal_action_name wal_game_start = refl
wal_parse_action-wal_action_name _ = refl

-- A write takes exactly one sequence number. It appends one line, the record under the number taken,
-- or, where that is too long for the buffer, none.
pub wal_write_lem :
    (now : ℤ) (type : WalActionType) (action_data : Text) (wal : WalManager)
    → let (wal', done) = wal_write now type action_data wal in
      let text = wal_record now wal.sequence wal.room_id type action_data in
      (wal'.sequence ≡ wal.sequence +ℤ pos 1)
      × (wal'.room_id ≡ wal.room_id)
      × (done ≡ true → wal'.lines ≡ wal.lines ++ (text ∷ []))
      × (done ≡ false → (wal'.lines ≡ wal.lines) × (leb wal_buffer_size (length text) ≡ true))
wal_write_lem now type action_data wal =
    elim (Bool-cases
      (leb wal_buffer_size (length (wal_record now wal.sequence wal.room_id type action_data)))) [
        | inl e ↦ unfold wal_write in rw e (refl, refl, λ d. cc, λ d. (refl, refl))
        | inr e ↦ unfold wal_write in rw e (refl, refl, λ d. refl, λ d. cc)
      ]
