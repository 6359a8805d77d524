-- ===== src/Recovery/Events/Logged.antt =====
-- What the running game writes: each event adds one line, which a replay reads.
use asciigame.Base.{
  ℕ, suc, ◌+◌, ◌≡◌, refl, sym, ap, ◌∙◌, List, [], ◌∷◌, ◌++◌, none, some, ℤ, inl, inr, Option-cases,
  false, leb, length, arith,
}
use asciigame.Config.{wal_buffer_size}
use asciigame.Text.{Text, snprintf}
use asciigame.Wal.{WalManager, wal_write}
use asciigame.Wal.Records.{WalRecord, wal_parse_record}
use asciigame.Recovery.Meaning.{stamped}
use asciigame.Recovery.{RecoveryState}
use asciigame.Recovery.Replay.{replay_record, replay_lines}
use asciigame.Recovery.Events.{GameEvent, action_of, text_of, effect}
use asciigame.Recovery.Events.Written.{IsInt, buffer_size, snprintf-text_of}
use asciigame.Recovery.Events.Replayed.{
  Stamped, line_of, IsStamped, replay_lines-rebuilt, length-line_of,
}

module _ (clock : ℤ) (x : Text) (xs : List Text) (n : ℕ) (state : RecoveryState) where
  replay_skipped :
      wal_parse_record x ≡ none
      → replay_lines clock (x ∷ xs) n state ≡ replay_lines clock xs n state
  unfolding replay_lines
  replay_skipped p = rw (p, replay_lines) refl

  replay_ended :
      (r : WalRecord)
      → wal_parse_record x ≡ some r
      → replay_record clock n r state ≡ none
      → replay_lines clock (x ∷ xs) n state ≡ none
  unfolding replay_lines
  replay_ended r p q = rw (p, q, replay_lines) refl

  replay_read :
      (r : WalRecord) (next : RecoveryState)
      → wal_parse_record x ≡ some r
      → replay_record clock n r state ≡ some next
      → replay_lines clock (x ∷ xs) n state ≡ replay_lines clock xs (suc n) next
  unfolding replay_lines
  replay_read r next p q = rw (p, q, replay_lines) refl

-- A replay reads the lines one after the other.
pub replay_lines-append :
    (clock : ℤ) (xs ys : List Text) (n : ℕ) (state : RecoveryState) (k : ℕ) (t : RecoveryState)
    → replay_lines clock xs n state ≡ some (k, t)
    → replay_lines clock (xs ++ ys) n state ≡ replay_lines clock ys k t
unfolding replay_lines
replay_lines-append clock [] ys n state k t e = cc
replay_lines-append clock (x ∷ xs) ys n state k t e = elim (Option-cases (wal_parse_record x)) [
  | inl p ↦
      replay_skipped clock x (xs ++ ys) n state p
      ∙ replay_lines-append clock xs ys n state k t (sym (replay_skipped clock x xs n state p) ∙ e)
  | inr (r, p) ↦ elim (Option-cases (replay_record clock n r state)) [
    | inl q ↦ let stop = replay_ended clock x xs n state r p q in absurd (cc)
    | inr (next, q) ↦
        replay_read clock x (xs ++ ys) n state r next p q
        ∙ replay_lines-append clock xs ys (suc n) next k t
            (sym (replay_read clock x xs n state r next p q) ∙ e)
  ]
]

-- The event under the number that the log is at.
abbrev pub next_of : ℤ → WalManager → GameEvent → Stamped
next_of now w e = record { timestamp = now; sequence = w.sequence; event = e }

-- What a log replays to, from the given state on: the number of its records and the state.
abbrev pub ReplaysTo : ℤ → RecoveryState → WalManager → ℕ → RecoveryState → Type 0
ReplaysTo clock start w k state = replay_lines clock w.lines 0 start ≡ some (k, state)

wal_write-line_of :
    (now : ℤ) (e : GameEvent) (w : WalManager)
    → IsInt w.room_id
    → IsStamped (next_of now w e)
    → (wal_write now (action_of e) (text_of e) w).0.lines
      ≡ w.lines ++ (line_of w.room_id (next_of now w e) ∷ [])
unfolding wal_write
wal_write-line_of now e w i h =
    let c : leb wal_buffer_size (length (line_of w.room_id (next_of now w e))) ≡ false =
      ground (arith, length-line_of w.room_id (next_of now w e) i h) in
    rw (c, wal_write) refl

module _ (clock : ℤ) (start : RecoveryState) where
  -- One event more in the log is one effect more on what it replays to.
  pub wal_write-replays :
      (now : ℤ) (e : GameEvent) (w : WalManager) (k : ℕ) (state : RecoveryState)
      → IsInt w.room_id
      → IsStamped (next_of now w e)
      → ReplaysTo clock start w k state
      → ReplaysTo clock start
          (wal_write now (action_of e) (snprintf (buffer_size e) (text_of e)) w).0
          (suc k)
          (effect e (stamped w.room_id now k state))
  wal_write-replays now e w k state i h r =
      let s = next_of now w e in
      let one : k + 1 ≡ suc k = omega arith in
      let read = replay_lines-rebuilt clock w.room_id (s ∷ []) k state i (h, tt) in
      rw (snprintf-text_of e h.written, wal_write-line_of now e w i h)
        (replay_lines-append clock w.lines (line_of w.room_id s ∷ []) 0 start k state r
          ∙ read
          ∙ ap (λ m. some (m, effect e (stamped w.room_id now k state))) one)
