-- ===== src/Game/Loop/Termination.antt =====
-- The loop of the game ends by its time limit at the latest.
use asciigame.Base.{
  ℕ, zero, suc, ◌≡◌, ◌∙◌, refl, ap, sym, ◌⊎◌, inl, inr, Bool, true, false, not, ◌||◌, some, ℤ, pos,
  leb_ℤ, ◌-ℤ◌, ◌+ℤ◌, ◌==ℤ◌, ◌≤ℤ◌, arith, Bool-cases, ◌*◌, if◌then◌else◌, -ℤ_parts, +ℤ_parts,
}
use asciigame.Config.{game_max_duration, tick_interval_ms}
use asciigame.Room.{Arena, is_room_gaming}
use asciigame.Room.Ending.{room_end_game}
use asciigame.Game.Finish.{game_check_end, go_on, draw}
use asciigame.Game.Broadcast.{game_broadcast_state}
use asciigame.Game.Loop.{TickTimes, game_tick, game_loop, game_thread_func}
use asciigame.Game.Loop.Ends.{
  began, before_check-began, game_check_end-began, game_broadcast_state-began,
}

-- The loop's condition fails.
abbrev pub IsOver : Arena → Type 0
IsOver a = (a.room.game_thread_running ≡ false) ⊎ (is_room_gaming a.room.status ≡ false)

room_end_game-IsOver : (now winner : ℤ) (a : Arena) → IsOver (room_end_game now winner a)
unfolding room_end_game
room_end_game-IsOver now winner a = inr refl

-- A round that breaks leaves a game that is over, and one that does not changes nothing of when it began.
data Round (t : TickTimes) (a : Arena) : Arena × Bool → Type 0 where
  breaks : (b : Arena) → IsOver b → Round t a (b, true)
  goes_on :
      (b : Arena)
      → began b ≡ began a
      → leb_ℤ game_max_duration (t.at_check -ℤ began a) ≡ false
      → Round t a (b, false)

idle_over :
    (running gaming : Bool)
    → (not running || not gaming) ≡ true
    → (running ≡ false) ⊎ (gaming ≡ false)
idle_over true true h = absurd (cc)
idle_over true false h = inr refl
idle_over false gaming h = inl refl

-- A check that lets the game go on comes before the time limit.
in_time :
    (now : ℤ) (a : Arena)
    → ((game_check_end now a).1 ==ℤ go_on) ≡ true
    → leb_ℤ game_max_duration (now -ℤ began a) ≡ false
unfolding game_check_end
in_time now a e = elim (Bool-cases (leb_ℤ game_max_duration (now -ℤ began a))) [
  | inr f ↦ f
  | inl f ↦ absurd (
      let d : (game_check_end now a).1 ≡ draw = rw (f, game_check_end) refl in
      let z : (draw ==ℤ go_on) ≡ true = ap (λ (w : ℤ). w ==ℤ go_on) (sym d) ∙ e in cc)
]

checked-Round :
    (t : TickTimes) (a b : Arena)
    → began b ≡ began a
    → let (c, winner) = game_check_end t.at_check b in
      Round t a (
        if winner ==ℤ go_on
        then (game_broadcast_state t.at_end c, false)
        else (room_end_game t.at_end winner c, true))
unfolding game_check_end
checked-Round t a b same = elim (Bool-cases ((game_check_end t.at_check b).1 ==ℤ go_on)) [
  | inr e ↦ rw e (breaks _ (room_end_game-IsOver _ _ _))
  | inl e ↦ rw e (
      goes_on _ (game_broadcast_state-began t.at_end _ ∙ game_check_end-began t.at_check b ∙ same)
        (rw (← same) (in_time t.at_check b e)))
]

game_tick-Round : (rand : ℕ → ℕ) (t : TickTimes) (a : Arena) → Round t a (game_tick rand t a)
unfolding game_tick
game_tick-Round rand t a =
    elim (Bool-cases (not a.room.game_thread_running || not (is_room_gaming a.room.status))) [
      | inl e ↦ rw (e, game_tick) (breaks a (idle_over _ _ e))
      | inr e ↦ rw (e, game_tick) (checked-Round t a _ (before_check-began rand t a))
    ]

module _ (rand : ℕ → ℕ) (times : ℕ → TickTimes) (others : ℕ → Arena → Arena)
    (sleeps : (k : ℕ) → (times k).at_check +ℤ pos tick_interval_ms ≤ℤ (times (suc k)).at_check)
    (untouched : (k : ℕ) (a : Arena) → began (others k a) ≡ began a) where
  Ends : ℕ → ℕ → Arena → Type 0
  Ends fuel n a = (b : Arena) × (game_loop rand times others fuel n a ≡ some b) × IsOver b

  -- One round: the loop ends with it, or the next round is in time and ends.
  done_after :
      (fuel n : ℕ) (a : Arena) (r : Arena × Bool)
      → game_tick rand (times n) a ≡ r
      → Round (times n) a r
      → ((b : Arena)
          → began b ≡ began a
          → leb_ℤ game_max_duration ((times n).at_check -ℤ began a) ≡ false
          → Ends fuel (suc n) b)
      → Ends (suc fuel) n a
  unfolding game_loop Ends
  done_after fuel n a r e (breaks b o) next =
      (b, rw (e, game_loop) (ap (λ (r : Arena × Bool). some (r.0)) e), o)
  done_after fuel n a r e (goes_on b same late) next =
      let (c, g, o) = next (others n b) (untouched n b ∙ same) late in
      (
        c,
        rw (e, game_loop)
            (ap (λ (r : Arena × Bool). game_loop rand times others fuel (suc n) (others n (r.0))) e
              ∙ g),
        o,
      )

  game_loop-Ends :
      (fuel n : ℕ) (a : Arena)
      → began a +ℤ game_max_duration ≤ℤ (times n).at_check +ℤ pos (tick_interval_ms * fuel)
      → Ends (suc fuel) n a
  game_loop-Ends zero n a h =
      done_after zero n a _ refl (game_tick-Round rand (times n) a) λ b same late. absurd (
        ground (
          arith,
          +ℤ_parts (began a) game_max_duration,
          -ℤ_parts (times n).at_check (began a),
          +ℤ_parts (times n).at_check (pos (tick_interval_ms * zero)),
        ))
  game_loop-Ends (suc fuel) n a h =
      done_after (suc fuel) n a _ refl (game_tick-Round rand (times n) a) λ b same late.
        game_loop-Ends fuel (suc n) b (
          rw same (
            omega (
              arith,
              h,
              sleeps n,
              +ℤ_parts (began a) game_max_duration,
              +ℤ_parts (times n).at_check (pos (tick_interval_ms * suc fuel)),
              +ℤ_parts (times n).at_check (pos tick_interval_ms),
              +ℤ_parts (times (suc n)).at_check (pos (tick_interval_ms * fuel)),
            )))

  -- Let the clock run on by the length of a tick at least from one check of the end to the next, and let
  -- nothing that other threads do between the ticks change when the game began. Then the loop of a
  -- game that has begun by the time of its first check ends after at most 6001 ticks, whatever the
  -- players do, and leaves a room in which no game runs.
  pub game_thread_func_ends :
      (a : Arena)
      → began a ≤ℤ (times 0).at_check
      → (b : Arena) × (game_thread_func rand times others 6001 a ≡ some b) × IsOver b
  unfolding game_thread_func Ends
  game_thread_func_ends a h =
      game_loop-Ends 6000 0 (record a { room = record (a.room) { game_thread_running = true } })
        (omega (
          arith,
          h,
          +ℤ_parts (began a) game_max_duration,
          +ℤ_parts (times 0).at_check (pos (tick_interval_ms * 6000)),
        ))
