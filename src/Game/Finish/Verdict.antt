-- ===== src/Game/Finish/Verdict.antt =====
-- When a game ends, and who wins it.
use asciigame.Base.{
  ℕ, suc, ◌+◌, ◌≤◌, ◌≡◌, refl, ap, sym, ◌∙◌, ◌⊎◌, inl, inr, true, ◌&&◌, List, [], ◌∷◌, arith, some,
  Option, ℤ, pos, negsuc, ◌≤ℤ◌, ◌<ℤ◌, ◌-ℤ◌, leb_ℤ, ltb_ℤ, ◌==◌, ==ℤ_iff, Bool-cases, Option-cases,
  if◌then◌else◌,
}
use asciigame.Config.{game_max_duration, recovery_wait_time}
use asciigame.Player.{Player, player_at, player_find_by_id}
use asciigame.Player.Update.{player_find_by_id_sound}
use asciigame.Player.Seated.{sits, is_seated}
use asciigame.Room.{Arena, is_alive, taken_ids, count_alive, room_get_alive_count}
use asciigame.Game.Finish.{game_check_end, check_wait, judge, tally, tally_seat, draw, go_on}

-- What one place adds: nothing, or one living player who sits there.
SeatCases : ℤ → List ℤ → List (Option Player) → ℕ → ℤ → Type 0
SeatCases id ids ps n last =
    ((tally_seat id ps (n, last) ≡ (n, last))
      × (count_alive (taken_ids (id ∷ ids)) ps ≡ count_alive (taken_ids ids) ps))
    ⊎ ((s : ℕ) × (p : Player) × (player_at ps s ≡ some p)
        × (is_alive p ≡ true)
        × (sits id p ≡ true)
        × (tally_seat id ps (n, last) ≡ (suc n, p.id))
        × (count_alive (taken_ids (id ∷ ids)) ps ≡ suc (count_alive (taken_ids ids) ps)))

tally_seat-SeatCases :
    (id : ℤ) (ids : List ℤ) (ps : List (Option Player)) (n : ℕ) (last : ℤ)
    → SeatCases id ids ps n last
unfolding SeatCases tally_seat count_alive
tally_seat-SeatCases id ids ps n last = elim (Bool-cases (ltb_ℤ id (pos 0))) [
  | inl e ↦ inl (rw e refl, rw e refl)
  | inr e ↦ elim (Option-cases (player_find_by_id ps id)) [
    | inl f ↦ inl (rw e (rw (f, tally_seat) refl), rw e (rw (f, count_alive) refl))
    | inr (s, f) ↦
        let (p, g, k) = player_find_by_id_sound ps id s f in
        elim (Bool-cases (is_alive p)) [
          | inl h ↦ inr (
            s,
            p,
            g,
            h,
            rw e ((==ℤ_iff p.id id).1 k),
            rw e (rw (f, tally_seat) (rw (g, tally_seat) (rw h refl))),
            rw e (rw (f, count_alive) (rw (g, count_alive) (rw h refl))),
          )
          | inr h ↦ inl (
            rw e (rw (f, tally_seat) (rw (g, tally_seat) (rw h refl))),
            rw e (rw (f, count_alive) (rw (g, count_alive) (rw h refl))),
          )
        ]
  ]
]

-- The count of `game_check_end` is that of `room_get_alive_count`.
tally_count :
    (ids : List ℤ) (ps : List (Option Player)) (n : ℕ) (last : ℤ)
    → (tally ids ps (n, last)).0 ≡ n + count_alive (taken_ids ids) ps
unfolding tally SeatCases
tally_count [] ps n last = unfold count_alive in omega arith
tally_count (id ∷ ids) ps n last = elim (tally_seat-SeatCases id ids ps n last) [
  | inl (e, c) ↦
      ap (λ st. (tally ids ps st).0) e ∙ tally_count ids ps n last ∙ ap (λ k. n + k) (sym c)
  | inr (s, p, g, h, k, e, c) ↦
      ap (λ st. (tally ids ps st).0) e ∙ omega (arith, tally_count ids ps (suc n) p.id, c)
]

seated_later :
    (id : ℤ) (ids : List ℤ) (p : Player) → is_seated ids p ≡ true → is_seated (id ∷ ids) p ≡ true
seated_later id ids p e = ground arith

-- Either nobody was found, or the last one found sits in the room and is alive.
tally_last :
    (ids : List ℤ) (ps : List (Option Player)) (n : ℕ) (last : ℤ)
    → ((tally ids ps (n, last)) ≡ (n, last))
      ⊎ ((s : ℕ) × (p : Player) × (player_at ps s ≡ some p)
          × (is_alive p ≡ true)
          × (is_seated ids p ≡ true)
          × ((tally ids ps (n, last)).1 ≡ p.id))
unfolding tally SeatCases
tally_last [] ps n last = inl refl
tally_last (id ∷ ids) ps n last = elim (tally_seat-SeatCases id ids ps n last) [
  | inl (e, c) ↦ elim (tally_last ids ps n last) [
    | inl t ↦ inl (ap (tally ids ps) e ∙ t)
    | inr (s, p, g, h, k, t) ↦
        inr (s, p, g, h, seated_later id ids p k, ap (λ st. (tally ids ps st).1) e ∙ t)
  ]
  | inr (s, p, g, h, k, e, c) ↦ elim (tally_last ids ps (suc n) p.id) [
    | inl t ↦ inr (s, p, g, h, rw k refl, ap (λ st. (tally ids ps st).1) e ∙ ap (λ st. st.1) t)
    | inr (s', p', g', h', k', t) ↦
        inr (s', p', g', h', seated_later id ids p' k', ap (λ st. (tally ids ps st).1) e ∙ t)
  ]
]

-- The verdict follows the number of the living that `room_get_alive_count` gives: nobody is a draw,
-- one is that player's victory, and with two or more the game goes on.
pub record IsVerdict (a : Arena) (winner : ℤ) : Type 0 where
  pub nobody : room_get_alive_count a ≡ 0 → winner ≡ draw
  pub one :
      room_get_alive_count a ≡ 1
      → (s : ℕ) × (p : Player) × (player_at a.players s ≡ some p)
        × (is_alive p ≡ true)
        × (is_seated a.room.player_ids p ≡ true)
        × (winner ≡ p.id)
  pub many : 2 ≤ room_get_alive_count a → winner ≡ go_on

judge_of : ℕ × ℤ → ℤ
judge_of (n, last) = if n == 0 then draw else if n == 1 then last else go_on

judge-judge_of : (a : Arena) → judge a ≡ judge_of (tally a.room.player_ids a.players (0, negsuc 0))
unfolding judge judge_of
judge-judge_of a = refl

judge_of_zero : (st : ℕ × ℤ) → st.0 ≡ 0 → judge_of st ≡ draw
unfolding judge_of
judge_of_zero (n, last) e = ground arith

judge_of_one : (st : ℕ × ℤ) → st.0 ≡ 1 → judge_of st ≡ st.1
unfolding judge_of
judge_of_one (n, last) e = ground arith

judge_of_many : (st : ℕ × ℤ) → 2 ≤ st.0 → judge_of st ≡ go_on
unfolding judge_of
judge_of_many (n, last) e = ground arith

judge-IsVerdict : (a : Arena) → IsVerdict a (judge a)
unfolding room_get_alive_count
judge-IsVerdict a =
    let st = tally a.room.player_ids a.players (0, negsuc 0) in
    let total = tally_count a.room.player_ids a.players 0 (negsuc 0) in
    rw (judge-judge_of a) (record {
      nobody = λ e. judge_of_zero st (omega (arith, total));
      one = λ e. elim (tally_last a.room.player_ids a.players 0 (negsuc 0)) [
        | inl t ↦ absurd (omega (arith, total, ap (λ x. x.0) t))
        | inr (s, p, g, h, k, t) ↦ (s, p, g, h, k, judge_of_one st (omega (arith, total)) ∙ t)
      ];
      many = λ e. judge_of_many st (omega (arith, total));
    })

-- The room waits for players of a recovered game.
abbrev pub IsWaiting : ℤ → Arena → Type 0
IsWaiting now a =
    (a.room.is_recovery_room ≡ true)
    × (a.room.player_count <ℤ a.room.expected_players)
    × (pos 0 <ℤ a.room.expected_players)
    × (now -ℤ a.room.recovery_start_time <ℤ recovery_wait_time)

check_wait_lem :
    (now : ℤ) (a : Arena)
    → let (b, winner) = check_wait now a in
      (b.players ≡ a.players)
      × ((IsWaiting now a × (winner ≡ go_on)) ⊎ (¬ IsWaiting now a × (winner ≡ judge a)))
unfolding check_wait
check_wait_lem now a =
    elim (Bool-cases (a.room.is_recovery_room && ltb_ℤ (pos 0) a.room.expected_players)) [
      | inr e ↦ rw e (refl, inr (λ w. ground arith, refl))
      | inl e ↦ rw e (elim (Bool-cases (leb_ℤ a.room.expected_players a.room.player_count)) [
        | inl f ↦ rw f (refl, inr (λ w. ground arith, refl))
        | inr f ↦
            rw f (elim (Bool-cases (ltb_ℤ (now -ℤ a.room.recovery_start_time) recovery_wait_time)) [
              | inl g ↦
                  rw g (refl, inl ((ground arith, ground arith, ground arith, ground arith), refl))
              | inr g ↦ rw g (refl, inr (λ w. ground arith, refl))
            ])
      ])
    ]

-- After 300 s the game is a draw. Before that, while a recovered room waits for its players, at most
-- 30 s, the game goes on. Else the living decide: none is a draw, one seated player alive wins, and
-- with two or more the game goes on. Players are never changed.
pub game_check_end_lem :
    (now : ℤ) (a : Arena)
    → let (b, winner) = game_check_end now a in
      (b.players ≡ a.players)
      × (((game_max_duration ≤ℤ now -ℤ a.room.game_start_time) × (winner ≡ draw))
          ⊎ ((now -ℤ a.room.game_start_time <ℤ game_max_duration)
              × ((IsWaiting now a × (winner ≡ go_on)) ⊎ (¬ IsWaiting now a × IsVerdict a winner))))
game_check_end_lem now a =
    elim (Bool-cases (leb_ℤ game_max_duration (now -ℤ a.room.game_start_time))) [
      | inl e ↦ unfold game_check_end in rw e (refl, inl (ground arith, refl))
      | inr e ↦
          unfold game_check_end in
          rw e (
            (check_wait_lem now a).0,
            inr (
              ground arith,
              elim ((check_wait_lem now a).1) [
                | inl w ↦ inl w
                | inr (w, j) ↦ inr (w, rw j (judge-IsVerdict a))
              ],
            ),
          )
    ]
