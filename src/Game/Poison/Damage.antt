-- ===== src/Game/Poison/Damage.antt =====
-- What the poison does to the players.
use asciigame.Base.{
  ℕ, zero, suc, ◌≡◌, refl, ap, ◌∙◌, inl, inr, List, [], ◌∷◌, arith, some, none, ℤ, pos, ◌≤ℤ◌, ◌<ℤ◌,
  ◌-ℤ◌, pos_part, neg_part, leb_ℤ, ltb_ℤ, if◌then◌else◌, -ℤ_parts, one_part, Bool-cases,
  Option-cases, eq_of_parts, int_laws,
}
use asciigame.Player.{Player, player_dead, player_at, player_find_by_id}
use asciigame.Player.Update.{player_find_by_id_sound, Distinct}
use asciigame.Player.Pointwise.{
  map_player, Only, Only-update, Only-same, Only-map, absent_map, Distinct-map,
}
use asciigame.Player.Seated.{
  sits, is_seated, NoRepeat, map_player_id, map_player_twice, sit_effect_id, sit_step,
}
use asciigame.Room.{Arena}
use asciigame.Game.Poison.{
  damage_per_tick, poison_player, is_poisoned, poison_seat, poison_seats, game_apply_poison_damage,
}

-- The rounded damage is one point for each tick.
damage_per_tick-one : damage_per_tick ≡ 1
unfolding damage_per_tick
damage_per_tick-one = refl

-- One tick takes one hit point; at the last one the player is dead with exactly 0.
pub poison_player_lem :
    (p : Player)
    → pos 0 <ℤ p.hp
    → let q = poison_player p in
      (q.hp ≡ p.hp -ℤ pos 1)
      × (pos 0 ≤ℤ q.hp)
      × (p.hp ≡ pos 1 → q.status ≡ player_dead)
      × (pos 1 <ℤ p.hp → q.status ≡ p.status)
unfolding poison_player
poison_player_lem p h =
    let m = -ℤ_parts p.hp (pos 1) in
    let o = one_part (p.hp -ℤ pos 1) in
    rw damage_per_tick-one (
      ground (arith, m, o),
      ground (arith, m, o),
      λ e. ground (arith, m, o),
      λ k. ground (arith, m, o),
    )

-- `n` ticks in the poison, one after the other.
abbrev pub poison_ticks : ℕ → Player → Player
poison_ticks zero p = p
poison_ticks (suc n) p = poison_ticks n (poison_player p)

-- In the poison a player loses one hit point with every tick, so in the twenty ticks of one second
-- twenty hit points, as long as there are more than that.
pub poison_ticks-hp : (n : ℕ) (p : Player) → pos n <ℤ p.hp → (poison_ticks n p).hp ≡ p.hp -ℤ pos n
poison_ticks-hp zero p h = eq_of_parts p.hp (p.hp -ℤ pos 0) (omega int_laws)
poison_ticks-hp (suc n) p h =
    let (e, _, _, _) = poison_player_lem p (omega arith) in
    poison_ticks-hp n (poison_player p) (omega (int_laws, ap pos_part e, ap neg_part e))
    ∙ ap (λ z. z -ℤ pos n) e
    ∙ eq_of_parts (p.hp -ℤ pos 1 -ℤ pos n) (p.hp -ℤ pos (suc n)) (omega int_laws)

-- Whoever is alive and outside the zone loses a tick's worth; others keep what they have.
abbrev pub poisoned : ℤ → Player → Player
poisoned radius p = if is_poisoned radius p then poison_player p else p

poisoned_id : (radius : ℤ) (p : Player) → (poisoned radius p).id ≡ p.id
unfolding poison_player
poisoned_id radius p = ground arith

poison_seat_found :
    (now radius id : ℤ) (s : ℕ) (p : Player) (a : Arena)
    → player_find_by_id a.players id ≡ some s
    → player_at a.players s ≡ some p
    → Only s (poisoned radius p) a.players (poison_seat now radius id a).players
unfolding poison_seat
poison_seat_found now radius id s p a f e =
    rw (f, poison_seat)
      (rw (e, poison_seat)
        (elim (Bool-cases (is_poisoned radius p)) [
          | inl h ↦ simp h (elim (Bool-cases (leb_ℤ (p.hp -ℤ pos damage_per_tick) (pos 0))) [
            | inl dead ↦ simp dead (Only-update a.players s poison_player p e)
            | inr alive ↦ simp alive (Only-update a.players s poison_player p e)
          ])
          | inr h ↦ simp h (Only-same a.players s p e)
        ]))

-- One round of the loop over the places.
abbrev poison_round : ℤ → ℤ → ℤ → Arena → Arena
poison_round now radius id a = if ltb_ℤ id (pos 0) then a else poison_seat now radius id a

poison_seat_absent :
    (now radius id : ℤ) (a : Arena)
    → player_find_by_id a.players id ≡ none
    → poison_seat now radius id a ≡ a
unfolding poison_seat
poison_seat_absent now radius id a f = rw (f, poison_seat) refl

poison_round_map :
    (now radius id : ℤ) (a : Arena)
    → Distinct a.players
    → (j : ℕ)
    → player_at (poison_round now radius id a).players j
      ≡ map_player (λ q. if sits id q then poisoned radius q else q) (player_at a.players j)
poison_round_map now radius id a d j = elim (Bool-cases (ltb_ℤ id (pos 0))) [
  | inl e ↦ simp e (map_player_id (player_at a.players j))
  | inr u ↦ simp u (elim (Option-cases (player_find_by_id a.players id)) [
    | inl f ↦
        rw (poison_seat_absent now radius id a f) (absent_map a.players id (poisoned radius) f j)
    | inr (s, f) ↦
        let (p, e, k) = player_find_by_id_sound a.players id s f in
        Only-map a.players _ id s (poisoned radius) p d e k
          (poison_seat_found now radius id s p a f e) j
  ])
]

poison_seats_map :
    (now radius : ℤ) (ids : List ℤ) (a : Arena)
    → Distinct a.players
    → NoRepeat ids
    → (j : ℕ)
    → player_at (poison_seats now radius ids a).players j
      ≡ map_player (λ q. if is_seated ids q then poisoned radius q else q) (player_at a.players j)
unfolding poison_seats
poison_seats_map now radius [] a d r j = map_player_id (player_at a.players j)
poison_seats_map now radius (id ∷ ids) a d r j =
    let g = poisoned radius in
    let b = poison_round now radius id a in
    let f = λ (q : Player). if sits id q then g q else q in
    poison_seats_map now radius ids b
      (Distinct-map a.players b.players f (sit_effect_id g (poisoned_id radius) id)
        (poison_round_map now radius id a d) d)
      r.1 j
    ∙ ap (map_player (λ q. if is_seated ids q then g q else q))
        (poison_round_map now radius id a d j)
    ∙ map_player_twice f _ _ (λ p. sit_step g (poisoned_id radius) id ids p (r.0 p))
        (player_at a.players j)

-- Where no two players have one identifier and none sits at two places:
-- Of all players of the table exactly those who sit in the room, are in the game and alive, and
-- stand outside the room's safe zone are hurt, each once; everybody else stays as before.
pub game_apply_poison_damage_lem :
    (now : ℤ) (a : Arena)
    → Distinct a.players
    → NoRepeat a.room.player_ids
    → (j : ℕ)
    → player_at (game_apply_poison_damage now a).players j
      ≡ map_player
          (λ q. if is_seated a.room.player_ids q then poisoned a.room.poison_radius q else q)
          (player_at a.players j)
unfolding game_apply_poison_damage
game_apply_poison_damage_lem now a d r j =
    poison_seats_map now a.room.poison_radius a.room.player_ids a d r j
