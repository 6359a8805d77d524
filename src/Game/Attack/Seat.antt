-- ===== src/Game/Attack/Seat.antt =====
-- What one round of the loop of `game_handle_attack` does to the player of its seat.
use asciigame.Base.{
  ℕ, ◌+◌, ◌≡◌, ◌≢◌, ◌⊎◌, refl, inl, inr, true, false, arith, some, ℤ, pos, ◌≤ℤ◌, ◌<ℤ◌, ◌-ℤ◌, ltb_ℤ,
  leb_ℤ, ◌==ℤ◌, -ℤ_parts, Bool-cases, ==ℤ_iff, if◌then◌else◌,
}
use asciigame.Player.{Player, player_dead, player_at, player_find_by_id}
use asciigame.Room.{Arena}
use asciigame.Game.Event.{game_calc_damage, game_calc_damage_lem}
use asciigame.Game.Attack.{Blow, is_hit, break_shield, take_damage, die, attack_seat}
use asciigame.Game.Attack.Victim.{struck, suffered}
use asciigame.Game.Attack.Effect.{attack_seat_found}

-- The player `p` becomes `q`, and the count of hits goes from `n` to `m`: nothing happens to the
-- attacker and to whoever is not hit, or the shield alone is lost, or the damage is subtracted.
abbrev pub Spared : Blow → Player → Player → ℕ → ℕ → Type 0
Spared b p q n m = ((p.id ≡ b.attacker_id) ⊎ (is_hit b p ≡ false)) × (q ≡ p) × (m ≡ n)

abbrev pub Shielded : Blow → Player → Player → ℕ → ℕ → Type 0
Shielded b p q n m =
    (is_hit b p ≡ true) × (p.has_shield ≡ true) × (q ≡ record p { has_shield = false }) × (m ≡ n)

abbrev pub Damaged : Blow → Player → Player → ℕ → ℕ → Type 0
Damaged b p q n m =
    let damage = game_calc_damage b.atk_power p.def in
    (is_hit b p ≡ true)
    × (p.has_shield ≡ false)
    × (pos 1 ≤ℤ damage)
    × (m ≡ n + 1)
    × (((damage <ℤ p.hp) × (q ≡ record p { hp = p.hp -ℤ damage }))
        ⊎ ((p.hp ≤ℤ damage) × (q ≡ record p { hp = pos 0; status = player_dead })))

-- The count after the seat of the player.
abbrev hits_of : Blow → Player → ℕ → ℕ
hits_of b p n =
    if p.id ==ℤ b.attacker_id
    then n
    else if is_hit b p
    then if p.has_shield then n else n + 1
    else n

struck_damage :
    (b : Blow) (p : Player)
    → p.has_shield ≡ false
    → let damage = game_calc_damage b.atk_power p.def in
      ((damage <ℤ p.hp) × (struck b p ≡ record p { hp = p.hp -ℤ damage }))
      ⊎ ((p.hp ≤ℤ damage) × (struck b p ≡ record p { hp = pos 0; status = player_dead }))
unfolding take_damage die
struck_damage b p bare =
    let d = game_calc_damage b.atk_power p.def in
    let m = -ℤ_parts p.hp d in
    elim (Bool-cases (leb_ℤ (p.hp -ℤ d) (pos 0))) [
      | inl dead ↦ inr (ground (arith, m), simp bare (rw dead refl))
      | inr alive ↦ inl (ground (arith, m), simp bare (rw alive refl))
    ]

three_ways :
    (b : Blow) (p : Player) (n : ℕ)
    → let m = hits_of b p n in
      Spared b p (suffered b p) n m
      ⊎ Shielded b p (suffered b p) n m
      ⊎ Damaged b p (suffered b p) n m
unfolding break_shield
three_ways b p n = elim (Bool-cases (p.id ==ℤ b.attacker_id)) [
  | inl self ↦ inl (inl ((==ℤ_iff p.id b.attacker_id).0 self), rw self refl, rw self refl)
  | inr other ↦ elim (Bool-cases (is_hit b p)) [
    | inr miss ↦ inl (inr miss, rw (other, miss) refl, rw (other, miss) refl)
    | inl hit ↦ elim (Bool-cases p.has_shield) [
      | inl held ↦ inr (inl (hit, held, simp (other, hit, held), simp (other, hit, held)))
      | inr bare ↦ inr (
          inr (
            hit,
            bare,
            (game_calc_damage_lem b.atk_power p.def).0,
            simp (other, hit, bare),
            rw (other, hit) (struck_damage b p bare),
          ))
    ]
  ]
]

module _ (b : Blow) (id : ℤ) (s : ℕ) (p : Player) (a : Arena) (n : ℕ)
    (taken : ltb_ℤ id (pos 0) ≡ false) (found : player_find_by_id a.players id ≡ some s)
    (seated : player_at a.players s ≡ some p) where
  attack_seat_hits : (attack_seat b id (a, n)).1 ≡ hits_of b p n
  unfolding attack_seat
  attack_seat_hits = rw taken (
      rw (found, attack_seat)
        (rw (seated, attack_seat)
          (elim (Bool-cases (p.id ==ℤ b.attacker_id)) [
            | inl self ↦ rw self refl
            | inr other ↦ rw other (elim (Bool-cases (is_hit b p)) [
              | inr miss ↦ rw miss refl
              | inl hit ↦ rw hit (elim (Bool-cases p.has_shield) [
                | inl held ↦ rw held refl
                | inr bare ↦ rw bare refl
              ])
            ])
          ])))

  -- At a seat that is taken by the player of slot `s`, one round of the loop of an attack changes nobody
  -- else, and of this player one of three: nothing, and no hit is counted, if he is the
  -- attacker or not hit; the shield alone, and no hit is counted, if he is hit and has one; else the
  -- hit is counted, and he loses the damage, at least 1, where it is below his hit points, and
  -- otherwise is dead with exactly 0.
  pub attack_seat_lem :
      let (after, m) = attack_seat b id (a, n) in
      (q : Player) × (player_at after.players s ≡ some q)
      × (Spared b p q n m ⊎ Shielded b p q n m ⊎ Damaged b p q n m)
      × ((j : ℕ) → s ≢ j → player_at after.players j ≡ player_at a.players j)
  attack_seat_lem =
      let only = attack_seat_found b id s p a n taken found seated in
      (suffered b p, only.self, rw attack_seat_hits (three_ways b p n), only.others)
