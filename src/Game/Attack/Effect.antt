-- ===== src/Game/Attack/Effect.antt =====
-- What an attack does to every player of the table.
use asciigame.Base.{
  ℕ, ◌≡◌, refl, ap, ◌∙◌, ◌≢◌, ◌⊎◌, inl, inr, true, false, List, [], ◌∷◌, arith, some, none, ℤ, pos,
  ◌-ℤ◌, ◌≤ℤ◌, ◌<ℤ◌, leb_ℤ, ltb_ℤ, ◌==ℤ◌, ==ℤ_iff, Bool-cases, Option-cases, if◌then◌else◌,
}
use asciigame.Config.{attack_cooldown_ms}
use asciigame.Player.{Player, player_at, update_player, player_find_by_id}
use asciigame.Player.Update.{
  player_at-update_self, player_at-update_ne, player_find_by_id-update, player_find_by_id_sound,
  Distinct,
}
use asciigame.Player.Pointwise.{
  map_player, Only, Only-update, Only-same, Only-trans, Only-map, absent_map, Distinct-map,
  Distinct-update,
}
use asciigame.Player.Seated.{
  sits, is_seated, NoRepeat, map_player_id, map_player_twice, sit_effect_id, sit_step,
}
use asciigame.Room.{Arena, room_broadcast, write_wal}
use asciigame.Game.Attack.{
  Blow, is_hit, break_shield, take_damage, die, shield_holds, hit_player, check_death, attack_seat,
  attack_seats, strike_at, game_handle_attack,
}
use asciigame.Game.Attack.Victim.{struck, suffered, suffered_id}

take_damage_id : (b : Blow) (p : Player) → (take_damage b p).id ≡ p.id
unfolding take_damage
take_damage_id b p = refl

shield_holds_players :
    (b : Blow) (s : ℕ) (p : Player) (a : Arena)
    → (shield_holds b s p a).players ≡ update_player s break_shield a.players
unfolding shield_holds room_broadcast
shield_holds_players b s p a = refl

check_death_players :
    (b : Blow) (id : ℤ) (s : ℕ) (p : Player) (a : Arena)
    → player_find_by_id a.players id ≡ some s
    → player_at a.players s ≡ some p
    → (check_death b id a).players
      ≡ (if leb_ℤ p.hp (pos 0) then update_player s die a.players else a.players)
unfolding check_death room_broadcast
check_death_players b id s p a f e =
    rw (f, check_death)
      (rw (e, check_death)
        (elim (Bool-cases (leb_ℤ p.hp (pos 0))) [ inl h ↦ rw h refl | inr h ↦ rw h refl ]))

hit_player_players :
    (b : Blow) (id : ℤ) (s : ℕ) (p : Player) (a : Arena)
    → player_find_by_id a.players id ≡ some s
    → player_at a.players s ≡ some p
    → let hurt = update_player s (take_damage b) a.players in
      (hit_player b id s p a).players
      ≡ (if leb_ℤ ((take_damage b p).hp) (pos 0) then update_player s die hurt else hurt)
unfolding hit_player room_broadcast
hit_player_players b id s p a f e =
    check_death_players b id s (take_damage b p) _
      (player_find_by_id-update a.players s (take_damage b) id (take_damage_id b) ∙ f)
      (player_at-update_self a.players s (take_damage b) p e)

hit_player-Only :
    (b : Blow) (id : ℤ) (s : ℕ) (p : Player) (a : Arena)
    → player_find_by_id a.players id ≡ some s
    → player_at a.players s ≡ some p
    → p.has_shield ≡ false
    → Only s (struck b p) a.players (hit_player b id s p a).players
hit_player-Only b id s p a f e bare =
    let first = Only-update a.players s (take_damage b) p e in
    rw (hit_player_players b id s p a f e) (
      simp bare (elim (Bool-cases (leb_ℤ ((take_damage b p).hp) (pos 0))) [
        | inl dead ↦ rw dead (
            Only-trans s _ _ a.players _ _ first (Only-update _ s die (take_damage b p) first.self))
        | inr alive ↦ rw alive first
      ]))

-- One place of the room, where its identifier is found: only that player changes.
pub attack_seat_found :
    (b : Blow) (id : ℤ) (s : ℕ) (p : Player) (a : Arena) (n : ℕ)
    → ltb_ℤ id (pos 0) ≡ false
    → player_find_by_id a.players id ≡ some s
    → player_at a.players s ≡ some p
    → Only s (suffered b p) a.players (attack_seat b id (a, n)).0.players
unfolding attack_seat
attack_seat_found b id s p a n u f e = rw u (
    rw (f, attack_seat)
      (rw (e, attack_seat)
        (elim (Bool-cases (p.id ==ℤ b.attacker_id)) [
          | inl self ↦ rw self (Only-same a.players s p e)
          | inr other ↦ rw other (elim (Bool-cases (is_hit b p)) [
            | inr miss ↦ rw miss (Only-same a.players s p e)
            | inl hit ↦ rw hit (elim (Bool-cases p.has_shield) [
              | inl held ↦
                  simp held
                    (rw (shield_holds_players b s p a) (Only-update a.players s break_shield p e))
              | inr bare ↦ simp bare (simp bare at (hit_player-Only b id s p a f e bare))
            ])
          ])
        ])))

attack_seat_absent :
    (b : Blow) (id : ℤ) (a : Arena) (n : ℕ)
    → player_find_by_id a.players id ≡ none
    → attack_seat b id (a, n) ≡ (a, n)
unfolding attack_seat
attack_seat_absent b id a n f = elim (Bool-cases (ltb_ℤ id (pos 0))) [
  | inl e ↦ rw e refl
  | inr e ↦ rw e (rw (f, attack_seat) refl)
]

attack_seat_empty :
    (b : Blow) (id : ℤ) (a : Arena) (n : ℕ)
    → ltb_ℤ id (pos 0) ≡ true
    → attack_seat b id (a, n) ≡ (a, n)
unfolding attack_seat
attack_seat_empty b id a n e = rw e refl

-- One place of the room changes exactly the player who sits there.
attack_seat_map :
    (b : Blow) (id : ℤ) (a : Arena) (n : ℕ)
    → Distinct a.players
    → (j : ℕ)
    → player_at (attack_seat b id (a, n)).0.players j
      ≡ map_player (λ q. if sits id q then suffered b q else q) (player_at a.players j)
attack_seat_map b id a n d j = elim (Bool-cases (ltb_ℤ id (pos 0))) [
  | inl e ↦ rw (attack_seat_empty b id a n e) (simp e (map_player_id (player_at a.players j)))
  | inr u ↦ simp u (elim (Option-cases (player_find_by_id a.players id)) [
    | inl f ↦ rw (attack_seat_absent b id a n f) (absent_map a.players id (suffered b) f j)
    | inr (s, f) ↦
        let (p, e, k) = player_find_by_id_sound a.players id s f in
        Only-map a.players _ id s (suffered b) p d e k (attack_seat_found b id s p a n u f e) j
  ])
]

-- All places: every seated player suffers once, and nobody else changes.
pub attack_seats_map :
    (b : Blow) (ids : List ℤ) (a : Arena) (n : ℕ)
    → Distinct a.players
    → NoRepeat ids
    → (j : ℕ)
    → player_at (attack_seats b ids (a, n)).0.players j
      ≡ map_player (λ q. if is_seated ids q then suffered b q else q) (player_at a.players j)
unfolding attack_seats
attack_seats_map b [] a n d r j = map_player_id (player_at a.players j)
attack_seats_map b (id ∷ ids) a n d r j =
    let st = attack_seat b id (a, n) in
    let f = λ (q : Player). if sits id q then suffered b q else q in
    attack_seats_map b ids (st.0) (st.1)
      (Distinct-map a.players (st.0.players) f (sit_effect_id (suffered b) (suffered_id b) id)
        (attack_seat_map b id a n d) d)
      r.1 j
    ∙ ap (map_player (λ q. if is_seated ids q then suffered b q else q))
        (attack_seat_map b id a n d j)
    ∙ map_player_twice f _ _ (λ p. sit_step (suffered b) (suffered_id b) id ids p (r.0 p))
        (player_at a.players j)

-- The blow that a player strikes at a time.
abbrev pub blow_of : ℤ → Player → Blow
blow_of now p = record {
  attacker_id = p.id;
  atk_x = p.x;
  atk_y = p.y;
  atk_power = p.atk;
  now = now;
}

strike_at_id : (now : ℤ) (p : Player) → (strike_at now p).id ≡ p.id
unfolding strike_at
strike_at_id now p = refl

-- The table after an attack that is not on cooldown.
attack_players :
    (now : ℤ) (s : ℕ) (a : Arena) (p : Player)
    → player_at a.players s ≡ some p
    → ltb_ℤ (now -ℤ p.last_attack_time) attack_cooldown_ms ≡ false
    → Distinct a.players
    → NoRepeat a.room.player_ids
    → let (after, done) = game_handle_attack now s a in
      (done ≡ true)
      × ((j : ℕ)
          → player_at after.players j
            ≡ map_player
                (λ q. if is_seated a.room.player_ids q then suffered (blow_of now p) q else q)
                (player_at (update_player s (strike_at now) a.players) j))
unfolding game_handle_attack room_broadcast write_wal
attack_players now s a p e ready d r =
    let d' = Distinct-update a.players s (strike_at now) (strike_at_id now) d in
    rw (e, game_handle_attack)
      (rw ready (refl, λ j. attack_seats_map (blow_of now p) a.room.player_ids _ 0 d' r j))

suffered_self : (b : Blow) (p : Player) → p.id ≡ b.attacker_id → suffered b p ≡ p
suffered_self b p e = rw ((==ℤ_iff p.id b.attacker_id).1 e)

-- Where no two players have one identifier and none sits at two places:
-- An attack that is on cooldown changes nothing. Any other attack notes the time for the attacker
-- and changes nothing else of him; of all the other players exactly those seated in the room suffer
-- the blow, each once, whatever their order, and everybody else stays as before.
pub game_handle_attack_lem :
    (now : ℤ) (s : ℕ) (a : Arena) (p : Player)
    → player_at a.players s ≡ some p
    → Distinct a.players
    → NoRepeat a.room.player_ids
    → let (after, done) = game_handle_attack now s a in
      ((done ≡ true)
        × (attack_cooldown_ms ≤ℤ now -ℤ p.last_attack_time)
        × (player_at after.players s ≡ some (strike_at now p))
        × ((j : ℕ)
            → s ≢ j
            → player_at after.players j
              ≡ map_player
                  (λ q. if is_seated a.room.player_ids q then suffered (blow_of now p) q else q)
                  (player_at a.players j)))
      ⊎ ((done ≡ false) × (now -ℤ p.last_attack_time <ℤ attack_cooldown_ms) × (after ≡ a))
game_handle_attack_lem now s a p e d r =
    elim (Bool-cases (ltb_ℤ (now -ℤ p.last_attack_time) attack_cooldown_ms)) [
      | inl cold ↦ inr (
          unfold game_handle_attack in
          rw (e, game_handle_attack) (rw cold (refl, ground arith, refl)))
      | inr ready ↦
          let (done, at) = attack_players now s a p e ready d r in
          inl (
            done,
            ground arith,
            at s
                ∙ ap (map_player (effect now p))
                    (player_at-update_self a.players s (strike_at now) p e)
                ∙ ap some (spared now p),
            λ j n.
                at j
                ∙ ap (map_player (effect now p))
                    (player_at-update_ne a.players s j (strike_at now) n),
          )
    ]
  where
    effect : ℤ → Player → Player → Player
    effect now p q = if is_seated a.room.player_ids q then suffered (blow_of now p) q else q

    spared : (now : ℤ) (p : Player) → effect now p (strike_at now p) ≡ strike_at now p
    spared now p = elim (Bool-cases (is_seated a.room.player_ids (strike_at now p))) [
      | inl h ↦ simp h (suffered_self (blow_of now p) (strike_at now p) (strike_at_id now p))
      | inr h ↦ simp h
    ]
