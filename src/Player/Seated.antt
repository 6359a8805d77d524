-- ===== src/Player/Seated.antt =====
-- Who sits at a list of places, and the effect of a loop over the places on each player.
use asciigame.Base.{
  ◌≡◌, refl, ap, ◌∙◌, Bool, true, false, List, [], ◌∷◌, Option, none, some, ℤ, pos, ltb_ℤ, ◌==ℤ◌,
  if◌then◌else◌, Bool-cases, inl, inr,
}
use asciigame.Player.{Player}
use asciigame.Player.Pointwise.{map_player}

-- The place's identifier names this player.
abbrev pub sits : ℤ → Player → Bool
sits id p = if ltb_ℤ id (pos 0) then false else p.id ==ℤ id

-- A player sits at some place of the list.
abbrev pub is_seated : List ℤ → Player → Bool
is_seated [] p = false
is_seated (id ∷ ids) p = if sits id p then true else is_seated ids p

-- No identifier is at two places; places without a player hold negative numbers.
abbrev pub NoRepeat : List ℤ → Type 0
NoRepeat [] = Unit {0}
NoRepeat (id ∷ ids) = ((p : Player) → sits id p ≡ true → is_seated ids p ≡ false) × NoRepeat ids

pub map_player_id : (x : Option Player) → x ≡ map_player (λ q. q) x
map_player_id none = refl
map_player_id (some q) = refl

pub map_player_twice :
    (f g h : Player → Player)
    → ((p : Player) → g (f p) ≡ h p)
    → (x : Option Player) → map_player g (map_player f x) ≡ map_player h x
map_player_twice f g h e none = refl
map_player_twice f g h e (some p) = ap some (e p)

is_seated_id : (ids : List ℤ) (p q : Player) → p.id ≡ q.id → is_seated ids p ≡ is_seated ids q
is_seated_id [] p q e = refl
is_seated_id (id ∷ ids) p q e = simp (e, is_seated_id ids p q e)

module _ (g : Player → Player) (keep : (p : Player) → (g p).id ≡ p.id) where
  pub sit_effect_id : (id : ℤ) (p : Player) → (if sits id p then g p else p).id ≡ p.id
  sit_effect_id id p = elim (Bool-cases (sits id p)) [ inl e ↦ simp e (keep p) | inr e ↦ simp e ]

  -- First one place, then the others.
  pub sit_step :
      (id : ℤ) (ids : List ℤ) (p : Player)
      → (sits id p ≡ true → is_seated ids p ≡ false)
      → let q = if sits id p then g p else p in
        (if is_seated ids q then g q else q) ≡ (if is_seated (id ∷ ids) p then g p else p)
  sit_step id ids p h = elim (Bool-cases (sits id p)) [
    | inl e ↦ simp e (simp (is_seated_id ids (g p) p (keep p) ∙ h e))
    | inr e ↦ simp e
  ]
