-- ===== src/Player/Update.antt =====
-- Writes through a player pointer, and what later lookups see of them.
use asciigame.Base.{
  ℕ, zero, suc, ◌≡◌, refl, sym, ◌≢◌, ap, List, [], ◌∷◌, arith, some, none, Option, ℤ, ◌==ℤ◌,
  ==ℤ_iff, get_elem?, later, if◌then◌else◌,
}
use asciigame.Player.{Player, player_at, update_player, player_find_by_id}
use asciigame.Player.Lookup.{find_slot_sound, find_slot_unique}

pub player_at-get_elem? :
    (ps : List (Option Player)) (s : ℕ) (p : Player)
    → get_elem? ps s ≡ some (some p)
    → player_at ps s ≡ some p
player_at-get_elem? [] s p e = absurd (cc)
player_at-get_elem? (o ∷ ps) zero p e = ground arith
player_at-get_elem? (o ∷ ps) (suc s) p e = player_at-get_elem? ps s p e

pub get_elem?-player_at :
    (ps : List (Option Player)) (s : ℕ) (p : Player)
    → player_at ps s ≡ some p
    → get_elem? ps s ≡ some (some p)
get_elem?-player_at [] s p e = absurd (cc)
get_elem?-player_at (o ∷ ps) zero p e = ap some e
get_elem?-player_at (o ∷ ps) (suc s) p e = get_elem?-player_at ps s p e

pub player_at-update_self :
    (ps : List (Option Player)) (s : ℕ) (f : Player → Player) (p : Player)
    → player_at ps s ≡ some p
    → player_at (update_player s f ps) s ≡ some (f p)
unfolding update_player
player_at-update_self [] s f p e = absurd (cc)
player_at-update_self (none ∷ ps) zero f p e = absurd (cc)
player_at-update_self (some q ∷ ps) zero f p e = cc
player_at-update_self (o ∷ ps) (suc s) f p e = player_at-update_self ps s f p e

pub player_at-update_ne :
    (ps : List (Option Player)) (s j : ℕ) (f : Player → Player)
    → s ≢ j
    → player_at (update_player s f ps) j ≡ player_at ps j
unfolding update_player
player_at-update_ne [] s j f h = refl
player_at-update_ne (o ∷ ps) zero zero f h = absurd (h refl)
player_at-update_ne (none ∷ ps) zero (suc j) f h = refl
player_at-update_ne (some q ∷ ps) zero (suc j) f h = refl
player_at-update_ne (o ∷ ps) (suc s) zero f h = refl
player_at-update_ne (o ∷ ps) (suc s) (suc j) f h = player_at-update_ne ps s j f (λ e. h (ap suc e))

-- A write that keeps the identifier changes no lookup by identifier.
pub player_find_by_id-update :
    (ps : List (Option Player)) (s : ℕ) (f : Player → Player) (id : ℤ)
    → ((p : Player) → (f p).id ≡ p.id)
    → player_find_by_id (update_player s f ps) id ≡ player_find_by_id ps id
unfolding update_player player_find_by_id
player_find_by_id-update [] s f id h = refl
player_find_by_id-update (none ∷ ps) zero f id h = refl
player_find_by_id-update (some q ∷ ps) zero f id h = rw (h q)
player_find_by_id-update (none ∷ ps) (suc s) f id h =
    ap later (player_find_by_id-update ps s f id h)
player_find_by_id-update (some q ∷ ps) (suc s) f id h =
    ap (λ o. if q.id ==ℤ id then some 0 else later o) (player_find_by_id-update ps s f id h)

-- The player found has the identifier.
pub player_find_by_id_sound :
    (ps : List (Option Player)) (id : ℤ) (s : ℕ)
    → player_find_by_id ps id ≡ some s
    → (p : Player) × (player_at ps s ≡ some p) × (p.id ≡ id)
unfolding player_find_by_id
player_find_by_id_sound ps id s e =
    let (p, g, h) = find_slot_sound (λ q. q.id ==ℤ id) ps s e in
    (p, player_at-get_elem? ps s p g, (==ℤ_iff p.id id).0 h)

-- No two slots hold players of one identifier.
abbrev pub Distinct : List (Option Player) → Type 0
Distinct ps =
    (i j : ℕ) (p q : Player)
    → player_at ps i ≡ some p
    → player_at ps j ≡ some q
    → p.id ≡ q.id
    → i ≡ j

pub player_find_by_id-at :
    (ps : List (Option Player)) (s : ℕ) (p : Player)
    → Distinct ps
    → player_at ps s ≡ some p
    → player_find_by_id ps p.id ≡ some s
unfolding player_find_by_id
player_find_by_id-at ps s p d e =
    find_slot_unique (λ q. q.id ==ℤ p.id) ps s (get_elem?-player_at ps s p e)
      ((==ℤ_iff p.id p.id).1 refl)
      λ i q g h. d i s q p (player_at-get_elem? ps i q g) e ((==ℤ_iff q.id p.id).0 h)

-- Writing back what stands there changes nothing.
pub update_player_same :
    (ps : List (Option Player)) (s : ℕ) (p : Player)
    → player_at ps s ≡ some p
    → update_player s (λ _. p) ps ≡ ps
unfolding update_player
update_player_same [] s p e = refl
update_player_same (none ∷ ps) zero p e = refl
update_player_same (some q ∷ ps) zero p e = ap (λ x. x ∷ ps) (sym e)
update_player_same (o ∷ ps) (suc s) p e = ap (◌∷◌ o) (update_player_same ps s p e)
