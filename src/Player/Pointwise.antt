-- ===== src/Player/Pointwise.antt =====
-- A table after a change, slot by slot.
use asciigame.Base.{
  ℕ, zero, suc, [], ◌∷◌, ◌≡◌, refl, sym, ◌∙◌, ◌≢◌, true, List, arith, some, none, Option, ℤ, ◌==ℤ◌,
  ==ℤ_iff, Bool-cases, inl, inr, if◌then◌else◌,
}
use native.Mathlib.Decide.{ℕ_discrete}
use asciigame.Player.{Player, player_at, update_player, player_find_by_id}
use asciigame.Player.Lookup.{find_slot-none}
use asciigame.Player.Update.{
  player_at-update_self, player_at-update_ne, Distinct, get_elem?-player_at,
}

abbrev pub map_player : (Player → Player) → Option Player → Option Player
map_player f none = none
map_player f (some p) = some (f p)

-- The table `qs` is `ps` but for the player `v` at slot `s`.
pub record Only (s : ℕ) (v : Player) (ps qs : List (Option Player)) : Type 0 where
  pub self : player_at qs s ≡ some v
  pub others : (j : ℕ) → s ≢ j → player_at qs j ≡ player_at ps j

pub Only-update :
    (ps : List (Option Player)) (s : ℕ) (f : Player → Player) (p : Player)
    → player_at ps s ≡ some p
    → Only s (f p) ps (update_player s f ps)
Only-update ps s f p e = record {
  self = player_at-update_self ps s f p e;
  others = λ j n. player_at-update_ne ps s j f n;
}

pub Only-same :
    (ps : List (Option Player)) (s : ℕ) (p : Player) → player_at ps s ≡ some p → Only s p ps ps
Only-same ps s p e = record { self = e; others = λ j n. refl }

pub Only-trans :
    (s : ℕ) (u v : Player) (ps qs rs : List (Option Player))
    → Only s u ps qs
    → Only s v qs rs
    → Only s v ps rs
Only-trans s u v ps qs rs a b = record {
  self = b.self;
  others = λ j n. b.others j n ∙ a.others j n;
}

-- Where identifiers are distinct, a change of the player found under an identifier is a change of
-- the players with that identifier.
pub Only-map :
    (ps qs : List (Option Player)) (id : ℤ) (s : ℕ) (f : Player → Player) (p : Player)
    → Distinct ps
    → player_at ps s ≡ some p
    → p.id ≡ id
    → Only s (f p) ps qs
    → (j : ℕ) → player_at qs j ≡ map_player (λ q. if q.id ==ℤ id then f q else q) (player_at ps j)
Only-map ps qs id s f p d e k o j = elim (ℕ_discrete s j) [
  | yes h ↦
      let hit : (p.id ==ℤ id) ≡ true = (==ℤ_iff p.id id).1 k in
      rw (← h) (rw e (o.self ∙ (rw hit refl)))
  | no n ↦ o.others j n ∙ keep (player_at ps j) refl n
]
  where
    keep :
        (x : Option Player)
        → player_at ps j ≡ x
        → s ≢ j
        → x ≡ map_player (λ q. if q.id ==ℤ id then f q else q) x
    keep none g n = refl
    keep (some q) g n = elim (Bool-cases (q.id ==ℤ id)) [
      | inl h ↦ absurd (n (d s j p q e g (k ∙ sym ((==ℤ_iff q.id id).0 h))))
      | inr h ↦ rw h refl
    ]

-- Where nothing is found, no player has the identifier.
pub absent_map :
    (ps : List (Option Player)) (id : ℤ) (f : Player → Player)
    → player_find_by_id ps id ≡ none
    → (j : ℕ) → player_at ps j ≡ map_player (λ q. if q.id ==ℤ id then f q else q) (player_at ps j)
unfolding player_find_by_id
absent_map ps id f e j = keep (player_at ps j) refl
  where
    keep :
        (x : Option Player)
        → player_at ps j ≡ x
        → x ≡ map_player (λ q. if q.id ==ℤ id then f q else q) x
    keep none g = refl
    keep (some q) g =
        rw (find_slot-none (λ r. r.id ==ℤ id) ps j e (get_elem?-player_at ps j q g)) refl

-- A change that keeps identifiers keeps them distinct.
pub Distinct-map :
    (ps qs : List (Option Player)) (f : Player → Player)
    → ((p : Player) → (f p).id ≡ p.id)
    → ((j : ℕ) → player_at qs j ≡ map_player f (player_at ps j))
    → Distinct ps
    → Distinct qs
Distinct-map ps qs f keep h d i j p q a b e =
    let (p', a', u) = back i p a in
    let (q', b', v) = back j q b in d i j p' q' a' b' (sym u ∙ e ∙ v)
  where
    go :
        (x : Option Player) (p : Player)
        → map_player f x ≡ some p
        → (p' : Player) × (x ≡ some p') × (p.id ≡ p'.id)
    go none p e = absurd (cc)
    go (some r) p e = (r, refl, cc (keep r))

    back :
        (i : ℕ) (p : Player)
        → player_at qs i ≡ some p
        → (p' : Player) × (player_at ps i ≡ some p') × (p.id ≡ p'.id)
    back i p a = go (player_at ps i) p (sym (h i) ∙ a)

-- A write through one pointer that keeps the identifier keeps identifiers distinct.
pub Distinct-update :
    (ps : List (Option Player)) (s : ℕ) (f : Player → Player)
    → ((p : Player) → (f p).id ≡ p.id)
    → Distinct ps
    → Distinct (update_player s f ps)
unfolding update_player
Distinct-update ps s f keep d i j p q a b e =
    let (p', a', u) = before ps s i p a in
    let (q', b', v) = before ps s j q b in d i j p' q' a' b' (sym u ∙ e ∙ v)
  where
    before :
        (ps : List (Option Player)) (s i : ℕ) (p : Player)
        → player_at (update_player s f ps) i ≡ some p
        → (p' : Player) × (player_at ps i ≡ some p') × (p.id ≡ p'.id)
    before [] s i p a = absurd (cc)
    before (none ∷ ps) zero i p a = (p, a, refl)
    before (some r ∷ ps) zero zero p a = (r, refl, ground (arith, keep r))
    before (some r ∷ ps) zero (suc i) p a = (p, a, refl)
    before (o ∷ ps) (suc s) zero p a = (p, a, refl)
    before (o ∷ ps) (suc s) (suc i) p a = before ps s i p a
