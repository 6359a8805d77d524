-- ===== src/Player/Table.antt =====
-- The table of all players: identifiers are never used twice.
use asciigame.Base.{
  ℕ, zero, suc, ◌<◌, ◌≡◌, refl, sym, ◌∙◌, ◌≢◌, ap, ◌⊎◌, inl, inr, ◌↔◌, List, arith, some, none,
  Option, ℤ, pos, ◌<ℤ◌, ◌==ℤ◌, ◌+ℤ◌, int_laws, pos_part, neg_part, ==ℤ_iff, length, get_elem?, set,
  length-set, get_elem?-set_self, get_elem?-set_ne, get_elem?-lt-length, length-replicate,
  replicate, Option-cases,
}
use native.Mathlib.Decide.{ℕ_discrete}
use asciigame.Config.{max_players}
use asciigame.Player.{
  Player, PlayerTable, player_init, player_create, player_destroy, player_find_by_id, free_slot,
  new_player,
}
use asciigame.Player.Lookup.{free_slot-empty, find_slot_sound, find_slot_unique}

-- The player at a slot.
abbrev pub At : List (Option Player) → ℕ → Player → Type 0
At ps i p = get_elem? ps i ≡ some (some p)

-- No two slots hold players of one identifier, and `next_player_id` is above all of them.
pub record IsTable (t : PlayerTable) : Type 0 where
  pub size : length t.slots ≡ max_players
  pub fresh : (i : ℕ) (p : Player) → At t.slots i p → p.id <ℤ t.next_player_id
  pub distinct : (i j : ℕ) (p q : Player) → At t.slots i p → At t.slots j q → p.id ≡ q.id → i ≡ j

-- In a well-formed table `player_find_by_id` returns a slot exactly when the player there has the
-- identifier.
pub player_find_by_id_iff :
    (t : PlayerTable) (id : ℤ) (s : ℕ)
    → IsTable t
    → (player_find_by_id t.slots id ≡ some s) ↔ ((p : Player) × At t.slots s p × (p.id ≡ id))
unfolding player_find_by_id
player_find_by_id_iff t id s v = (
  λ e.
      let (p, g, h) = find_slot_sound (λ q. q.id ==ℤ id) t.slots s e in
      (p, g, (==ℤ_iff p.id id).0 h),
  λ (p, g, h).
      find_slot_unique (λ q. q.id ==ℤ id) t.slots s g ((==ℤ_iff p.id id).1 h)
        λ i q e k. v.distinct i s q p e g ((==ℤ_iff q.id id).0 k ∙ sym h),
)

-- The entries after one slot is rewritten.
get_elem?-set :
    (ps : List (Option Player)) (s i : ℕ) (o : Option Player) {p : Player}
    → At (set ps s o) i p
    → ((i ≡ s) × (o ≡ some p)) ⊎ ((i ≢ s) × At ps i p)
get_elem?-set ps s i o g = elim (ℕ_discrete i s) [
  | yes e ↦
      let inside : s < length ps =
        omega (arith, get_elem?-lt-length (set ps s o) i g, length-set ps s o) in
      inl (e, ground (arith, get_elem?-set_self ps s o inside))
  | no n ↦ inr (n, sym (get_elem?-set_ne ps s i o (λ e. n (sym e))) ∙ g)
]

player_create-some :
    (t : PlayerTable) (fd : ℤ) (s : ℕ)
    → free_slot t.slots ≡ some s
    → player_create t fd ≡ (
      record {
        slots = set t.slots s (some (new_player fd t.next_player_id));
        next_player_id = t.next_player_id +ℤ pos 1;
      },
      some s,
    )
unfolding player_create
player_create-some t fd s e = rw (e, player_create)

player_create-none :
    (t : PlayerTable) (fd : ℤ) → free_slot t.slots ≡ none → player_create t fd ≡ (t, none)
unfolding player_create
player_create-none t fd e = rw (e, player_create)

-- Connecting a player keeps a table well formed: its size, and identifiers distinct and fresh.
pub player_create-IsTable : (t : PlayerTable) (fd : ℤ) → IsTable t → IsTable (player_create t fd).0
player_create-IsTable t fd v = elim (Option-cases (free_slot t.slots)) [
  | inl e ↦ rw (player_create-none t fd e) v
  | inr (s, e) ↦ rw (player_create-some t fd s e) (record {
    size = length-set t.slots s _ ∙ v.size;
    fresh = λ i p g. elim (get_elem?-set t.slots s i _ g) [
      | inl (_, q) ↦ omega (int_laws, ap pos_part (same_id q), ap neg_part (same_id q))
      | inr (_, g') ↦ omega (int_laws, v.fresh i p g')
    ];
    distinct = λ i j p q g h k. elim (get_elem?-set t.slots s i _ g) [
      | inl (a, c) ↦ elim (get_elem?-set t.slots s j _ h) [
        | inl (b, d) ↦ a ∙ sym b
        | inr (_, h') ↦ absurd (above j q h' (same_id c ∙ k))
      ]
      | inr (_, g') ↦ elim (get_elem?-set t.slots s j _ h) [
        | inl (_, d) ↦ absurd (above i p g' (same_id d ∙ sym k))
        | inr (_, h') ↦ v.distinct i j p q g' h' k
      ]
    ];
  })
]
  where
    same_id :
        {p : Player} → some (new_player fd t.next_player_id) ≡ some p → t.next_player_id ≡ p.id
    same_id q = ground arith

    above : (i : ℕ) (p : Player) → At t.slots i p → t.next_player_id ≢ p.id
    above i p g e = omega (arith, v.fresh i p g, ap pos_part e, ap neg_part e)

-- Where a well-formed table returns a slot for a new player, that slot was empty; the player stands
-- there now, under the identifier `next_player_id`, and can be found by it.
pub player_create_lem :
    (t : PlayerTable) (fd : ℤ) (s : ℕ)
    → IsTable t
    → (player_create t fd).1 ≡ some s
    → (get_elem? t.slots s ≡ some none)
      × At (player_create t fd).0.slots s (new_player fd t.next_player_id)
      × (player_find_by_id (player_create t fd).0.slots t.next_player_id ≡ some s)
player_create_lem t fd s v e = elim (Option-cases (free_slot t.slots)) [
  | inl f ↦ absurd (refused f e)
  | inr (k, f) ↦ done (k, f)
]
  where
    refused : free_slot t.slots ≡ none → (player_create t fd).1 ≡ some s → ⊥
    refused f = rw (player_create-none t fd f) (λ q. cc)

    here : (k : ℕ) → free_slot t.slots ≡ some k → k ≡ s
    here k f = ground (arith, ap (λ r. r.1) (player_create-some t fd k f))

    placed :
        (k : ℕ)
        → free_slot t.slots ≡ some k
        → At (player_create t fd).0.slots k (new_player fd t.next_player_id)
    placed k f =
        rw (player_create-some t fd k f)
          (get_elem?-set_self t.slots k _ (free_slot-empty t.slots k f).1)

    done :
        ((k : ℕ) × (free_slot t.slots ≡ some k))
        → (get_elem? t.slots s ≡ some none)
          × At (player_create t fd).0.slots s (new_player fd t.next_player_id)
          × (player_find_by_id (player_create t fd).0.slots t.next_player_id ≡ some s)
    done (k, f) =
        let f' : free_slot t.slots ≡ some s = rw (← here k f) f in
        let g = placed s f' in
        (
          (free_slot-empty t.slots s f').0,
          g,
          (player_find_by_id_iff (player_create t fd).0 t.next_player_id s
                (player_create-IsTable t fd v)).1
              (new_player fd t.next_player_id, g, refl),
        )

-- Disconnecting a player of a well-formed table keeps it well formed and empties its slot: its identifier is found
-- no more.
pub player_destroy_lem :
    (t : PlayerTable) (s : ℕ) (p : Player)
    → IsTable t
    → At t.slots s p
    → IsTable (player_destroy t s) × (player_find_by_id (player_destroy t s).slots p.id ≡ none)
unfolding player_destroy
player_destroy_lem t s p v g = (
  valid,
  elim (Option-cases (player_find_by_id after.slots p.id)) [
    | inl e ↦ e
    | inr (k, e) ↦ absurd (gone k e)
  ],
)
  where
    after : PlayerTable
    after = record t { slots = set t.slots s none }

    kept : (i : ℕ) (q : Player) → At after.slots i q → (i ≢ s) × At t.slots i q
    kept i q h = elim (get_elem?-set t.slots s i none h) [ inl (_, c) ↦ absurd (cc) | inr r ↦ r ]

    valid : IsTable after
    valid = record {
      size = length-set t.slots s none ∙ v.size;
      fresh = λ i q h. v.fresh i q (kept i q h).1;
      distinct = λ i j a b h k e. v.distinct i j a b (kept i a h).1 (kept j b k).1 e;
    }

    gone : (k : ℕ) → player_find_by_id after.slots p.id ≡ some k → ⊥
    gone k e =
        let (q, h, d) = (player_find_by_id_iff after p.id k valid).0 e in
        (kept k q h).0 (v.distinct k s q p (kept k q h).1 g d)

get_elem?-replicate-none : (n i : ℕ) (p : Player) → At (replicate n none) i p → ⊥
get_elem?-replicate-none zero i p g = cc
get_elem?-replicate-none (suc n) zero p g = cc
get_elem?-replicate-none (suc n) (suc i) p g = get_elem?-replicate-none n i p g

pub player_init-IsTable : IsTable player_init
unfolding player_init
player_init-IsTable = record {
  size = length-replicate {A = Option Player} max_players none;
  fresh = λ i p g. absurd (get_elem?-replicate-none max_players i p g);
  distinct = λ i j p q g h e. absurd (get_elem?-replicate-none max_players i p g);
}
