-- ===== src/Player/Lookup.antt =====
-- Finding entries in a table of optional entries.
use asciigame.Base.{
  ℕ, zero, suc, ◌<◌, ◌≡◌, refl, inl, inr, Bool, true, false, List, [], ◌∷◌, arith, some, none,
  Option, length, get_elem?, Bool-cases, All, later,
}
use asciigame.Player.{free_slot, find_slot}

pub later-eq-some : (o : Option ℕ) (s : ℕ) → later o ≡ some s → (k : ℕ) × (o ≡ some k) × (s ≡ suc k)
later-eq-some none s e = absurd (cc)
later-eq-some (some k) s e = (k, refl, ground arith)

module _ {ℓ} {A : Type ℓ} where
  -- The slot found is empty and lies in the table.
  pub free_slot-empty :
      (ps : List (Option A)) (s : ℕ)
      → free_slot ps ≡ some s
      → (get_elem? ps s ≡ some none) × (s < length ps)
  unfolding free_slot
  free_slot-empty [] s e = absurd (cc)
  free_slot-empty (none ∷ ps) zero e = (refl, omega arith)
  free_slot-empty (none ∷ ps) (suc s) e = absurd (cc)
  free_slot-empty (some p ∷ ps) s e =
      let (k, e', q) = later-eq-some (free_slot ps) s e in
      let (h, l) = free_slot-empty ps k e' in rw q (h, omega arith)

  abbrev pub is_taken : Option A → Bool
  is_taken none = false
  is_taken (some a) = true

  -- No slot is found exactly when every slot is taken.
  pub free_slot_full :
      (ps : List (Option A)) → free_slot ps ≡ none → All (λ o. is_taken o ≡ true) ps
  unfolding free_slot
  free_slot_full [] e = tt
  free_slot_full (none ∷ ps) e = absurd (cc)
  free_slot_full (some p ∷ ps) e = (refl, free_slot_full ps (ground arith))

  module _ (test : A → Bool) where
    -- What is found passes the test.
    pub find_slot_sound :
        (ps : List (Option A)) (s : ℕ)
        → find_slot test ps ≡ some s
        → (p : A) × (get_elem? ps s ≡ some (some p)) × (test p ≡ true)
    unfolding find_slot
    find_slot_sound [] s e = absurd (cc)
    find_slot_sound (none ∷ ps) s e =
        let (k, e', q) = later-eq-some (find_slot test ps) s e in rw q (find_slot_sound ps k e')
    find_slot_sound (some p ∷ ps) s e = elim (Bool-cases (test p)) [
      | inl h ↦ let z : s ≡ 0 = ground arith in rw z (p, refl, h)
      | inr h ↦
          let (k, e', q) = later-eq-some (find_slot test ps) s (ground arith) in
          rw q (find_slot_sound ps k e')
    ]

    -- Where nothing is found, no entry passes the test.
    pub find_slot-none :
        (ps : List (Option A)) (s : ℕ) {p : A}
        → find_slot test ps ≡ none
        → get_elem? ps s ≡ some (some p)
        → test p ≡ false
    unfolding find_slot
    find_slot-none [] s e g = absurd (cc)
    find_slot-none (none ∷ ps) zero e g = absurd (cc)
    find_slot-none (none ∷ ps) (suc s) e g = find_slot-none ps s (ground arith) g
    find_slot-none (some q ∷ ps) zero {p} e g = ground arith
    find_slot-none (some q ∷ ps) (suc s) e g = find_slot-none ps s (ground arith) g

    -- An entry that passes the test is found, if no other entry does.
    pub find_slot_unique :
        (ps : List (Option A)) (s : ℕ) {p : A}
        → get_elem? ps s ≡ some (some p)
        → test p ≡ true
        → ((i : ℕ) (q : A) → get_elem? ps i ≡ some (some q) → test q ≡ true → i ≡ s)
        → find_slot test ps ≡ some s
    unfolding find_slot
    find_slot_unique [] s g h u = absurd (cc)
    find_slot_unique (none ∷ ps) zero g h u = absurd (cc)
    find_slot_unique (none ∷ ps) (suc s) {p} g h u =
        rw (find_slot_unique ps s g h (λ i q e t. omega (arith, u (suc i) q e t)))
    find_slot_unique (some q ∷ ps) zero {p} g h u = ground arith
    find_slot_unique (some q ∷ ps) (suc s) {p} g h u = elim (Bool-cases (test q)) [
      | inl t ↦ absurd (omega (arith, u 0 q refl t))
      | inr f ↦ rw (f, find_slot_unique ps s g h (λ i q' e t. omega (arith, u (suc i) q' e t)))
    ]
