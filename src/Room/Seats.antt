-- ===== src/Room/Seats.antt =====
-- The places of a room: how many are taken, and what finding, taking and freeing one changes.
use asciigame.Base.{
  ℕ, zero, suc, ◌<◌, ◌≤◌, ◌≡◌, ◌≢◌, refl, ap, sym, inl, inr, List, [], ◌∷◌, Option, none, some,
  arith, ℤ, pos, negsuc, ltb_ℤ, ◌==ℤ◌, ==ℤ_iff, length, set, Bool-cases, if◌then◌else◌,
}
use asciigame.Room.{free_seat, seat_of, taken_ids}

-- A place holds a player when its number is not negative.
abbrev pub count_taken : List ℤ → ℕ
count_taken [] = 0
count_taken (id ∷ ids) = if ltb_ℤ id (pos 0) then count_taken ids else suc (count_taken ids)

pub length-taken_ids : (ids : List ℤ) → length (taken_ids ids) ≡ count_taken ids
length-taken_ids [] = refl
length-taken_ids (id ∷ ids) = elim (Bool-cases (ltb_ℤ id (pos 0))) [
  | inl e ↦ rw e (length-taken_ids ids)
  | inr e ↦ rw e (ap suc (length-taken_ids ids))
]

pub count_taken≤length : (ids : List ℤ) → count_taken ids ≤ length ids
count_taken≤length [] = omega arith
count_taken≤length (id ∷ ids) = ground (arith, count_taken≤length ids)

-- A room with fewer players than places has a free place.
pub free_seat_found :
    (ids : List ℤ) → count_taken ids < length ids → (i : ℕ) × (free_seat ids ≡ some i)
unfolding free_seat
free_seat_found [] h = absurd (omega arith)
free_seat_found (id ∷ ids) h = elim (Bool-cases (ltb_ℤ id (pos 0))) [
  | inl e ↦ (0, simp e)
  | inr e ↦ let (i, q) = free_seat_found ids (ground arith) in (suc i, simp (e, q))
]

count_taken-pos : (n : ℕ) (ids : List ℤ) → count_taken (pos n ∷ ids) ≡ suc (count_taken ids)
count_taken-pos n ids = ground arith

-- A place found past the first one.
not_first :
    (o : Option ℕ) → (elim o as (λ _. Option ℕ) [ none ↦ none | some k ↦ some (suc k) ]) ≢ some 0
not_first none e = cc
not_first (some k) e = ground arith

not_next :
    (o : Option ℕ) (i : ℕ)
    → (elim o as (λ _. Option ℕ) [ none ↦ none | some k ↦ some (suc k) ]) ≡ some (suc i)
    → o ≡ some i
not_next none i e = absurd (cc)
not_next (some k) i e = ground arith

-- Taking the place found adds one.
pub count_taken-take :
    (ids : List ℤ) (i n : ℕ)
    → free_seat ids ≡ some i
    → count_taken (set ids i (pos n)) ≡ suc (count_taken ids)
unfolding free_seat
count_taken-take [] i n e = absurd (cc)
count_taken-take (id ∷ ids) zero n e = elim (Bool-cases (ltb_ℤ id (pos 0))) [
  | inl h ↦ simp h (count_taken-pos n ids)
  | inr h ↦ absurd (not_first (free_seat ids) (simp h at e))
]
count_taken-take (id ∷ ids) (suc i) n e = elim (Bool-cases (ltb_ℤ id (pos 0))) [
  | inl h ↦ absurd (ground (arith, simp h at e))
  | inr h ↦
      let k = count_taken-take ids i n (not_next (free_seat ids) i (simp h at e)) in simp (h, k)
]

-- Freeing the place of a player takes one away.
pub count_taken-free :
    (ids : List ℤ) (i n : ℕ)
    → seat_of (pos n) ids ≡ some i
    → suc (count_taken (set ids i (negsuc 0))) ≡ count_taken ids
unfolding seat_of
count_taken-free [] i n e = absurd (cc)
count_taken-free (id ∷ ids) zero n e = elim (Bool-cases (id ==ℤ pos n)) [
  | inl h ↦ let q = (==ℤ_iff id (pos n)).0 h in simp q (sym (count_taken-pos n ids))
  | inr h ↦ absurd (not_first (seat_of (pos n) ids) (simp h at e))
]
count_taken-free (id ∷ ids) (suc i) n e = elim (Bool-cases (id ==ℤ pos n)) [
  | inl h ↦ absurd (ground (arith, simp h at e))
  | inr h ↦
      let k = count_taken-free ids i n (not_next (seat_of (pos n) ids) i (simp h at e)) in
      elim (Bool-cases (ltb_ℤ id (pos 0))) [ inl g ↦ simp g k | inr g ↦ simp g (ap suc k) ]
]
