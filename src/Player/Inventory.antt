-- ===== src/Player/Inventory.antt =====
-- The inventory array and its count against the list of items that it stands for.
use asciigame.Base.{
  ℕ, zero, suc, ◌+◌, ◌-◌, ◌<◌, ◌≤◌, ◌≡◌, refl, sym, ◌∙◌, ap, ◌↔◌, true, false, List, [], ◌∷◌, ◌++◌,
  arith, some, ℤ, pos, negsuc, ◌≤ℤ◌, ◌<ℤ◌, ◌⊎◌, length, take, set, get_or, get_elem?, All,
  length-set, leb, Bool-cases, inl, inr,
}
use asciigame.Config.{max_inventory}
use asciigame.Player.{
  Player, ItemType, item_none, is_none, player_add_item, player_use_item, shift_down,
  player_reset_game_state, new_player,
}

-- The items that a player carries, in order.
abbrev pub items : Player → List ItemType
items p = take p.inventory_count p.inventory

-- The array has its five places, the count fits, and no place that is counted is empty.
pub record IsStocked (p : Player) : Type 0 where
  pub places : length p.inventory ≡ max_inventory
  pub fits : p.inventory_count ≤ max_inventory
  pub real : All (λ t. is_none t ≡ false) (items p)

abbrev pub remove_at {ℓ} : {A : Type ℓ} → ℕ → List A → List A
remove_at i [] = []
remove_at zero (x ∷ xs) = xs
remove_at (suc i) (x ∷ xs) = x ∷ remove_at i xs

module _ {ℓ} {A : Type ℓ} where
  take-set : (n : ℕ) (xs : List A) (v : A) → take n (set xs n v) ≡ take n xs
  take-set zero xs v = refl
  take-set (suc n) [] v = refl
  take-set (suc n) (x ∷ xs) v = ap (◌∷◌ x) (take-set n xs v)

  take-set_snoc :
      (n : ℕ) (xs : List A) (v : A)
      → n < length xs
      → take (suc n) (set xs n v) ≡ take n xs ++ (v ∷ [])
  take-set_snoc n [] v h = absurd (omega arith)
  take-set_snoc zero (x ∷ xs) v h = refl
  take-set_snoc (suc n) (x ∷ xs) v h = ap (◌∷◌ x) (take-set_snoc n xs v (omega arith))

shift_down-cons :
    (rounds i : ℕ) (x : ItemType) (inv : List ItemType)
    → shift_down rounds (suc i) (x ∷ inv) ≡ x ∷ shift_down rounds i inv
unfolding shift_down
shift_down-cons zero i x inv = refl
shift_down-cons (suc r) i x inv =
    shift_down-cons r (suc i) x (set inv i (get_or inv (suc i) item_none))

length-shift_down :
    (rounds i : ℕ) (inv : List ItemType) → length (shift_down rounds i inv) ≡ length inv
unfolding shift_down
length-shift_down zero i inv = refl
length-shift_down (suc r) i inv =
    length-shift_down r (suc i) (set inv i (get_or inv (suc i) item_none))
    ∙ length-set inv i (get_or inv (suc i) item_none)

shift_down-first :
    (rounds : ℕ) (x : ItemType) (inv : List ItemType)
    → rounds ≤ length inv
    → take rounds (shift_down rounds 0 (x ∷ inv)) ≡ take rounds inv
unfolding shift_down
shift_down-first zero x inv h = refl
shift_down-first (suc r) x [] h = absurd (omega arith)
shift_down-first (suc r) x (y ∷ inv) h =
    ap (take (suc r)) (shift_down-cons r 0 y (y ∷ inv))
    ∙ ap (◌∷◌ y) (shift_down-first r y inv (omega arith))

-- The loop closes the gap at `i`.
shift_down-remove_at :
    (i rounds : ℕ) (inv : List ItemType)
    → i + suc rounds ≤ length inv
    → take (i + rounds) (shift_down rounds i inv) ≡ remove_at i (take (i + suc rounds) inv)
shift_down-remove_at i r [] h = absurd (omega arith)
shift_down-remove_at zero r (x ∷ inv) h =
    let e : 0 + r ≡ r = omega arith in
    let e' : 0 + suc r ≡ suc r = omega arith in rw (e, e') (shift_down-first r x inv (omega arith))
shift_down-remove_at (suc i) r (x ∷ inv) h =
    let e : suc i + r ≡ suc (i + r) = omega arith in
    let e' : suc i + suc r ≡ suc (i + suc r) = omega arith in
    rw (e, e')
      (ap (take (suc (i + r))) (shift_down-cons r i x inv)
        ∙ ap (◌∷◌ x) (shift_down-remove_at i r inv (omega arith)))

All-remove_at :
    (i : ℕ) (xs : List ItemType)
    → All (λ t. is_none t ≡ false) xs
    → All (λ t. is_none t ≡ false) (remove_at i xs)
All-remove_at i [] h = tt
All-remove_at zero (x ∷ xs) h = h.1
All-remove_at (suc i) (x ∷ xs) h = (h.0, All-remove_at i xs h.1)

All-snoc :
    (xs : List ItemType) (t : ItemType)
    → All (λ t. is_none t ≡ false) xs
    → is_none t ≡ false
    → All (λ t. is_none t ≡ false) (xs ++ (t ∷ []))
All-snoc [] t h e = (e, tt)
All-snoc (x ∷ xs) t h e = (h.0, All-snoc xs t h.1 e)

get_elem?-take :
    (n i : ℕ) (inv : List ItemType)
    → i < n
    → n ≤ length inv
    → get_elem? (take n inv) i ≡ some (get_or inv i item_none)
get_elem?-take zero i inv h k = elim h [ ]
get_elem?-take (suc n) i [] h k = absurd (omega arith)
get_elem?-take (suc n) zero (x ∷ inv) h k = refl
get_elem?-take (suc n) (suc i) (x ∷ inv) h k = get_elem?-take n i inv (omega arith) (omega arith)

get_or-real :
    (n i : ℕ) (inv : List ItemType)
    → i < n
    → All (λ t. is_none t ≡ false) (take n inv)
    → n ≤ length inv
    → is_none (get_or inv i item_none) ≡ false
get_or-real zero i inv h a k = elim h [ ]
get_or-real (suc n) i [] h a k = absurd (omega arith)
get_or-real (suc n) zero (x ∷ inv) h a k = a.0
get_or-real (suc n) (suc i) (x ∷ inv) h a k = get_or-real n i inv (omega arith) a.1 (omega arith)

add_room :
    (p : Player) (t : ItemType)
    → IsStocked p
    → is_none t ≡ false
    → p.inventory_count < max_inventory
    → let (q, done) = player_add_item p t in
      (done ≡ true) × (items q ≡ items p ++ (t ∷ [])) × IsStocked q
unfolding player_add_item
add_room p t v e h =
    let full : leb max_inventory p.inventory_count ≡ false = ground arith in
    let same : p.inventory_count + 1 ≡ suc p.inventory_count = omega arith in
    let inv = set p.inventory p.inventory_count t in
    let appended : take (p.inventory_count + 1) inv ≡ items p ++ (t ∷ []) =
      rw same (take-set_snoc p.inventory_count p.inventory t (omega (arith, v.places))) in
    rw (e, full)
      (
        refl,
        appended,
        record {
          places = length-set p.inventory p.inventory_count t ∙ v.places;
          fits = omega arith;
          real = rw appended (All-snoc (items p) t v.real e);
        },
      )

-- Adding an item to a well-formed inventory succeeds exactly when it is not ITEM_NONE and there is room. It then stands last,
-- else nothing changes. The inventory stays well formed either way.
pub player_add_item_lem :
    (p : Player) (t : ItemType)
    → IsStocked p
    → let (q, done) = player_add_item p t in
      ((done ≡ true) ↔ ((is_none t ≡ false) × (p.inventory_count < max_inventory)))
      × ((done ≡ true) → items q ≡ items p ++ (t ∷ []))
      × ((done ≡ false) → q ≡ p)
      × IsStocked q
player_add_item_lem p t v = elim (Bool-cases (is_none t)) [
  | inl e ↦ unfold player_add_item in rw e ((λ d. cc, λ r. cc), λ d. cc, λ d. refl, v)
  | inr e ↦ elim (Bool-cases (leb max_inventory p.inventory_count)) [
    | inl full ↦
        unfold player_add_item in
        rw (e, full) ((λ d. cc, λ r. absurd (ground arith)), λ d. cc, λ d. refl, v)
    | inr room ↦
        let h : p.inventory_count < max_inventory = ground arith in
        let (d, i, s) = add_room p t v e h in ((λ _. (e, h), λ _. d), λ _. i, λ n. cc, s)
  ]
]

-- Using the item at an index inside a well-formed inventory returns that item and removes it, the later items
-- moving up, and the inventory stays well formed.
pub player_use_item_lem :
    (p : Player) (index : ℕ)
    → IsStocked p
    → index < p.inventory_count
    → let (q, t) = player_use_item p (pos index) in
      (get_elem? (items p) index ≡ some t) × (items q ≡ remove_at index (items p)) × IsStocked q
unfolding player_use_item
player_use_item_lem p index v h =
    let inside : leb p.inventory_count index ≡ false = ground arith in
    let n = p.inventory_count in
    let gap : n - 1 ≡ index + (n - 1 - index) = omega arith in
    let all : n ≡ index + suc (n - 1 - index) = omega arith in
    let inv = shift_down (n - 1 - index) index p.inventory in
    let closed : take (n - 1) inv ≡ remove_at index (items p) =
      ap (λ k. take k inv) gap
      ∙ shift_down-remove_at index (n - 1 - index) p.inventory (omega (arith, v.places, v.fits))
      ∙ ap (λ k. remove_at index (take k p.inventory)) (sym all) in
    let removed : take (n - 1) (set inv (n - 1) item_none) ≡ remove_at index (items p) =
      take-set (n - 1) inv item_none ∙ closed in
    rw inside (
      get_elem?-take n index p.inventory h (omega (arith, v.places, v.fits)),
      removed,
      record {
        places =
            length-set inv (n - 1) item_none
            ∙ length-shift_down (n - 1 - index) index p.inventory
            ∙ v.places;
        fits = omega (arith, v.fits);
        real = rw removed (All-remove_at index (items p) v.real);
      },
    )

-- Of a well formed inventory, `player_use_item` returns ITEM_NONE exactly when the index is negative
-- or not below the count, and the player is then unchanged.
pub player_use_item_none :
    (p : Player) (index : ℤ)
    → IsStocked p
    → let (q, t) = player_use_item p index in
      ((is_none t ≡ true) ↔ ((index <ℤ pos 0) ⊎ (pos p.inventory_count ≤ℤ index)))
      × ((is_none t ≡ true) → q ≡ p)
unfolding player_use_item
player_use_item_none p (negsuc k) v = ((λ _. inl (omega arith), λ _. refl), λ _. refl)
player_use_item_none p (pos index) v = elim (Bool-cases (leb p.inventory_count index)) [
  | inl out ↦ rw out ((λ _. inr (ground arith), λ _. refl), λ _. refl)
  | inr within ↦
      let h : index < p.inventory_count = ground arith in
      let r =
        get_or-real p.inventory_count index p.inventory h v.real
          (omega (arith, v.places, v.fits)) in
      rw within ((λ e. cc, λ o. absurd (omega arith)), λ e. cc)
]

new_player-IsStocked : (fd id : ℤ) → IsStocked (new_player fd id)
new_player-IsStocked fd id = record { places = refl; fits = omega arith; real = tt }

-- The reset at the start of a game empties the inventory, whatever it held.
pub reset-IsStocked :
    (p : Player) → IsStocked (player_reset_game_state p) × (items (player_reset_game_state p) ≡ [])
unfolding player_reset_game_state
reset-IsStocked p = (record { places = refl; fits = omega arith; real = tt }, refl)
