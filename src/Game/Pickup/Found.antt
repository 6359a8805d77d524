-- ===== src/Game/Pickup/Found.antt =====
-- The item that `game_check_item_pickup` finds.
use asciigame.Base.{
  ℕ, zero, suc, ◌<◌, ◌≡◌, refl, true, false, List, [], ◌∷◌, none, some, ℤ, ==ℤ_iff, All, take,
  get_elem?, arith, Option, Bool-cases, inl, inr,
}
use asciigame.GameMap.{
  MapItem, MapItemType, map_item_none, map_item_health, map_item_attack, map_item_shield,
}
use asciigame.Room.Start.{item_number, map_item_number}
use asciigame.Game.Pickup.{item_at, item_type_of, lies_at}

-- No item on the map lies at the position.
abbrev pub NothingAt : ℤ → ℤ → List MapItem → Type 0
NothingAt x y items = All (λ i. lies_at x y i ≡ false) items

-- The item is the first one on the map that lies at the position, and stands at index `k`.
pub record FoundAt (x y : ℤ) (n : ℕ) (items : List MapItem) (k : ℕ) (item : MapItem) : Type 0 where
  pub counted : k < n
  pub stored : get_elem? items k ≡ some item
  pub on_map : item.active ≡ true
  pub column : item.x ≡ x
  pub row : item.y ≡ y
  pub first : NothingAt x y (take k items)

lies_at-cases :
    (x y : ℤ) (i : MapItem) → lies_at x y i ≡ true → (i.active ≡ true) × (i.x ≡ x) × (i.y ≡ y)
lies_at-cases x y i h =
    (ground arith, (==ℤ_iff i.x x).0 (ground arith), (==ℤ_iff i.y y).0 (ground arith))

abbrev Search : ℤ → ℤ → ℕ → List MapItem → Option (ℕ × MapItem) → Type 0
Search x y n items none = NothingAt x y (take n items)
Search x y n items (some (k, item)) = FoundAt x y n items k item

behind :
    (x y : ℤ) (n : ℕ) (i : MapItem) (items : List MapItem) (o : Option (ℕ × MapItem))
    → lies_at x y i ≡ false
    → Search x y n items o
    → Search x y
        (suc n)
        (i ∷ items)
        (elim o as (λ _. Option (ℕ × MapItem)) [ none ↦ none | some (k, j) ↦ some (suc k, j) ])
behind x y n i items none h s = (h, s)
behind x y n i items (some (k, j)) h s = record {
  counted = omega (arith, s.counted);
  stored = s.stored;
  on_map = s.on_map;
  column = s.column;
  row = s.row;
  first = (h, s.first);
}

item_at-Search : (x y : ℤ) (n : ℕ) (items : List MapItem) → Search x y n items (item_at x y n items)
unfolding item_at
item_at-Search x y zero items = tt
item_at-Search x y (suc n) [] = tt
item_at-Search x y (suc n) (i ∷ items) = elim (Bool-cases (lies_at x y i)) [
  | inl h ↦
      let (a, b, c) = lies_at-cases x y i h in
      rw h (record {
        counted = omega arith;
        stored = refl;
        on_map = a;
        column = b;
        row = c;
        first = tt;
      })
  | inr h ↦ rw h (behind x y n i items (item_at x y n items) h (item_at-Search x y n items))
]

pub item_at-none :
    (x y : ℤ) (n : ℕ) (items : List MapItem)
    → item_at x y n items ≡ none
    → NothingAt x y (take n items)
item_at-none x y n items e = rw e at (item_at-Search x y n items)

pub item_at-some :
    (x y : ℤ) (n : ℕ) (items : List MapItem) (k : ℕ) (item : MapItem)
    → item_at x y n items ≡ some (k, item)
    → FoundAt x y n items k item
item_at-some x y n items k item e = rw e at (item_at-Search x y n items)

-- The two ways to number the types of items agree.
pub item_number-item_type_of : (t : MapItemType) → item_number (item_type_of t) ≡ map_item_number t
item_number-item_type_of map_item_none = refl
item_number-item_type_of map_item_health = refl
item_number-item_type_of map_item_attack = refl
item_number-item_type_of map_item_shield = refl
