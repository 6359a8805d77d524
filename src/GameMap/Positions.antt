-- ===== src/GameMap/Positions.antt =====
-- The random positions are walkable, whatever rand() returns.
use asciigame.Base.{
  ℕ, zero, suc, ◌+◌, ◌-◌, ◌%◌, ◌<◌, ◌≡◌, true, ◌||◌, inl, inr, arith, pos, ◌==◌, Bool-cases,
}
use asciigame.Config.{map_width, map_height}
use asciigame.GameMap.{
  GameMap, map_is_walkable, cell, Place, random_position_loop, map_random_position,
  random_item_position_loop, map_random_item_position, center_x, center_y, map_spawn, map_empty,
}
use asciigame.GameMap.Cells.{map_is_walkable_iff}

module _ (rand : ℕ → ℕ) (m : GameMap)
    (centre : map_is_walkable m (pos center_x) (pos center_y) ≡ true) where
  abbrev pub Lands : Place → Type 0
  Lands p = map_is_walkable m (pos p.px) (pos p.py) ≡ true

  random_position_loop-Lands : (attempts n : ℕ) → Lands (random_position_loop rand m attempts n)
  unfolding random_position_loop
  random_position_loop-Lands zero n = centre
  random_position_loop-Lands (suc attempts) n =
      elim (Bool-cases (
        map_is_walkable m (pos (rand n % (map_width - 2) + 1))
          (pos (rand (n + 1) % (map_height - 2) + 1)))) [
            | inl e ↦ rw e e
            | inr e ↦ rw e (random_position_loop-Lands attempts (n + 2))
          ]

  -- If the centre of the map can be walked on, `map_random_position` gives a walkable position.
  pub map_random_position_walkable : (n : ℕ) → Lands (map_random_position rand m n)
  unfolding map_random_position
  map_random_position_walkable n = random_position_loop-Lands 1000 n

  open_cell :
      (rx ry : ℕ)
      → rx < map_width
      → ry < map_height
      → (cell m rx ry == map_spawn || cell m rx ry == map_empty) ≡ true
      → map_is_walkable m (pos rx) (pos ry) ≡ true
  open_cell rx ry hx hy h =
      (map_is_walkable_iff m (pos rx) (pos ry)).1
        (omega arith, omega arith, omega arith, omega arith, ground arith)

  random_item_position_loop-Lands :
      (attempts n : ℕ) → Lands (random_item_position_loop rand m attempts n)
  unfolding random_item_position_loop
  random_item_position_loop-Lands zero n = map_random_position_walkable n
  random_item_position_loop-Lands (suc attempts) n =
      let rx = rand n % (map_width - 2) + 1 in
      let ry = rand (n + 1) % (map_height - 2) + 1 in
      elim (Bool-cases (cell m rx ry == map_spawn || cell m rx ry == map_empty)) [
        | inl e ↦ rw e (open_cell rx ry (omega arith) (omega arith) e)
        | inr e ↦ rw e (random_item_position_loop-Lands attempts (n + 2))
      ]

  -- If the centre of the map can be walked on, so can the position of every new item.
  pub map_random_item_position_walkable : (n : ℕ) → Lands (map_random_item_position rand m n)
  unfolding map_random_item_position
  map_random_item_position_walkable n = random_item_position_loop-Lands 1000 n
