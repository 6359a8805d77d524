-- ===== src/GameMap/Zone.antt =====
-- Distances and the safe zone.
use asciigame.Base.{
  ◌+◌, ◌≤◌, ◌≡◌, ◌↔◌, ◌⊎◌, true, false, arith, ℤ, pos, ◌≤ℤ◌, ◌<ℤ◌, ◌-ℤ◌, abs, int_laws, eq_of_parts,
  pos_part, neg_part, ap,
}
use asciigame.Config.{map_width, map_height}
use asciigame.GameMap.{
  map_is_in_poison, map_distance, map_get_initial_poison_radius, center_x, center_y,
}

-- A position is in the poison exactly when one coordinate is further from the centre than the
-- radius: the safe zone is a square.
pub map_is_in_poison_iff :
    (x y r : ℤ)
    → (map_is_in_poison x y r ≡ true)
      ↔ ((r <ℤ pos (abs (x -ℤ pos center_x))) ⊎ (r <ℤ pos (abs (y -ℤ pos center_y))))
unfolding map_is_in_poison
map_is_in_poison_iff x y r = (λ e. ground arith, λ h. ground arith)

-- At the initial radius no position of the map is in the poison.
pub initial_radius_safe :
    (x y : ℤ)
    → pos 0 ≤ℤ x
    → x <ℤ pos map_width
    → pos 0 ≤ℤ y
    → y <ℤ pos map_height
    → map_is_in_poison x y map_get_initial_poison_radius ≡ false
unfolding map_is_in_poison map_get_initial_poison_radius
initial_radius_safe x y a b c d = ground (arith, abs_x, abs_y)
  where
    abs_x : abs (x -ℤ pos center_x) ≤ 25
    abs_x = omega int_laws

    abs_y : abs (y -ℤ pos center_y) ≤ 25
    abs_y = omega int_laws

-- What is safe at a radius is safe at every larger one.
pub safe_mono :
    (x y r s : ℤ) → r ≤ℤ s → map_is_in_poison x y r ≡ false → map_is_in_poison x y s ≡ false
unfolding map_is_in_poison
safe_mono x y r s h e = ground arith

-- The Manhattan distance is a metric: symmetric, zero at equal positions only, and subject to the
-- triangle inequality.
pub map_distance_metric :
    (x1 y1 x2 y2 x3 y3 : ℤ)
    → (map_distance x1 y1 x2 y2 ≡ map_distance x2 y2 x1 y1)
      × ((map_distance x1 y1 x2 y2 ≡ 0) ↔ ((x1 ≡ x2) × (y1 ≡ y2)))
      × (map_distance x1 y1 x3 y3 ≤ map_distance x1 y1 x2 y2 + map_distance x2 y2 x3 y3)
unfolding map_distance
map_distance_metric x1 y1 x2 y2 x3 y3 = (
  omega int_laws,
  (
    λ e. (eq_of_parts x1 x2 (omega int_laws), eq_of_parts y1 y2 (omega int_laws)),
    λ h. omega (int_laws, ap pos_part h.0, ap neg_part h.0, ap pos_part h.1, ap neg_part h.1),
  ),
  omega int_laws,
)
