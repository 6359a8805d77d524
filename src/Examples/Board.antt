-- ===== src/Examples/Board.antt =====
-- The map.
use asciigame.Base.{◌≡◌, refl, ◌↔◌, ◌≢◌, pos, ◌≤ℤ◌, ◌<ℤ◌, ◌*◌, ℕ, true}
use asciigame.Config.{map_width, map_height}
use asciigame.GameMap.{
  map_is_walkable, map_generate, map_wall, cell, map_random_position, map_random_item_position,
  center_x, center_y,
}
use asciigame.GameMap.Cells.{map_is_walkable_iff}
use asciigame.GameMap.Positions.{
  Lands, map_random_position_walkable, map_random_item_position_walkable,
}

map_is_walkable_iff_example : (map_is_walkable map_generate (pos 6) (pos 5) ≡ true) ↔ (
    (pos 0 ≤ℤ pos 6)
    × (pos 6 <ℤ pos map_width)
    × (pos 0 ≤ℤ pos 5)
    × (pos 5 <ℤ pos map_height)
    × (cell map_generate 6 5 ≢ map_wall))
map_is_walkable_iff_example = map_is_walkable_iff map_generate (pos 6) (pos 5)

walks : map_is_walkable map_generate (pos 6) (pos 5) ≡ true
unfolding map_is_walkable map_generate
walks = refl

middle : map_is_walkable map_generate (pos center_x) (pos center_y) ≡ true
unfolding map_is_walkable map_generate
middle = refl

abbrev sevens : ℕ → ℕ
sevens n = n * 7

map_random_position_walkable_example :
    Lands sevens map_generate middle (map_random_position sevens map_generate 3)
map_random_position_walkable_example = map_random_position_walkable sevens map_generate middle 3

map_random_item_position_walkable_example :
    Lands sevens map_generate middle (map_random_item_position sevens map_generate 3)
map_random_item_position_walkable_example =
    map_random_item_position_walkable sevens map_generate middle 3
