-- ===== src/GameMap.antt =====
-- server/map.c and server/map.h: the map template, collisions, the safe zone and random positions.
-- A map is its rows of `map_width` bytes; the NUL that ends each row in C is never read.
-- `rand` is the sequence of values of the C library's rand() and `n` counts the calls made so far;
-- srand, which chooses the sequence, is left to that parameter.
pub mod Cells
pub mod Zone
pub mod Positions
use asciigame.Base.{
  ℕ, zero, suc, ◌+◌, ◌-◌, ◌/◌, ◌%◌, ◌≡◌, refl, Bool, true, false, not, ◌&&◌, ◌||◌, List, [], ◌∷◌, ℤ,
  pos, pos_part, ◌-ℤ◌, abs, ltb_ℤ, leb_ℤ, ltb, ◌==◌, if◌then◌else◌, take, map, get_or,
}
use asciigame.Config.{map_width, map_height}
use asciigame.Text.{codes}

-- `char map[MAP_HEIGHT][MAP_WIDTH + 1]`
abbrev pub GameMap : Type 0
GameMap = List (List ℕ)

abbrev pub map_wall : ℕ
map_wall = b'#'

abbrev pub map_spawn : ℕ
map_spawn = b'$'

abbrev pub map_empty : ℕ
map_empty = b' '

pub data MapItemType : Type 0 where
  map_item_none map_item_health map_item_attack map_item_shield : MapItemType

-- One item on the map.
pub record MapItem : Type 0 where
  pub x : ℤ
  pub y : ℤ
  pub type : MapItemType
  pub active : Bool

abbrev pub map_template : GameMap
map_template =
    codes "##################################################"
    ∷ codes "#                    $                           #"
    ∷ codes "#   ##    ##         $         ##    ##    $     #"
    ∷ codes "#   ##    ##    $              ##    ##          #"
    ∷ codes "#              ###        ###              $     #"
    ∷ codes "#   $          # $        $ #          $         #"
    ∷ codes "#              ###        ###                    #"
    ∷ codes "#       $                          $       ##    #"
    ∷ codes "#   ##              ####              ##         #"
    ∷ codes "#   ##     $        #  #        $     ##    $    #"
    ∷ codes "#          $        #  #        $                #"
    ∷ codes "#   ##     $        ####        $     ##         #"
    ∷ codes "#   ##                                ##    $    #"
    ∷ codes "#       $                          $             #"
    ∷ codes "#              ###        ###              $     #"
    ∷ codes "#   $          # $        $ #          $         #"
    ∷ codes "#              ###        ###                    #"
    ∷ codes "#   ##    ##    $              ##    ##          #"
    ∷ codes "#   ##    ##         $         ##    ##    $     #"
    ∷ codes "##################################################"
    ∷ []

-- The map that `map_generate` writes: each template row, cut at `map_width` bytes.
unfoldable pub map_generate : GameMap
map_generate = map (take map_width) map_template

-- `map[y][x]`
abbrev pub cell : GameMap → ℕ → ℕ → ℕ
cell m x y = get_or (get_or m y []) x 0

unfoldable pub map_is_walkable : GameMap → ℤ → ℤ → Bool
map_is_walkable m x y =
    if ltb_ℤ x (pos 0) || leb_ℤ (pos map_width) x || ltb_ℤ y (pos 0) || leb_ℤ (pos map_height) y
    then false
    else not (cell m (pos_part x) (pos_part y) == map_wall)

abbrev pub center_x : ℕ
center_x = map_width / 2

abbrev pub center_y : ℕ
center_y = map_height / 2

-- Outside the safe square of the given radius.
unfoldable pub map_is_in_poison : ℤ → ℤ → ℤ → Bool
map_is_in_poison x y poison_radius =
    let dx = abs (x -ℤ pos center_x) in
    let dy = abs (y -ℤ pos center_y) in
    let dist = if ltb dy dx then dx else dy in ltb_ℤ poison_radius (pos dist)

-- The coordinates found, and the calls of rand() made up to then.
pub record Place : Type 0 where
  pub px : ℕ
  pub py : ℕ
  pub drawn : ℕ

module _ (rand : ℕ → ℕ) (m : GameMap) where
  -- `attempts` rounds are left.
  random_position_loop : ℕ → ℕ → Place
  random_position_loop zero n = record { px = center_x; py = center_y; drawn = n }
  random_position_loop (suc attempts) n =
      let rx = rand n % (map_width - 2) + 1 in
      let ry = rand (n + 1) % (map_height - 2) + 1 in
      let rest = random_position_loop attempts (n + 2) in
      if map_is_walkable m (pos rx) (pos ry)
      then record { px = rx; py = ry; drawn = n + 2 }
      else rest

  unfoldable pub map_random_position : ℕ → Place
  unfolding random_position_loop map_is_walkable
  map_random_position n = random_position_loop 1000 n

  random_item_position_loop : ℕ → ℕ → Place
  random_item_position_loop zero n = map_random_position n
  random_item_position_loop (suc attempts) n =
      let rx = rand n % (map_width - 2) + 1 in
      let ry = rand (n + 1) % (map_height - 2) + 1 in
      let rest = random_item_position_loop attempts (n + 2) in
      let c = cell m rx ry in
      if c == map_spawn || c == map_empty then record { px = rx; py = ry; drawn = n + 2 } else rest

  unfoldable pub map_random_item_position : ℕ → Place
  unfolding random_item_position_loop map_random_position
  map_random_item_position n = random_item_position_loop 1000 n

unfoldable pub map_distance : ℤ → ℤ → ℤ → ℤ → ℕ
map_distance x1 y1 x2 y2 = abs (x1 -ℤ x2) + abs (y1 -ℤ y2)

unfoldable pub map_get_initial_poison_radius : ℤ
map_get_initial_poison_radius = if ltb center_y center_x then pos center_x else pos center_y

unfoldable pub map_item_char : MapItemType → ℕ
map_item_char map_item_health = b'+'
map_item_char map_item_attack = b'^'
map_item_char map_item_shield = b'*'
map_item_char map_item_none = map_empty

unfoldable pub map_char_to_item : ℕ → MapItemType
map_char_to_item c =
    if c == b'+'
    then map_item_health
    else if c == b'^'
    then map_item_attack
    else if c == b'*'
    then map_item_shield
    else map_item_none
