-- ===== src/GameMap/Cells.antt =====
-- Which cells can be walked on.
use asciigame.Base.{
  ℕ, zero, suc, ◌<◌, ◌+◌, ◌==◌, if◌then◌else◌, Bool-cases, inl, inr, false, ◌≤◌, ◌≡◌, refl, sym,
  ◌≢◌, ◌↔◌, Bool, true, ◌&&◌, ◌||◌, not, arith, ℤ, pos, negsuc, ◌≤ℤ◌, ◌<ℤ◌, pos_part, ltb,
}
use asciigame.Config.{map_width, map_height}
use asciigame.GameMap.{GameMap, map_generate, map_is_walkable, cell, map_wall, center_x, center_y}

-- A position is walkable exactly when it lies on the map and its cell is no wall.
pub map_is_walkable_iff :
    (m : GameMap) (x y : ℤ)
    → (map_is_walkable m x y ≡ true) ↔ (
        (pos 0 ≤ℤ x)
        × (x <ℤ pos map_width)
        × (pos 0 ≤ℤ y)
        × (y <ℤ pos map_height)
        × (cell m (pos_part x) (pos_part y) ≢ map_wall))
unfolding map_is_walkable
map_is_walkable_iff m x y = (λ e. ground arith, λ h. ground arith)

-- A test passes at `start` and the numbers after it, `count` numbers in all.
abbrev passes : (ℕ → Bool) → ℕ → ℕ → Bool
passes test start zero = true
passes test start (suc count) = if test start then passes test (suc start) count else false

passes_at :
    (test : ℕ → Bool) (start count i : ℕ)
    → passes test start count ≡ true
    → start ≤ i
    → i < start + count
    → test i ≡ true
passes_at test start zero i h l g = absurd (omega arith)
passes_at test start (suc count) i h l g = elim (Bool-cases (test start)) [
  | inr f ↦ absurd (ground (arith, simp f at h))
  | inl t ↦ elim (Bool-cases (start == i)) [
    | inl e ↦ let q : start ≡ i = ground arith in rw (sym q) t
    | inr n ↦ passes_at test (suc start) count i (simp t at h) (ground arith) (omega arith)
  ]
]

-- Of a walkable cell of the generated map: it is none of the border's.
inside : ℕ → ℕ → Bool
inside x y =
    not (map_is_walkable map_generate (pos x) (pos y))
    || ltb 0 x && ltb x 49 && (ltb 0 y && ltb y 19)

inside_table : passes (λ x. passes (inside x) 0 map_height) 0 map_width ≡ true
unfolding inside map_is_walkable map_generate
inside_table = refl

inside_all : (x y : ℕ) → x < map_width → y < map_height → inside x y ≡ true
inside_all x y hx hy =
    passes_at (inside x) 0 map_height y
      (passes_at (λ u. passes (inside u) 0 map_height) 0 map_width x inside_table (omega arith)
        (omega arith))
      (omega arith) (omega arith)

inside_walkable :
    (x y : ℕ)
    → inside x y ≡ true
    → map_is_walkable map_generate (pos x) (pos y) ≡ true
    → (1 ≤ x) × (x ≤ 48) × (1 ≤ y) × (y ≤ 18)
unfolding inside
inside_walkable x y h w = ground arith

-- The generated map is closed: a walkable cell lies strictly inside the border, so that a step in
-- any direction from it stays on the map.
pub map_generate_closed :
    (x y : ℤ)
    → map_is_walkable map_generate x y ≡ true
    → (pos 1 ≤ℤ x) × (x ≤ℤ pos 48) × (pos 1 ≤ℤ y) × (y ≤ℤ pos 18)
map_generate_closed (pos x) (pos y) w =
    let (a, b, c, d, e) = (map_is_walkable_iff map_generate (pos x) (pos y)).0 w in
    omega (arith, inside_walkable x y (inside_all x y (omega arith) (omega arith)) w)
map_generate_closed (negsuc x) y w =
    absurd (omega (arith, (map_is_walkable_iff map_generate (negsuc x) y).0 w))
map_generate_closed (pos x) (negsuc y) w =
    absurd (omega (arith, (map_is_walkable_iff map_generate (pos x) (negsuc y)).0 w))

pub center_walkable : map_is_walkable map_generate (pos center_x) (pos center_y) ≡ true
unfolding map_is_walkable map_generate
center_walkable = refl
