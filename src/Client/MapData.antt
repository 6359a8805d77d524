-- ===== src/Client/MapData.antt =====
-- `handle_map_data`: the map in one message.
pub mod RoundTrip
use asciigame.Base.{
  ℕ, zero, suc, ◌-◌, Bool, true, false, List, [], ◌∷◌, ◌++◌, ltb, ◌==◌, if◌then◌else◌, replicate,
  length,
}
use asciigame.Config.{map_width, map_height}
use asciigame.Text.{Text, codes}
use asciigame.Player.{is_empty}
use asciigame.GameMap.{GameMap}
use asciigame.Client.{GameState, game_add_message}

-- A row is filled up with blanks.
abbrev pub filled : Text → Text
filled row = row ++ replicate (map_width - length row) b' '

-- The rows still to write, the row begun, and the data left.
unfoldable pub read_rows : ℕ → Text → Text → GameMap
read_rows zero row s = []
read_rows (suc n) row [] =
    let blank = replicate map_width b' ' in
    (if is_empty row then blank else filled row) ∷ replicate n blank
read_rows (suc n) row (c ∷ s) =
    let next = filled row ∷ read_rows n [] s in
    let longer = read_rows (suc n) (row ++ (c ∷ [])) s in
    let same = read_rows (suc n) row s in
    if c == b',' then next else (if ltb (length row) map_width then longer else same)

unfoldable pub handle_map_data : List Text → GameState → GameState
unfolding read_rows game_add_message
handle_map_data [] g = g
handle_map_data (rows ∷ _) g =
    game_add_message (codes "System") (codes "Map loaded!")
      (record g { grid = read_rows map_height [] rows })
