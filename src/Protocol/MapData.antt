-- ===== src/Protocol/MapData.antt =====
-- `protocol_build_map_data`: the map in one message, its rows joined by commas.
use asciigame.Base.{ℕ, ◌-◌, Bool, true, false, [], ◌∷◌, ◌++◌, ltb, ◌==◌, if◌then◌else◌, length}
use asciigame.Text.{Text, codes}
use asciigame.GameMap.{GameMap}

-- A NUL in the map is sent as a blank.
abbrev pub sent_cell : ℕ → ℕ
sent_cell c = if c == 0 then b' ' else c

-- Bytes are put while the position is below the limit.
unfoldable pub put_cells : ℕ → Text → Text → Text
put_cells limit buf [] = buf
put_cells limit buf (c ∷ row) =
    let more = put_cells limit (buf ++ (sent_cell c ∷ [])) row in
    if ltb (length buf) limit then more else buf

unfoldable pub put_rows : ℕ → Bool → Text → GameMap → Text
unfolding put_cells
put_rows limit first buf [] = buf
put_rows limit first buf (row ∷ rows) =
    let start = if first then buf else buf ++ (b',' ∷ []) in
    let more = put_rows limit false (put_cells limit start row) rows in
    if ltb (length buf) limit then more else buf

-- A buffer of 16 bytes or more.
unfoldable pub protocol_build_map_data : ℕ → GameMap → Text
unfolding put_rows
protocol_build_map_data max_len grid =
    put_rows (max_len - 2) true (codes "MAP_DATA|") grid ++ (10 ∷ [])
