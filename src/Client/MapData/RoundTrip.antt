-- ===== src/Client/MapData/RoundTrip.antt =====
-- What the server sends of the map, the client puts on its own.
use asciigame.Base.{
  ℕ, zero, suc, ◌+◌, ◌*◌, ◌≤◌, ◌≡◌, refl, ap, sym, ◌∙◌, Bool, true, false, ◌||◌, [], ◌∷◌, ◌++◌, ℤ,
  arith, ◌==◌, ltb, if◌then◌else◌, All, All-append, length, length-append, some,
}
use mathlib.Core.List.{append_assoc, append-nil}
use asciigame.Config.{map_width, map_height, max_msg_len}
use asciigame.Text.{Text, codes}
use asciigame.GameMap.{GameMap}
use asciigame.Protocol.{cmd_map_data, protocol_parse_cmd, protocol_extract_message, extracted}
use asciigame.Protocol.Framing.{extract_first_line}
use asciigame.Protocol.RoundTrip.{is_special, Plain, IsField, body, parse-body, body-NoNewline}
use asciigame.Client.{GameState, game_add_message}
use asciigame.Client.Update.{game_update_from_server, update_of_parsed}
use asciigame.Protocol.MapData.{sent_cell, put_cells, put_rows, protocol_build_map_data}
use asciigame.Client.MapData.{filled, read_rows, handle_map_data}

-- A byte that the message cannot hold, or that separates the rows.
abbrev pub is_separator : ℕ → Bool
is_separator c = is_special c || (c == b',' || c == 0)

-- A row of the full width.
abbrev pub IsRow : Text → Type 0
IsRow row = (length row ≡ map_width) × All (λ c. is_separator c ≡ false) row

-- The rows with commas between them.
abbrev pub joined : Bool → GameMap → Text
joined first [] = []
joined first (row ∷ rows) = (if first then row else b',' ∷ row) ++ joined false rows

put_cells_fit :
    (limit : ℕ) (buf row : Text)
    → All (λ c. is_separator c ≡ false) row
    → length buf + length row ≤ limit
    → put_cells limit buf row ≡ buf ++ row
unfolding put_cells
put_cells_fit limit buf [] h l = sym (append-nil buf)
put_cells_fit limit buf (c ∷ row) h l =
    let room : ltb (length buf) limit ≡ true = ground arith in
    let cell : sent_cell c ≡ c = ground (arith, h.0) in
    let size = length-append buf (c ∷ []) in
    rw (room, cell)
      (put_cells_fit limit (buf ++ c ∷ []) row h.1 (omega (arith, size))
        ∙ append_assoc buf (c ∷ []) row)

put_rows_fit :
    (limit : ℕ) (first : Bool) (buf : Text) (rows : GameMap)
    → All IsRow rows
    → length buf + length (joined first rows) ≤ limit
    → put_rows limit first buf rows ≡ buf ++ joined first rows
unfolding put_rows
put_rows_fit limit first buf [] h l = sym (append-nil buf)
put_rows_fit limit true buf (row ∷ rows) h l =
    let size = length-append row (joined false rows) in
    let room : ltb (length buf) limit ≡ true = ground (arith, size, h.0.0) in
    let cells = put_cells_fit limit buf row h.0.1 (omega (arith, size)) in
    rw (room, cells)
      (put_rows_fit limit false (buf ++ row) rows h.1 (omega (arith, size, length-append buf row))
        ∙ append_assoc buf row (joined false rows))
put_rows_fit limit false buf (row ∷ rows) h l =
    let size = length-append row (joined false rows) in
    let comma = length-append buf (b',' ∷ []) in
    let room : ltb (length buf) limit ≡ true = ground (arith, size, h.0.0) in
    let start = buf ++ b',' ∷ [] in
    let cells = put_cells_fit limit start row h.0.1 (omega (arith, size, comma)) in
    rw (room, cells)
      (put_rows_fit limit false (start ++ row) rows h.1
          (omega (arith, size, comma, length-append start row))
        ∙ append_assoc start row (joined false rows)
        ∙ append_assoc buf (b',' ∷ []) (row ++ joined false rows))

read_row :
    (n : ℕ) (row r rest : Text)
    → All (λ c. is_separator c ≡ false) r
    → length row + length r ≤ map_width
    → read_rows (suc n) row (r ++ rest) ≡ read_rows (suc n) (row ++ r) rest
unfolding read_rows
read_row n row [] rest h l = ap (λ t. read_rows (suc n) t rest) (sym (append-nil row))
read_row n row (c ∷ r) rest h l =
    let inside : (c == b',') ≡ false = ground (arith, h.0) in
    let room : ltb (length row) map_width ≡ true = ground arith in
    rw (inside, room)
      (read_row n (row ++ c ∷ []) r rest h.1 (omega (arith, length-append row (c ∷ [])))
        ∙ ap (λ t. read_rows (suc n) t rest) (append_assoc row (c ∷ []) r))

filled_row : (row : Text) → length row ≡ map_width → filled row ≡ row
filled_row row h = rw h (append-nil row)

end_of_row : (n : ℕ) (row : Text) → length row ≡ map_width → read_rows 1 row [] ≡ row ∷ []
unfolding read_rows
end_of_row n [] h = absurd (omega arith)
end_of_row n (c ∷ row) h = ap (λ r. r ∷ []) (filled_row (c ∷ row) h)

read_joined :
    (n : ℕ) (rows : GameMap)
    → All IsRow rows
    → length rows ≡ suc n
    → read_rows (suc n) [] (joined true rows) ≡ rows
unfolding read_rows
read_joined n [] h l = absurd (omega arith)
read_joined zero (row ∷ []) h l =
    read_row 0 [] row [] h.0.1 (omega (arith, h.0.0)) ∙ end_of_row 0 row h.0.0
read_joined (suc n) (row ∷ []) h l = absurd (omega arith)
read_joined zero (row ∷ next ∷ rows) h l = absurd (omega arith)
read_joined (suc n) (row ∷ next ∷ rows) h l =
    read_row (suc n) [] row (b',' ∷ next ++ joined false rows) h.0.1 (omega (arith, h.0.0))
    ∙ ap (λ r. r ∷ read_rows (suc n) [] (joined true (next ∷ rows))) (filled_row row h.0.0)
    ∙ ap (◌∷◌ row) (read_joined n (next ∷ rows) h.1 (omega arith))

-- A map of the full size whose cells are no separators.
pub record IsSendable (m : GameMap) : Type 0 where
  pub height : length m ≡ map_height
  pub rows : All IsRow m

Plain-row : (row : Text) → All (λ c. is_separator c ≡ false) row → Plain row
Plain-row [] h = tt
Plain-row (c ∷ row) h = (ground (arith, h.0), Plain-row row h.1)

Plain-joined : (first : Bool) (rows : GameMap) → All IsRow rows → Plain (joined first rows)
Plain-joined first [] h = tt
Plain-joined true (row ∷ rows) h =
    All-append (λ c. is_special c) row (joined false rows) (Plain-row row h.0.1)
      (Plain-joined false rows h.1)
Plain-joined false (row ∷ rows) h = (
  refl,
  All-append (λ c. is_special c) row (joined false rows) (Plain-row row h.0.1)
      (Plain-joined false rows h.1),
)

length-joined : (rows : GameMap) → All IsRow rows → length (joined false rows) ≡ 51 * length rows
length-joined [] h = refl
length-joined (row ∷ rows) h =
    omega (arith, length-append row (joined false rows), h.0.0, length-joined rows h.1)

length-joined_first : (m : GameMap) → IsSendable m → length (joined true m) ≡ 1019
length-joined_first [] v = absurd (omega (arith, v.height))
length-joined_first (row ∷ rows) v = omega (
  arith,
  length-append row (joined false rows),
  v.rows.0.0,
  v.height,
  length-joined rows v.rows.1,
)

abbrev map_name : Text
map_name = codes "MAP_DATA"

map_name-IsField : IsField map_name
map_name-IsField = record {
  plain = (refl, (refl, (refl, (refl, (refl, (refl, (refl, (refl, tt))))))));
  filled = omega arith;
  short = omega arith;
}

joined-IsField : (m : GameMap) → IsSendable m → IsField (joined true m)
joined-IsField m v = record {
  plain = Plain-joined true m v.rows;
  filled = omega (arith, length-joined_first m v);
  short = omega (arith, length-joined_first m v);
}

built_map :
    (m : GameMap) (rest : Text)
    → IsSendable m
    → protocol_build_map_data max_msg_len m ++ rest
      ≡ body map_name (joined true m ∷ []) ++ 10 ∷ rest
unfolding protocol_build_map_data
built_map m rest v =
    ap (λ t. (t ++ 10 ∷ []) ++ rest)
      (put_rows_fit 4094 true (codes "MAP_DATA|") m v.rows (omega (arith, length-joined_first m v)))
    ∙ append_assoc (body map_name (joined true m ∷ [])) (10 ∷ []) rest

grid_of :
    (m : GameMap) (g : GameState) → IsSendable m → (handle_map_data (joined true m ∷ []) g).grid ≡ m
unfolding handle_map_data game_add_message
grid_of m g v = read_joined 19 m v.rows v.height

parse_cmd-map_data : protocol_parse_cmd map_name ≡ cmd_map_data
unfolding protocol_parse_cmd
parse_cmd-map_data = refl

-- The map that the server sends to a player, whatever bytes follow it in the stream, is extracted by
-- the client as one message, and on that message the client's map becomes the server's, cell for
-- cell. The map has the full size and no cell is a bar, a comma, a line end or a NUL.
pub map_data_roundtrip :
    (now : ℤ) (junk : ℕ → ℤ) (m : GameMap) (rest : Text) (g : GameState)
    → IsSendable m
    → let (buf, r) =
        protocol_extract_message (protocol_build_map_data max_msg_len m ++ rest) max_msg_len in
      (buf ≡ rest)
      × (s : Text) × (r ≡ extracted s)
      × ((game_update_from_server now junk s g).grid ≡ m)
map_data_roundtrip now junk m rest g v =
    let f = joined-IsField m v in
    let b = body map_name (joined true m ∷ []) in
    let size : length b ≡ 1028 = omega (arith, length-joined_first m v) in
    let first =
      extract_first_line b rest max_msg_len
        (body-NoNewline map_name (joined true m ∷ []) map_name-IsField.plain (f.plain, tt)) in
    let parsed =
      parse-body map_name (joined true m ∷ []) map_name-IsField (f, tt) (omega arith)
        (omega (arith, size))
      ∙ ap (λ t. some (record { type = t; args = joined true m ∷ [] })) parse_cmd-map_data in
    rw (built_map m rest v) (
      first.0,
      b,
      first.1 (omega (arith, size)),
      ap (λ h. h.grid) (update_of_parsed now junk b _ g parsed) ∙ grid_of m g v,
    )
