-- ===== src/Recovery/Rejoin/Fields.antt =====
-- What `recovery_create_room_for_game` reads from a .recovery file.
use asciigame.Base.{
  ◌-◌, Bool, true, false, ◌&&◌, List, [], ◌∷◌, ◌++◌, ℤ, pos, ◌==ℤ◌, ltb, length, take, replicate,
  if◌then◌else◌,
}
use asciigame.Config.{max_map_items, max_room_name, map_width, map_height}
use asciigame.Text.{Text, codes, text_eq, copy_into}
use asciigame.Text.Decimal.{atoi}
use asciigame.Text.Scan.{byte, int, sscanf, strip_prefix}
use asciigame.GameMap.{
  GameMap, MapItem, MapItemType, map_item_none, map_item_health, map_item_attack, map_item_shield,
}
use asciigame.Player.{is_empty}
use asciigame.Recovery.Start.{set_first}

-- The files hold no other numbers.
abbrev pub map_item_of : ℤ → MapItemType
map_item_of z =
    if z ==ℤ pos 1
    then map_item_health
    else (if z ==ℤ pos 2
        then map_item_attack
        else (if z ==ℤ pos 3 then map_item_shield else map_item_none))

-- The locals that the file fills; of `map` the rows read.
pub record FileFields : Type 0 where
  pub room_name : Text
  pub poison_radius : ℤ
  pub expected_players : ℤ
  pub items : List MapItem
  pub rows : GameMap
  pub reading_map : Bool
  pub has_map : Bool

abbrev pub first_fields : FileFields
first_fields = record {
  room_name = codes "Recovered";
  poison_radius = pos 25;
  expected_players = pos 0;
  items = [];
  rows = [];
  reading_map = false;
  has_map = false;
}

-- `strncpy` fills the row up with NULs.
abbrev pub row_of : Text → Text
row_of line = take map_width line ++ replicate (map_width - length line) 0

abbrev pub add_saved_item : List ℤ → FileFields → FileFields
add_saved_item (x ∷ y ∷ type ∷ _) f =
    if ltb (length f.items) max_map_items
    then record f {
      items = f.items ++ (record { x = x; y = y; type = map_item_of type; active = true } ∷ []);
    }
    else f
add_saved_item _ f = f

abbrev pub file_keys : List (Text × (Text → FileFields → FileFields))
file_keys =
    (
      codes "room_name=",
      λ v f. if is_empty v then f else record f { room_name = copy_into max_room_name v },
    )
    ∷ (codes "poison_radius=", λ v f. record f { poison_radius = atoi v })
    ∷ (codes "alive_count=", λ v f. record f { expected_players = atoi v })
    ∷ (
      codes "item=",
      λ v f. add_saved_item (sscanf (int ∷ byte b',' ∷ int ∷ byte b',' ∷ int ∷ []) v) f,
    )
    ∷ []

abbrev pub file_line : Text → FileFields → FileFields
file_line line f =
    if text_eq line (codes "map_start")
    then record f { reading_map = true; rows = [] }
    else (if text_eq line (codes "map_end")
        then record f { reading_map = false; has_map = true }
        else (if f.reading_map && ltb (length f.rows) map_height
            then record f { rows = f.rows ++ (row_of line ∷ []) }
            else set_first file_keys line f))

unfoldable pub file_fields : List Text → FileFields → FileFields
unfolding text_eq strip_prefix atoi sscanf
file_fields [] f = f
file_fields (line ∷ lines) f = file_fields lines (file_line line f)
