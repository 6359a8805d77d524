-- ===== src/Recovery/Saved.antt =====
-- The .recovery file of a room: `save_recovery_info`. A file is its name and its lines without their ends; the server writes none that is longer
-- than `fgets` reads. The directory is given in the order of `readdir`.
pub mod Reading
pub mod RoundTrip
use asciigame.Base.{
  ℕ, zero, suc, Bool, true, false, ◌&&◌, List, [], ◌∷◌, ◌++◌, Option, none, some, ℤ, pos, negsuc,
  ◌-ℤ◌, ltb_ℤ, leb_ℤ, ◌==ℤ◌, get_or, length, map, if◌then◌else◌,
}
use asciigame.Config.{initial_atk, max_username}
use asciigame.Text.{Text, codes, text_eq}
use asciigame.Text.Decimal.{print_int, atoi}
use asciigame.Text.Scan.{strip_prefix, after_first, cut}
use asciigame.Text.Scan.Mixed.{Part, lit, num, word, Value, number, text, scan_parts}
use asciigame.GameMap.{GameMap}
use asciigame.Player.{PlayerStatus, player_gaming, is_empty}
use asciigame.Room.{commas}
use asciigame.Game.Broadcast.{player_status_number}
use asciigame.Recovery.{RecoveryState, RecoveredPlayer, RecoveredItem}

pub record RecoveryFile : Type 0 where
  pub name : Text
  pub lines : List Text

abbrev pub is_gaming_status : ℤ → Bool
is_gaming_status status = status ==ℤ player_status_number player_gaming

-- `status == PLAYER_GAMING && hp > 0`
abbrev pub is_living : RecoveredPlayer → Bool
is_living p = is_gaming_status (player_status_number p.status) && ltb_ℤ (pos 0) p.hp

abbrev pub alive_count : List RecoveredPlayer → ℕ
alive_count [] = 0
alive_count (p ∷ ps) = let rest = alive_count ps in if is_living p then suc rest else rest

-- The time for which the potion still works.
abbrev pub time_remaining : ℤ → RecoveredPlayer → ℤ
time_remaining now p = if ltb_ℤ now p.atk_buff_expire then p.atk_buff_expire -ℤ now else pos 0

-- What stands behind the name.
abbrev pub saved_numbers : ℤ → RecoveredPlayer → List ℤ
saved_numbers now p =
    p.x
    ∷ p.y
    ∷ p.hp
    ∷ p.max_hp
    ∷ p.atk
    ∷ p.def
    ∷ p.has_shield
    ∷ player_status_number p.status
    ∷ pos p.inventory_count
    ∷ get_or p.inventory 0 (pos 0)
    ∷ get_or p.inventory 1 (pos 0)
    ∷ get_or p.inventory 2 (pos 0)
    ∷ get_or p.inventory 3 (pos 0)
    ∷ get_or p.inventory 4 (pos 0)
    ∷ p.base_atk
    ∷ time_remaining now p
    ∷ []

abbrev pub saved_text : ℤ → RecoveredPlayer → Text
saved_text now p =
    print_int p.id ++ b',' ∷ (p.username ++ b',' ∷ commas (map print_int (saved_numbers now p)))

abbrev pub saved_item_text : RecoveredItem → Text
saved_item_text i = commas (print_int i.x ∷ print_int i.y ∷ print_int i.type ∷ [])

abbrev pub item_lines : List RecoveredItem → List Text
item_lines [] = []
item_lines (i ∷ is) =
    let rest = item_lines is in
    if i.active then (codes "item=" ++ saved_item_text i) ∷ rest else rest

-- A row of the map as "%s" prints it.
abbrev pub row_text : Text → Text
row_text row = (cut 0 row).0

abbrev pub saved_name : RecoveryState → Text
saved_name state = if is_empty state.room_name then codes "Recovered" else state.room_name

abbrev pub keyed : Text → ℤ → Text
keyed key value = key ++ print_int value

unfoldable pub recovery_lines : ℤ → RecoveryState → List Text
unfolding print_int cut
recovery_lines now state =
    keyed (codes "room_id=") state.room_id
    ∷ (codes "room_name=" ++ saved_name state)
    ∷ keyed (codes "poison_radius=") state.poison_radius
    ∷ keyed (codes "player_count=") (pos (length state.players))
    ∷ keyed (codes "alive_count=") (pos (alive_count state.players))
    ∷ codes "map_start"
    ∷ (map row_text state.grid
        ++ codes "map_end"
          ∷ (map (λ p. codes "player=" ++ saved_text now p) state.players
              ++ keyed (codes "item_count=") (pos (length state.items)) ∷ item_lines state.items))

-- "room_%d.recovery"
abbrev pub recovery_file_name : ℤ → Text
recovery_file_name room_id = codes "room_" ++ print_int room_id ++ codes ".recovery"

unfoldable pub save_recovery_info : ℤ → ℤ → RecoveryState → RecoveryFile
unfolding recovery_lines
save_recovery_info now room_id state = record {
  name = recovery_file_name room_id;
  lines = recovery_lines now state;
}
