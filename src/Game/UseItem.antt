-- ===== src/Game/UseItem.antt =====
-- `game_handle_use_item`: what the items do.
pub mod Effect
use asciigame.Base.{
  ℕ, ◌≡◌, Bool, true, false, List, [], ◌∷◌, Option, none, some, ℤ, pos, ◌+ℤ◌, ltb_ℤ, if◌then◌else◌,
}
use asciigame.Config.{health_restore, atk_buff_amount, atk_buff_duration}
use asciigame.Text.{codes, snprintf}
use asciigame.Player.{
  Player, ItemType, item_none, item_health, item_attack, item_shield, is_none, player_at,
  update_player, player_use_item,
}
use asciigame.Wal.{wal_use_item}
use asciigame.Room.{Arena, log_action, entry, commas}
use asciigame.Room.Start.{item_number}

unfoldable pub apply_item : ℤ → ItemType → Player → Player
apply_item now item_health p =
    let hp = p.hp +ℤ health_restore in record p { hp = if ltb_ℤ p.max_hp hp then p.max_hp else hp }
apply_item now item_attack p = record p {
  atk = p.base_atk +ℤ atk_buff_amount;
  atk_buff_expire = now +ℤ atk_buff_duration;
  atk_buff_warned = false;
}
apply_item now item_shield p = record p { has_shield = true }
apply_item now item_none p = p

-- `false` is the return value -1.
unfoldable pub game_handle_use_item : ℤ → ℕ → ℤ → Arena → Arena × Bool
unfolding apply_item
game_handle_use_item now s item_index a = elim (player_at a.players s) [
  | none ↦ (a, false)
  | some p ↦
      let (q, type) = player_use_item p item_index in
      let used : Arena = record a { players = update_player s (λ _. q) a.players } in
      if is_none type
      then (used, false)
      else let wal_data = snprintf 128 (
          commas (
            entry (codes "pid") p.id
            ∷ entry (codes "item") (item_number type)
            ∷ entry (codes "idx") item_index
            ∷ [])) in
        let logged = log_action now wal_use_item wal_data used in
        (record logged { players = update_player s (apply_item now type) logged.players }, true)
]
