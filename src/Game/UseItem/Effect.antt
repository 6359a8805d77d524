-- ===== src/Game/UseItem/Effect.antt =====
-- What using an item changes.
use asciigame.Base.{
  ℕ, ◌≡◌, refl, ap, ◌∙◌, ◌⊎◌, inl, inr, true, false, arith, some, ℤ, pos, negsuc, ◌≤ℤ◌, ◌<ℤ◌, ◌<◌,
  ◌+ℤ◌, Bool-cases, get_elem?,
}
use asciigame.Config.{health_restore, atk_buff_amount, atk_buff_duration}
use asciigame.Player.{
  Player, ItemType, item_none, item_health, item_attack, item_shield, is_none, player_at,
  update_player, player_use_item,
}
use asciigame.Player.Inventory.{
  items, IsStocked, remove_at, player_use_item_lem, player_use_item_none,
}
use asciigame.Player.Update.{player_at-update_self, update_player_same}
use asciigame.Room.{Arena}
use asciigame.Game.UseItem.{apply_item, game_handle_use_item}

-- What an item does to a player, besides leaving the inventory.
abbrev pub Effect : ℤ → ItemType → Player → Player → Type 0
Effect now item_health p q =
    (q.hp ≤ℤ p.max_hp)
    × (p.hp +ℤ health_restore ≤ℤ p.max_hp → q.hp ≡ p.hp +ℤ health_restore)
    × (p.max_hp <ℤ p.hp +ℤ health_restore → q.hp ≡ p.max_hp)
    × (q.atk ≡ p.atk)
    × (q.has_shield ≡ p.has_shield)
Effect now item_attack p q =
    (q.atk ≡ p.base_atk +ℤ atk_buff_amount)
    × (q.atk_buff_expire ≡ now +ℤ atk_buff_duration)
    × (q.atk_buff_warned ≡ false)
    × (q.hp ≡ p.hp)
    × (q.has_shield ≡ p.has_shield)
Effect now item_shield p q = (q.has_shield ≡ true) × (q.hp ≡ p.hp) × (q.atk ≡ p.atk)
Effect now item_none p q = ⊥

apply_item-Effect :
    (now : ℤ) (t : ItemType) (p : Player) → is_none t ≡ false → Effect now t p (apply_item now t p)
unfolding apply_item
apply_item-Effect now item_none p h = absurd (cc)
apply_item-Effect now item_health p h =
    (ground arith, λ e. ground arith, λ e. ground arith, refl, refl)
apply_item-Effect now item_attack p h = (refl, refl, refl, refl, refl)
apply_item-Effect now item_shield p h = (refl, refl, refl)

-- Taking an item out changes nothing else of the player.
same_stats :
    (p : Player) (index : ℤ)
    → let u = (player_use_item p index).0 in
      (u.hp ≡ p.hp)
      × (u.max_hp ≡ p.max_hp)
      × (u.atk ≡ p.atk)
      × (u.base_atk ≡ p.base_atk)
      × (u.has_shield ≡ p.has_shield)
unfolding player_use_item
same_stats p (negsuc k) = (refl, refl, refl, refl, refl)
same_stats p (pos i) = ground arith

used-Effect :
    (now : ℤ) (t : ItemType) (p q : Player) (index : ℤ)
    → Effect now t (player_use_item p index).0 q
    → Effect now t p q
used-Effect now item_none p q index h = h
used-Effect now item_health p q index h =
    let (a, b, c, d, e) = same_stats p index in
    (simp b at h.0, simp (a, b) at h.1, simp (a, b) at h.2, h.3 ∙ c, h.4 ∙ e)
used-Effect now item_attack p q index h =
    let (a, b, c, d, e) = same_stats p index in
    (h.0 ∙ ap (λ z. z +ℤ atk_buff_amount) d, h.1, h.2, h.3 ∙ a, h.4 ∙ e)
used-Effect now item_shield p q index h =
    let (a, b, c, d, e) = same_stats p index in (h.0, h.1 ∙ a, h.2 ∙ c)

same_inventory : (now : ℤ) (t : ItemType) (p : Player) → items (apply_item now t p) ≡ items p
unfolding apply_item
same_inventory now item_none p = refl
same_inventory now item_health p = refl
same_inventory now item_attack p = refl
same_inventory now item_shield p = refl

-- The item at an index inside the inventory is no empty place.
pub used_real :
    (p : Player) (index : ℕ)
    → IsStocked p
    → index < p.inventory_count
    → is_none ((player_use_item p (pos index)).1) ≡ false
used_real p index v h = elim (Bool-cases (is_none ((player_use_item p (pos index)).1))) [
  | inr n ↦ n
  | inl y ↦ absurd (inside index p.inventory_count h ((player_use_item_none p (pos index) v).0.0 y))
]
  where
    inside : (i n : ℕ) → i < n → ((pos i <ℤ pos 0) ⊎ (pos n ≤ℤ pos i)) → ⊥
    inside i n h o = omega arith

-- Using the item at an index inside a well-formed inventory succeeds. It is the item that stood there, it has
-- left the inventory, and it has its effect: health up to the maximum, the attack buff for its
-- time, or a shield.
pub use_item-Effect :
    (now : ℤ) (s index : ℕ) (a : Arena) (p : Player)
    → player_at a.players s ≡ some p
    → IsStocked p
    → index < p.inventory_count
    → let (b, done) = game_handle_use_item now s (pos index) a in
      (done ≡ true)
      × (t : ItemType) × (q : Player) × (get_elem? (items p) index ≡ some t)
      × (player_at b.players s ≡ some q)
      × (items q ≡ remove_at index (items p))
      × Effect now t p q
unfolding game_handle_use_item
use_item-Effect now s index a p e v h =
    let t = (player_use_item p (pos index)).1 in
    let u = (player_use_item p (pos index)).0 in
    let (g, r, _) = player_use_item_lem p index v h in
    let real = used_real p index v h in
    rw (e, game_handle_use_item)
      (rw real (
        refl,
        t,
        apply_item now t u,
        g,
        player_at-update_self _ s (apply_item now t) u
            (player_at-update_self a.players s (λ _. u) p e),
        same_inventory now t u ∙ r,
        used-Effect now t p _ (pos index) (apply_item-Effect now t u real),
      ))

-- Any index outside a well-formed inventory, a negative one too, is refused, and nothing at all changes.
pub use_item_refused :
    (now : ℤ) (s : ℕ) (index : ℤ) (a : Arena) (p : Player)
    → player_at a.players s ≡ some p
    → IsStocked p
    → ((index <ℤ pos 0) ⊎ (pos p.inventory_count ≤ℤ index))
    → game_handle_use_item now s index a ≡ (a, false)
unfolding game_handle_use_item
use_item_refused now s index a p e v h =
    let kept = player_use_item_none p index v in
    let none_left = kept.0.1 h in
    rw (e, game_handle_use_item)
      (rw none_left (
        ap (λ ps. (record a { players = ps }, false))
          (ap (λ u. update_player s (λ _. u) a.players) (kept.1 none_left)
            ∙ update_player_same a.players s p e)))
