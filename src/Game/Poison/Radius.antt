-- ===== src/Game/Poison/Radius.antt =====
-- The shrinking of the safe zone.
use asciigame.Base.{
  ◌≡◌, refl, sym, ◌∙◌, ◌≢◌, ◌⊎◌, inl, inr, true, false, arith, ℤ, pos, ◌≤ℤ◌, ◌<ℤ◌, ◌-ℤ◌, ltb_ℤ,
  Bool-cases, int_laws,
}
use asciigame.Config.{poison_start_time, poison_shrink_interval}
use asciigame.GameMap.{map_is_in_poison}
use asciigame.GameMap.Zone.{safe_mono}
use asciigame.Room.{Arena, room_broadcast, write_wal}
use asciigame.Game.Poison.{game_update_poison}

-- The zone shrinks by exactly one, and the time is noted, when the game has lasted 60 s, the last
-- shrinking is 30 s ago and the radius is above 1. Else nothing changes. No player changes.
pub game_update_poison_lem :
    (now : ℤ) (a : Arena)
    → let b = game_update_poison now a in
      (b.players ≡ a.players)
      × (((poison_start_time ≤ℤ now -ℤ a.room.game_start_time)
            × (poison_shrink_interval ≤ℤ now -ℤ a.room.last_poison_shrink)
            × (pos 1 <ℤ a.room.poison_radius)
            × (b.room.poison_radius ≡ a.room.poison_radius -ℤ pos 1)
            × (b.room.last_poison_shrink ≡ now))
          ⊎ (((now -ℤ a.room.game_start_time <ℤ poison_start_time)
                ⊎ (now -ℤ a.room.last_poison_shrink <ℤ poison_shrink_interval)
                ⊎ (a.room.poison_radius ≤ℤ pos 1))
              × (b ≡ a)))
unfolding game_update_poison room_broadcast write_wal
game_update_poison_lem now a =
    elim (Bool-cases (ltb_ℤ (now -ℤ a.room.game_start_time) poison_start_time)) [
      | inl e ↦ simp e (refl, inr (inl (ground arith), refl))
      | inr e ↦
          simp e
            (elim (Bool-cases (ltb_ℤ (now -ℤ a.room.last_poison_shrink) poison_shrink_interval)) [
              | inl f ↦ simp f (refl, inr (inr (inl (ground arith)), refl))
              | inr f ↦ simp f (elim (Bool-cases (ltb_ℤ (pos 1) a.room.poison_radius)) [
                | inl g ↦ simp g (refl, inl (ground arith, ground arith, ground arith, refl, refl))
                | inr g ↦ simp g (refl, inr (inr (inr (ground arith)), refl))
              ])
            ])
    ]

radius_bounds :
    (now : ℤ) (a : Arena)
    → pos 1 ≤ℤ a.room.poison_radius
    → let b = game_update_poison now a in
      (pos 1 ≤ℤ b.room.poison_radius) × (b.room.poison_radius ≤ℤ a.room.poison_radius)
radius_bounds now a h = elim ((game_update_poison_lem now a).1) [
  | inl (_, _, above, e, _) ↦ rw e (omega int_laws, omega int_laws)
  | inr (_, e) ↦ rw e (h, omega arith)
]

true≢false : true ≢ false
true≢false e = cc

-- The radius never falls below 1, and a position in the poison stays in the poison.
pub poison_grows :
    (now : ℤ) (a : Arena) (x y : ℤ)
    → pos 1 ≤ℤ a.room.poison_radius
    → let b = game_update_poison now a in
      (pos 1 ≤ℤ b.room.poison_radius)
      × (b.room.poison_radius ≤ℤ a.room.poison_radius)
      × (map_is_in_poison x y a.room.poison_radius ≡ true
          → map_is_in_poison x y b.room.poison_radius ≡ true)
poison_grows now a x y h =
    let (low, le) = radius_bounds now a h in
    (
      low,
      le,
      λ p.
          elim (Bool-cases (map_is_in_poison x y ((game_update_poison now a).room.poison_radius))) [
            | inl e ↦ e
            | inr e ↦ absurd (true≢false (sym p ∙ safe_mono x y _ _ le e))
          ],
    )
