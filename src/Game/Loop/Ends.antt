-- ===== src/Game/Loop/Ends.antt =====
-- Why the loop ends: nothing in a tick changes the time at which the game began.
use asciigame.Base.{
  ℕ, ◌≡◌, ◌∙◌, refl, ap, inl, inr, List, [], ◌∷◌, none, some, ℤ, pos, ltb_ℤ, arith, Bool-cases,
  Option-cases, if◌then◌else◌,
}
use asciigame.Player.{player_find_by_id}
use asciigame.Wal.{WalActionType}
use asciigame.Text.{Text}
use asciigame.Room.{Arena, Room, write_wal, room_broadcast}
use asciigame.Game.Buffs.{game_update_buffs, send_buff_event}
use asciigame.Game.Poison.{game_update_poison, poison_seat, poison_seats, game_apply_poison_damage}
use asciigame.Game.Pickup.{game_spawn_items}
use asciigame.Game.Finish.{game_check_end}
use asciigame.Game.Broadcast.{game_broadcast_state}
use asciigame.Snapshot.{snapshot_save}
use asciigame.Game.Loop.{TickTimes, update_all_buffs, save_if_due, before_check}

-- The time at which the game began.
abbrev pub began : Arena → ℤ
began a = a.room.game_start_time

game_update_buffs-room : (now : ℤ) (s : ℕ) (a : Arena) → (game_update_buffs now s a).room ≡ a.room
unfolding game_update_buffs send_buff_event
game_update_buffs-room now s a = ground arith

update_all_buffs-room :
    (now : ℤ) (ids : List ℤ) (a : Arena) → (update_all_buffs now ids a).room ≡ a.room
unfolding update_all_buffs
update_all_buffs-room now [] a = refl
update_all_buffs-room now (id ∷ ids) a = update_all_buffs-room now ids _ ∙ one_seat
  where
    one_seat :
        (if ltb_ℤ id (pos 0) then a else elim (player_find_by_id a.players id) [
          | none ↦ a
          | some s ↦ game_update_buffs now s a
        ]).room
        ≡ a.room
    one_seat = elim (Bool-cases (ltb_ℤ id (pos 0))) [
      | inl e ↦ rw e refl
      | inr e ↦ elim (Option-cases (player_find_by_id a.players id)) [
        | inl f ↦ rw (e, f) refl
        | inr (s, f) ↦ rw (e, f) (game_update_buffs-room now s a)
      ]
    ]

write_wal-began :
    (now : ℤ) (type : WalActionType) (text : Text) (room : Room)
    → (write_wal now type text room).game_start_time ≡ room.game_start_time
unfolding write_wal
write_wal-began now type text room = refl

game_update_poison-began : (now : ℤ) (a : Arena) → began (game_update_poison now a) ≡ began a
unfolding game_update_poison room_broadcast write_wal
game_update_poison-began now a = ground arith

poison_seat-began : (now radius id : ℤ) (a : Arena) → began (poison_seat now radius id a) ≡ began a
unfolding poison_seat write_wal
poison_seat-began now radius id a = ground arith

poison_seats-began :
    (now radius : ℤ) (ids : List ℤ) (a : Arena) → began (poison_seats now radius ids a) ≡ began a
unfolding poison_seats
poison_seats-began now radius [] a = refl
poison_seats-began now radius (id ∷ ids) a = elim (Bool-cases (ltb_ℤ id (pos 0))) [
  | inl e ↦ rw (e, poison_seats) (poison_seats-began now radius ids a)
  | inr e ↦
      rw (e, poison_seats)
        (poison_seats-began now radius ids (poison_seat now radius id a)
          ∙ poison_seat-began now radius id a)
]

game_apply_poison_damage-began :
    (now : ℤ) (a : Arena) → began (game_apply_poison_damage now a) ≡ began a
unfolding game_apply_poison_damage
game_apply_poison_damage-began now a =
    poison_seats-began now a.room.poison_radius a.room.player_ids a

game_spawn_items-began :
    (rand : ℕ → ℕ) (now : ℤ) (a : Arena) → began (game_spawn_items rand now a) ≡ began a
unfolding game_spawn_items write_wal
game_spawn_items-began rand now a = ground arith

save_if_due-began : (now : ℤ) (a : Arena) → began (save_if_due now a) ≡ began a
unfolding snapshot_save
save_if_due-began now a = ground arith

pub before_check-began :
    (rand : ℕ → ℕ) (t : TickTimes) (a : Arena) → began (before_check rand t a) ≡ began a
unfolding before_check
before_check-began rand t a =
    save_if_due-began t.at_snapshot _
    ∙ game_spawn_items-began rand t.at_spawn _
    ∙ game_apply_poison_damage-began t.at_damage _
    ∙ game_update_poison-began t.at_poison _
    ∙ ap (λ (r : Room). r.game_start_time) (update_all_buffs-room t.at_buffs a.room.player_ids a)

pub game_check_end-began : (now : ℤ) (a : Arena) → began (game_check_end now a).0 ≡ began a
unfolding game_check_end
game_check_end-began now a = ground arith

pub game_broadcast_state-began :
    (now : ℤ) (a : Arena) → began (game_broadcast_state now a) ≡ began a
unfolding game_broadcast_state room_broadcast
game_broadcast_state-began now a = refl
