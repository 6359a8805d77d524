-- ===== src/Game/Attack/Victim.antt =====
-- What one player suffers from an attack, as a function of the player alone.
use asciigame.Base.{◌≡◌, arith, pos, leb_ℤ, ◌==ℤ◌, if◌then◌else◌}
use asciigame.Player.{Player}
use asciigame.Game.Attack.{Blow, is_hit, break_shield, take_damage, die}

-- A shield takes the blow; without one the damage is subtracted, and at no hit points left the
-- player is dead with exactly 0.
abbrev pub struck : Blow → Player → Player
struck b p =
    if p.has_shield
    then break_shield p
    else let hurt = take_damage b p in if leb_ℤ (hurt.hp) (pos 0) then die hurt else hurt

-- The attacker, and whoever is out of range, not in the game or dead, suffers nothing.
abbrev pub suffered : Blow → Player → Player
suffered b p = if p.id ==ℤ b.attacker_id then p else if is_hit b p then struck b p else p

pub suffered_id : (b : Blow) (p : Player) → (suffered b p).id ≡ p.id
unfolding break_shield take_damage die
suffered_id b p = ground arith
