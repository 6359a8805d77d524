-- ===== src/Client/Events.antt =====
-- `handle_game_event`: what the client shows of a fight, of the poison and of a buff.
use asciigame.Base.{List, [], ◌∷◌, ◌++◌, ℤ, pos, ◌==ℤ◌, if◌then◌else◌}
use asciigame.Text.{Text, codes, text_eq, snprintf}
use asciigame.Text.Decimal.{print_int, atoi}
use asciigame.Client.{GameState, game_add_message, game_trigger_attack_effect}

abbrev pub show_attack : ℤ → List Text → GameState → GameState
show_attack now (attacker ∷ x ∷ y ∷ _) g =
    game_trigger_attack_effect now (atoi x) (atoi y) (pos 3) g
show_attack now _ g = g

-- A text about the client's own player.
abbrev pub show_own : Text → Text → Text → GameState → GameState
show_own sender id words g =
    if atoi id ==ℤ g.my_id then game_add_message sender (snprintf 64 words) g else g

abbrev pub show_attack_result : List Text → GameState → GameState
show_attack_result (attacker ∷ hits ∷ _) g =
    let words =
      if atoi hits ==ℤ pos 0
      then codes "Attack missed!"
      else codes "Attack hit " ++ print_int (atoi hits) ++ codes " target(s)!" in
    show_own (codes "Combat") attacker words g
show_attack_result _ g = g

abbrev pub damage_text : ℤ → ℤ → ℤ → ℤ → ℤ → Text
damage_text me attacker victim damage hp =
    if victim ==ℤ me
    then codes "You took " ++ print_int damage ++ codes " damage! HP: " ++ print_int hp
    else (if attacker ==ℤ me
        then codes "You dealt " ++ print_int damage ++ codes " damage!"
        else codes "Player "
          ++ print_int attacker
          ++ codes " hit player "
          ++ print_int victim
          ++ codes " for "
          ++ print_int damage
          ++ codes " damage")

abbrev pub show_damage : List Text → GameState → GameState
show_damage (attacker ∷ victim ∷ damage ∷ hp ∷ _) g =
    let words = damage_text g.my_id (atoi attacker) (atoi victim) (atoi damage) (atoi hp) in
    game_add_message (codes "Combat") (snprintf 128 words)
      (if atoi victim ==ℤ g.my_id then record g { my_hp = atoi hp } else g)
show_damage _ g = g

abbrev pub kill_text : ℤ → ℤ → ℤ → Text
kill_text me killer victim =
    if victim ==ℤ me
    then codes "You were killed by player " ++ print_int killer ++ codes "!"
    else (if killer ==ℤ me
        then codes "You killed player " ++ print_int victim ++ codes "!"
        else codes "Player " ++ print_int killer ++ codes " killed player " ++ print_int victim)

abbrev pub show_kill : List Text → GameState → GameState
show_kill (killer ∷ victim ∷ _) g =
    game_add_message (codes "Combat") (snprintf 128 (kill_text g.my_id (atoi killer) (atoi victim)))
      g
show_kill _ g = g

abbrev pub show_shield : List Text → GameState → GameState
show_shield (attacker ∷ defender ∷ _) g =
    if atoi defender ==ℤ g.my_id
    then game_add_message (codes "Combat") (codes "Your shield blocked an attack!") g
    else (if atoi attacker ==ℤ g.my_id
        then game_add_message (codes "Combat") (codes "Your attack was blocked by a shield!") g
        else g)
show_shield _ g = g

abbrev pub show_warning : List Text → GameState → GameState
show_warning (id ∷ seconds ∷ _) g =
    show_own (codes "Buff") id
      (codes "Attack buff expires in " ++ print_int (atoi seconds) ++ codes " seconds!") g
show_warning _ g = g

abbrev pub show_expired : List Text → GameState → GameState
show_expired (id ∷ _) g = show_own (codes "Buff") id (codes "Attack buff has expired!") g
show_expired [] g = g

abbrev pub item_name : ℤ → Text
item_name type =
    if type ==ℤ pos 1
    then codes "Health Pack"
    else (if type ==ℤ pos 2
        then codes "Attack Potion"
        else (if type ==ℤ pos 3 then codes "Shield" else codes "Item"))

abbrev pub show_pickup : List Text → GameState → GameState
show_pickup (id ∷ type ∷ _) g =
    show_own (codes "Item") id (codes "Picked up " ++ item_name (atoi type) ++ codes "!") g
show_pickup _ g = g

-- The first test that holds chooses the handler. An event of too few fields passes on to the later
-- tests, which fail on its name.
abbrev pub event_handler : ℤ → Text → List Text → GameState → GameState
event_handler now event args g =
    if text_eq event (codes "ATTACK")
    then show_attack now args g
    else (if text_eq event (codes "ATTACK_RESULT")
        then show_attack_result args g
        else (if text_eq event (codes "DAMAGE")
            then show_damage args g
            else (if text_eq event (codes "KILL")
                then show_kill args g
                else (if text_eq event (codes "SHIELD")
                    then show_shield args g
                    else (if text_eq event (codes "POISON")
                        then game_add_message (codes "System") (codes "Poison zone shrinking!") g
                        else (if text_eq event (codes "BUFF_WARNING")
                            then show_warning args g
                            else (if text_eq event (codes "BUFF_EXPIRED")
                                then show_expired args g
                                else (if text_eq event (codes "PICKUP")
                                    then show_pickup args g
                                    else g))))))))

unfoldable pub handle_game_event : ℤ → List Text → GameState → GameState
unfolding text_eq print_int atoi game_add_message game_trigger_attack_effect
handle_game_event now [] g = g
handle_game_event now (event ∷ args) g = event_handler now event args g
