-- ===== src/Client/NoItems.antt =====
-- The tick's message of a room on whose map nothing lies.
use asciigame.Base.{
  ℕ, ◌<◌, ◌≡◌, refl, ap, ◌∙◌, true, List, [], ◌∷◌, ◌++◌, ℤ, arith, All, length, map, take_all, some,
}
use asciigame.Config.{max_msg_len}
use asciigame.Text.{Text}
use asciigame.Text.Decimal.{print_int, Fits, length-print_int}
use asciigame.Text.Fields.{drop_empty}
use asciigame.Room.{Arena}
use asciigame.Game.Broadcast.{state_numbers, entries_text, player_states}
use asciigame.Protocol.{
  cmd_game_state, protocol_extract_message, extracted, protocol_build_game_state, message_of,
  arguments,
}
use asciigame.Protocol.Framing.{extract_first_line}
use asciigame.Protocol.RoundTrip.{
  IsField, Plain, body, snprintf-line, parse_with_empty, body-NoNewline, arguments-fields,
}
use asciigame.Client.{GameState, game_set_dirty}
use asciigame.Client.Update.{game_update_from_server, update_of_parsed}
use asciigame.Client.State.{handle_game_state}
use asciigame.Client.State.Tokens.{entries-Plain, drop_empty_kept}
use asciigame.Client.Synced.{
  state_message, seated_in, lying_in, print_int-IsField, length-body_four, state_name,
  state_name-IsField, parse_cmd-game_state,
}

abbrev players_text : Arena → Text
players_text a = entries_text true (map state_numbers (seated_in a))

-- Somebody sits in the room, and the texts fit the message.
pub record IsEmptyMap (now : ℤ) (a : Arena) : Type 0 where
  pub players_short : length (entries_text true (map state_numbers (seated_in a))) < 2048
  pub players_filled : 0 < length (entries_text true (map state_numbers (seated_in a)))
  pub no_items : lying_in a ≡ []
  pub time : Fits 19 now
  pub radius : Fits 10 a.room.poison_radius

abbrev kept_fields : ℤ → Arena → List Text
kept_fields now a = print_int now ∷ players_text a ∷ print_int a.room.poison_radius ∷ []

abbrev all_fields : ℤ → Arena → List Text
all_fields now a = print_int now ∷ players_text a ∷ [] ∷ print_int a.room.poison_radius ∷ []

kept_fields-IsField : (now : ℤ) (a : Arena) → IsEmptyMap now a → All IsField (kept_fields now a)
kept_fields-IsField now a v = (
  print_int-IsField 18 now v.time (omega arith),
  (
    record {
      plain = entries-Plain true (map state_numbers (seated_in a));
      filled = omega (arith, v.players_filled);
      short = v.players_short;
    },
    (print_int-IsField 9 a.room.poison_radius v.radius (omega arith), tt),
  ),
)

all_fields-Plain : (now : ℤ) (a : Arena) → IsEmptyMap now a → All Plain (all_fields now a)
all_fields-Plain now a v =
    let f = kept_fields-IsField now a v in (f.0.plain, (f.1.0.plain, (tt, (f.1.1.0.plain, tt))))

fields_short :
    (now : ℤ) (a : Arena) → IsEmptyMap now a → length (body state_name (all_fields now a)) < 4000
fields_short now a v = omega (
  arith,
  length-body_four (print_int now) (players_text a) [] (print_int a.room.poison_radius),
  length-print_int 18 now v.time,
  length-print_int 9 a.room.poison_radius v.radius,
  v.players_short,
)

built_state :
    (now : ℤ) (a : Arena) (rest : Text)
    → IsEmptyMap now a
    → state_message now a ++ rest ≡ body state_name (all_fields now a) ++ 10 ∷ rest
unfolding protocol_build_game_state
built_state now a rest v =
    let players : player_states a ≡ players_text a =
      take_all 4095 (players_text a) (omega (arith, v.players_short)) in
    rw (players, v.no_items)
      (snprintf-line state_name (all_fields now a) rest (omega (arith, fields_short now a v)))

fields_left :
    (now : ℤ) (a : Arena)
    → IsEmptyMap now a
    → drop_empty (state_name ∷ all_fields now a) ≡ state_name ∷ kept_fields now a
fields_left now a v =
    let f = kept_fields-IsField now a v in
    let r = print_int a.room.poison_radius in
    let zone = drop_empty_kept r [] f.1.1.0.filled in
    let players = drop_empty_kept (players_text a) ([] ∷ r ∷ []) f.1.0.filled in
    let time = drop_empty_kept (print_int now) (players_text a ∷ [] ∷ r ∷ []) f.0.filled in
    ap (◌∷◌ state_name) (time ∙ ap (◌∷◌ (print_int now)) (players ∙ ap (◌∷◌ (players_text a)) zone))

ignored :
    (junk : ℕ → ℤ) (x y z : Text) (g : GameState) → handle_game_state junk (x ∷ y ∷ z ∷ []) g ≡ g
unfolding handle_game_state
ignored junk x y z g = refl

-- The message that the server sends of a room on whose map nothing lies is extracted by the client
-- as one message, and the client ignores it: apart from the request to draw again its state is as
-- before, whatever the places and the life of the players are. Somebody sits in the room, and the
-- texts fit their buffers.
pub game_broadcast_state_no_items :
    (now : ℤ) (time : ℤ) (junk : ℕ → ℤ) (a : Arena) (rest : Text) (g : GameState)
    → IsEmptyMap time a
    → let (buf, r) = protocol_extract_message (state_message time a ++ rest) max_msg_len in
      (buf ≡ rest)
      × (s : Text) × (r ≡ extracted s)
      × (game_update_from_server now junk s g ≡ game_set_dirty g)
game_broadcast_state_no_items now time junk a rest g v =
    let fs = all_fields time a in
    let b = body state_name fs in
    let plain = all_fields-Plain time a v in
    let short = fields_short time a v in
    let kept = kept_fields time a in
    let first =
      extract_first_line b rest max_msg_len
        (body-NoNewline state_name fs state_name-IsField.plain plain) in
    let parsed =
      parse_with_empty state_name fs state_name-IsField plain (omega (arith, short))
      ∙ ap message_of (fields_left time a v)
      ∙ ap (λ t. some (record { type = t; args = arguments kept })) parse_cmd-game_state in
    let args = arguments-fields kept (kept_fields-IsField time a v) (omega arith) in
    rw (built_state time a rest v) (
      first.0,
      b,
      first.1 (omega (arith, short)),
      update_of_parsed now junk b _ g
            (parsed ∙ ap (λ t. some (record { type = cmd_game_state; args = t })) args)
          ∙ ap game_set_dirty (ignored junk _ _ _ g),
    )
