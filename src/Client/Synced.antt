-- ===== src/Client/Synced.antt =====
-- The tick's message from the server's room to the client's screen.
use asciigame.Base.{
  ℕ, suc, ◌+◌, ◌<◌, ◌≤◌, ◌≡◌, refl, ap, sym, ◌∙◌, true, List, [], ◌∷◌, ◌++◌, ℤ, arith, All, length,
  length-append, map, take_all, some,
}
use mathlib.Core.List.{append-nil}
use asciigame.Config.{max_msg_len}
use asciigame.Text.{Text, codes}
use asciigame.Text.Decimal.{print_int, atoi, atoi-print_int, Fits, length-print_int}
use asciigame.Text.Scan.Printed.{print_int_filled}
use asciigame.GameMap.{MapItem}
use asciigame.Player.{Player}
use asciigame.Room.{Arena, room_broadcast}
use asciigame.Game.Broadcast.{
  state_numbers, item_numbers, entries_text, seated_players, lying, player_states, item_states,
  game_broadcast_state,
}
use asciigame.Protocol.{
  cmd_game_state, protocol_parse_cmd, protocol_extract_message, extracted,
  protocol_build_game_state,
}
use asciigame.Protocol.Framing.{extract_first_line}
use asciigame.Protocol.RoundTrip.{
  IsField, Plain, body, snprintf-line, parse-body, body-NoNewline, Plain-fields,
}
use asciigame.Client.{GameState}
use asciigame.Client.Update.{game_update_from_server, update_of_parsed}
use asciigame.Client.State.{handle_game_state, parse_player_states}
use asciigame.Client.State.Tokens.{entry-Plain, entries-Plain}
use asciigame.Client.State.Shown.{
  shown_player, shown_item, parse_player_states-players, parse_item_states-items,
}

abbrev pub state_message : ℤ → Arena → Text
state_message now a =
    protocol_build_game_state max_msg_len now (player_states a) (item_states a) a.room.poison_radius

abbrev pub seated_in : Arena → List Player
seated_in a = seated_players a.room.player_ids a.players

abbrev pub lying_in : Arena → List MapItem
lying_in a = lying a.room.item_count a.room.items

-- The texts fit the message: somebody sits in the room and something lies on its map, no more than
-- the client shows.
pub record IsShowable (now : ℤ) (a : Arena) : Type 0 where
  pub players_short : length (entries_text true (map state_numbers (seated_in a))) < 2048
  pub players_filled : 0 < length (entries_text true (map state_numbers (seated_in a)))
  pub players : length (seated_in a) ≤ 10
  pub items_short : length (entries_text true (map item_numbers (lying_in a))) < 1024
  pub items_filled : 0 < length (entries_text true (map item_numbers (lying_in a)))
  pub items : length (lying_in a) ≤ 20
  pub time : Fits 19 now
  pub radius : Fits 10 a.room.poison_radius

pub print_int-IsField : (k : ℕ) (z : ℤ) → Fits (suc k) z → k < 2000 → IsField (print_int z)
print_int-IsField k z f h = record {
  plain = entry-Plain (z ∷ []);
  filled = omega (arith, print_int_filled z);
  short = omega (arith, length-print_int k z f);
}

abbrev pub state_name : Text
state_name = codes "GAME_STATE"

pub state_name-IsField : IsField state_name
state_name-IsField = record { plain = entry_plain; filled = omega arith; short = omega arith }
  where
    entry_plain : Plain state_name
    entry_plain = (refl, (refl, (refl, (refl, (refl, (refl, (refl, (refl, (refl, (refl, tt))))))))))

abbrev state_fields : ℤ → Arena → List Text
state_fields now a =
    print_int now
    ∷ entries_text true (map state_numbers (seated_in a))
    ∷ entries_text true (map item_numbers (lying_in a))
    ∷ print_int a.room.poison_radius
    ∷ []

state_fields-IsField : (now : ℤ) (a : Arena) → IsShowable now a → All IsField (state_fields now a)
state_fields-IsField now a v = (
  print_int-IsField 18 now v.time (omega arith),
  (
    record {
      plain = entries-Plain true (map state_numbers (seated_in a));
      filled = omega (arith, v.players_filled);
      short = v.players_short;
    },
    (
      record {
        plain = entries-Plain true (map item_numbers (lying_in a));
        filled = omega (arith, v.items_filled);
        short = omega (arith, v.items_short);
      },
      (print_int-IsField 9 a.room.poison_radius v.radius (omega arith), tt),
    ),
  ),
)

pub length-body_four :
    (a b c d : Text)
    → length (body state_name (a ∷ b ∷ c ∷ d ∷ [])) ≡ length a + length b + length c + length d + 14
length-body_four a b c d = omega (
  arith,
  length-append a (b'|' ∷ (b ++ b'|' ∷ (c ++ b'|' ∷ d))),
  length-append b (b'|' ∷ (c ++ b'|' ∷ d)),
  length-append c (b'|' ∷ d),
)

state_body_short :
    (now : ℤ) (a : Arena) → IsShowable now a → length (body state_name (state_fields now a)) < 4000
state_body_short now a v = omega (
  arith,
  length-body_four (print_int now) (entries_text true (map state_numbers (seated_in a)))
      (entries_text true (map item_numbers (lying_in a))) (print_int a.room.poison_radius),
  length-print_int 18 now v.time,
  length-print_int 9 a.room.poison_radius v.radius,
  v.players_short,
  v.items_short,
)

built_state :
    (now : ℤ) (a : Arena) (rest : Text)
    → IsShowable now a
    → state_message now a ++ rest ≡ body state_name (state_fields now a) ++ 10 ∷ rest
unfolding protocol_build_game_state
built_state now a rest v =
    let fs = entries_text true (map state_numbers (seated_in a)) in
    let is = entries_text true (map item_numbers (lying_in a)) in
    let players : player_states a ≡ fs = take_all 4095 fs (omega (arith, v.players_short)) in
    let items : item_states a ≡ is = take_all 4095 is (omega (arith, v.items_short)) in
    rw (players, items)
      (snprintf-line state_name (state_fields now a) rest (omega (arith, state_body_short now a v)))

pub parse_cmd-game_state : protocol_parse_cmd state_name ≡ cmd_game_state
unfolding protocol_parse_cmd
parse_cmd-game_state = refl

handled_state :
    (now : ℤ) (junk : ℕ → ℤ) (a : Arena) (g : GameState)
    → IsShowable now a
    → let h = handle_game_state junk (state_fields now a) g in
      (h.players ≡ map shown_player (seated_in a))
      × (h.items ≡ map shown_item (lying_in a))
      × (h.poison_radius ≡ a.room.poison_radius)
unfolding handle_game_state
handled_state now junk a g v =
    let seen = parse_player_states junk (entries_text true (map state_numbers (seated_in a))) g in
    let fs = v.players_short in
    let items =
      parse_item_states-items (lying_in a) seen v.items_filled (omega (arith, v.items_short))
        v.items in
    (
      items.1
          ∙ parse_player_states-players junk (seated_in a) g v.players_filled
              (omega (arith, v.players_short)) v.players,
      items.0,
      ap atoi (sym (append-nil (print_int a.room.poison_radius)))
          ∙ atoi-print_int a.room.poison_radius [] tt,
    )

-- The message that the server sends of a room at a tick, whatever bytes follow it in the stream, is
-- extracted by the client as one message, and after it the client shows exactly the seated players
-- with their places, life and status, exactly the items that lie on the map, and the radius of the
-- safe zone. Somebody sits in the room, something lies on its map, and the texts fit their buffers.
pub game_broadcast_state_lem :
    (now : ℤ) (time : ℤ) (junk : ℕ → ℤ) (a : Arena) (rest : Text) (g : GameState)
    → IsShowable time a
    → (game_broadcast_state time a ≡ room_broadcast (state_message time a) a)
      × let (buf, r) = protocol_extract_message (state_message time a ++ rest) max_msg_len in
        (buf ≡ rest)
        × (s : Text) × (r ≡ extracted s)
        × let h = game_update_from_server now junk s g in
          (h.players ≡ map shown_player (seated_in a))
          × (h.items ≡ map shown_item (lying_in a))
          × (h.poison_radius ≡ a.room.poison_radius)
unfolding game_broadcast_state
game_broadcast_state_lem now time junk a rest g v =
    let fs = state_fields time a in
    let b = body state_name fs in
    let fields = state_fields-IsField time a v in
    let short = state_body_short time a v in
    let first =
      extract_first_line b rest max_msg_len
        (body-NoNewline state_name fs state_name-IsField.plain (Plain-fields fs fields)) in
    let parsed =
      parse-body state_name fs state_name-IsField fields (omega arith) (omega (arith, short))
      ∙ ap (λ t. some (record { type = t; args = fs })) parse_cmd-game_state in
    let updated = update_of_parsed now junk b _ g parsed in
    let shown = handled_state time junk a g v in
    (
      refl,
      rw (built_state time a rest v) (first.0, b, first.1 (omega (arith, short)), rw updated shown),
    )
