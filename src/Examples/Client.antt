-- ===== src/Examples/Client.antt =====
-- The client's claims at concrete inputs.
use asciigame.Base.{
  ℕ, ◌≡◌, ◌<◌, refl, Bool, true, false, List, [], ◌∷◌, ◌++◌, ℤ, pos, arith, All, some, length, not,
  all, All-all-not, ◌+◌, ◌==◌, ◌&&◌,
}
use asciigame.Config.{max_msg_len, map_width}
use asciigame.Text.{Text, codes}
use asciigame.GameMap.{GameMap, map_generate}
use asciigame.Protocol.{protocol_extract_message, extracted}
use asciigame.Client.{game_state_init, game_add_message, max_messages}
use asciigame.Client.Messages.{IsRing, nth_message, game_add_message_lem}
use asciigame.Client.Update.{read, recv_thread_func, game_update_from_server}
use asciigame.Client.Stream.{recv_thread_func_lem}
use asciigame.Protocol.MapData.{protocol_build_map_data}
use asciigame.Client.MapData.RoundTrip.{is_separator, IsRow, IsSendable, map_data_roundtrip}

abbrev no_values : ℕ → ℤ
no_values k = pos 0

fresh-IsRing : IsRing game_state_init
unfolding game_state_init
fresh-IsRing = record { places = refl; head = omega arith; count = omega arith }

game_add_message_lem_example :
    let g = game_state_init in
    let h = game_add_message (codes "bob") (codes "hello") g in
    IsRing h
    × ((g.msg_count < max_messages)
        → (h.msg_count ≡ g.msg_count + 1)
          × (nth_message h g.msg_count
              ≡ some (record { sender = codes "bob"; text = codes "hello" }))
          × ((i : ℕ) → i < g.msg_count → nth_message h i ≡ nth_message g i))
    × ((g.msg_count ≡ max_messages)
        → (h.msg_count ≡ max_messages)
          × (nth_message h 49 ≡ some (record { sender = codes "bob"; text = codes "hello" }))
          × ((i : ℕ) → i < 49 → nth_message h i ≡ nth_message g (i + 1)))
game_add_message_lem_example =
    game_add_message_lem (codes "bob") (codes "hello") game_state_init fresh-IsRing

abbrev first_read : List ℕ
first_read = codes "OK|Rea"

abbrev second_read : List ℕ
second_read = codes "dy" ++ 10 ∷ codes "OK|Not ready"

recv_thread_func_lem_example :
    recv_thread_func
      (pos 7)
      no_values
      (read first_read ∷ read second_read ∷ read (10 ∷ []) ∷ [])
      []
      game_state_init
    ≡ recv_thread_func
        (pos 7)
        no_values
        (read (first_read ++ second_read ++ 10 ∷ []) ∷ [])
        []
        game_state_init
recv_thread_func_lem_example =
    recv_thread_func_lem (pos 7) no_values first_read (second_read ∷ (10 ∷ []) ∷ []) []
      game_state_init (omega arith)

abbrev is_row : Text → Bool
is_row r = (length r == map_width) && all (λ c. not (is_separator c)) r

both : (b c : Bool) → (b && c) ≡ true → (b ≡ true) × (c ≡ true)
both true c e = (refl, e)
both false c e = absurd (cc)

-- The rows of the map, tested.
rows_of : (m : GameMap) → all is_row m ≡ true → All IsRow m
rows_of [] e = tt
rows_of (r ∷ m) e =
    let (here, rest) = both (is_row r) (all is_row m) e in
    let (now, cells) = both (length r == map_width) (all (λ c. not (is_separator c)) r) here in
    ((ground (arith, now), All-all-not is_separator r cells), rows_of m rest)

map_generate-IsSendable : IsSendable map_generate
unfolding map_generate
map_generate-IsSendable = record { height = refl; rows = rows_of map_generate refl }

map_data_roundtrip_example :
    let (buf, r) =
      protocol_extract_message
        (protocol_build_map_data max_msg_len map_generate ++ codes "OK|")
        max_msg_len in
    (buf ≡ codes "OK|")
    × (s : Text) × (r ≡ extracted s)
    × ((game_update_from_server (pos 7) no_values s game_state_init).grid ≡ map_generate)
map_data_roundtrip_example =
    map_data_roundtrip (pos 7) no_values map_generate (codes "OK|") game_state_init
      map_generate-IsSendable
