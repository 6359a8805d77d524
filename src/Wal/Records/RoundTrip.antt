-- ===== src/Wal/Records/RoundTrip.antt =====
-- A record that was written is read back.
use mathlib.Core.List.{append_assoc, append-nil}
use asciigame.Base.{
  ℕ, ◌<◌, ◌≡◌, refl, ap, ◌∙◌, true, false, [], ◌∷◌, ◌++◌, some, arith, ℤ, length, length-append,
  take_all, ◌==◌, All, ◌||◌, Bool, all, not, All-all-not, All-append, ◌≤◌,
}
use asciigame.Config.{wal_buffer_size, max_msg_len}
use asciigame.Text.{Text, copy_into}
use asciigame.Text.Decimal.{print_int, print_int-All_ne, atoi, atoi-print_int}
use asciigame.Text.Scan.{strtok}
use asciigame.Text.Scan.Printed.{strtok-print_int}
use asciigame.Protocol.{strip_newlines}
use asciigame.Wal.{WalActionType, wal_game_start, wal_action_name, wal_record}
use asciigame.Wal.Actions.{wal_parse_action-wal_action_name}
use asciigame.Wal.Records.{wal_parse_fields, wal_parse_record, record_buffer}

-- A text that holds no newline and no carriage return.
abbrev pub ends_line : ℕ → Bool
ends_line c = c == 10 || c == 13

abbrev pub IsLine : Text → Type 0
IsLine = All (λ c. ends_line c ≡ false)

strip_newlines-line : (s : Text) → IsLine s → strip_newlines (s ++ 10 ∷ []) ≡ s
unfolding strip_newlines
strip_newlines-line [] h = refl
strip_newlines-line (c ∷ []) h = rw h.0
strip_newlines-line (c ∷ d ∷ s) h = rw (strip_newlines-line (d ∷ s) h.1)

-- The record without its newline.
abbrev record_body : ℤ → ℤ → ℤ → WalActionType → Text → Text
record_body timestamp seq room_id type action_data =
    print_int timestamp
    ++ b'|'
      ∷ (print_int seq
          ++ b'|' ∷ (print_int room_id ++ b'|' ∷ (wal_action_name type ++ b'|' ∷ action_data)))

strtok-name :
    (type : WalActionType) (rest : Text)
    → strtok b'|' (wal_action_name type ++ b'|' ∷ rest) ≡ some (wal_action_name type, rest)
unfolding wal_action_name strtok
strtok-name wal_game_start rest = refl
strtok-name _ rest = refl

record_body-wal_record :
    (timestamp seq room_id : ℤ) (type : WalActionType) (action_data : Text)
    → wal_record timestamp seq room_id type action_data
      ≡ record_body timestamp seq room_id type action_data ++ 10 ∷ []
unfolding wal_record
record_body-wal_record timestamp seq room_id type action_data = simp append_assoc

atoi_whole : (z : ℤ) → atoi (print_int z) ≡ z
atoi_whole z = rw append-nil at (atoi-print_int z [] tt)

parse-record_body :
    (timestamp seq room_id : ℤ) (type : WalActionType) (action_data : Text)
    → wal_parse_fields (record_body timestamp seq room_id type action_data)
      ≡ some (record {
        timestamp = timestamp;
        sequence = seq;
        room_id = room_id;
        action_type = some type;
        action_data = copy_into max_msg_len action_data;
      })
unfolding wal_parse_fields
parse-record_body timestamp seq room_id type action_data =
    let after_room = wal_action_name type ++ b'|' ∷ action_data in
    let after_sequence = print_int room_id ++ b'|' ∷ after_room in
    let after_time = print_int seq ++ b'|' ∷ after_sequence in
    rw
      (
        strtok-print_int b'|' timestamp after_time refl refl,
        strtok-print_int b'|' seq after_sequence refl refl,
        strtok-print_int b'|' room_id after_room refl refl,
        strtok-name type action_data,
        atoi_whole timestamp,
        atoi_whole seq,
        atoi_whole room_id,
        wal_parse_action-wal_action_name type,
        wal_parse_fields,
      )
      refl

pub print_int-IsLine : (z : ℤ) → IsLine (print_int z)
print_int-IsLine z =
    go (print_int z) (print_int-All_ne 10 refl refl z) (print_int-All_ne 13 refl refl z)
  where
    go : (s : Text) → All (λ c. (c == 10) ≡ false) s → All (λ c. (c == 13) ≡ false) s → IsLine s
    go [] h g = tt
    go (c ∷ s) h g = (rw (h.0, g.0) refl, go s h.1 g.1)

wal_action_name_tested :
    (type : WalActionType) → all (λ c. not (ends_line c)) (wal_action_name type) ≡ true
unfolding wal_action_name
wal_action_name_tested wal_game_start = refl
wal_action_name_tested _ = refl

wal_action_name-IsLine : (type : WalActionType) → IsLine (wal_action_name type)
wal_action_name-IsLine type =
    All-all-not ends_line (wal_action_name type) (wal_action_name_tested type)

record_body-IsLine :
    (timestamp seq room_id : ℤ) (type : WalActionType) (action_data : Text)
    → IsLine action_data
    → IsLine (record_body timestamp seq room_id type action_data)
record_body-IsLine timestamp seq room_id type action_data h =
    let join = All-append ends_line in
    join (print_int timestamp) _ (print_int-IsLine timestamp) (
      refl,
      join (print_int seq) _ (print_int-IsLine seq) (
        refl,
        join (print_int room_id) _ (print_int-IsLine room_id)
            (refl, join (wal_action_name type) _ (wal_action_name-IsLine type) (refl, h)),
      ),
    )

length_behind : (n c : ℕ) (xs ys : Text) → n ≤ length ys → n ≤ length (xs ++ c ∷ ys)
length_behind n c xs ys h = omega (arith, length-append xs (c ∷ ys))

length-data :
    (timestamp seq room_id : ℤ) (type : WalActionType) (action_data : Text)
    → length action_data ≤ length (wal_record timestamp seq room_id type action_data)
unfolding wal_record
length-data timestamp seq room_id type action_data =
    let n = length action_data in
    length_behind n b'|' (print_int timestamp) _ (
      length_behind n b'|' (print_int seq) _ (
        length_behind n b'|' (print_int room_id) _ (
          length_behind n b'|' (wal_action_name type) _
            (omega (arith, length-append action_data (10 ∷ []))))))

parse_buffer :
    (line body : Text) → record_buffer line ≡ body → wal_parse_record line ≡ wal_parse_fields body
unfolding wal_parse_record
parse_buffer line body e = ap wal_parse_fields e

-- A record that fits in the buffer and whose data holds no line end is read back as it was written:
-- time, sequence number, room, action and data.
pub wal_parse_record-wal_record :
    (timestamp seq room_id : ℤ) (type : WalActionType) (action_data : Text)
    → IsLine action_data
    → length (wal_record timestamp seq room_id type action_data) < wal_buffer_size
    → wal_parse_record (wal_record timestamp seq room_id type action_data)
      ≡ some (record {
        timestamp = timestamp;
        sequence = seq;
        room_id = room_id;
        action_type = some type;
        action_data = action_data;
      })
wal_parse_record-wal_record timestamp seq room_id type action_data h l =
    let line = wal_record timestamp seq room_id type action_data in
    let body = record_body timestamp seq room_id type action_data in
    let stripped : record_buffer line ≡ body =
      ap strip_newlines (take_all 4095 line (omega arith))
      ∙ ap strip_newlines (record_body-wal_record timestamp seq room_id type action_data)
      ∙ strip_newlines-line body (record_body-IsLine timestamp seq room_id type action_data h) in
    let whole : copy_into max_msg_len action_data ≡ action_data =
      take_all 4095 action_data
        (omega (arith, length-data timestamp seq room_id type action_data)) in
    parse_buffer line body stripped
    ∙ parse-record_body timestamp seq room_id type action_data
    ∙ rw whole refl
