-- ===== src/Protocol/RoundTrip.antt =====
-- What the client builds, the server reads.
use asciigame.Base.{
  ℕ, ◌+◌, ◌<◌, ◌≤◌, ◌≡◌, refl, ap, sym, ◌∙◌, Bool, false, ◌||◌, List, [], ◌∷◌, ◌++◌, arith, ◌==◌,
  leb, All, length, length-append, take, take_all, map, some,
}
use mathlib.Core.List.{append_assoc}
use asciigame.Config.{max_args, max_arg_len, max_msg_len}
use asciigame.Text.{Text, codes, copy_into, snprintf}
use asciigame.Text.Fields.{tokens, split, drop_empty, Without, split-append, split-no_delimiter}
use asciigame.Protocol.{
  cmd_login, protocol_parse, protocol_parse_cmd, strip_newlines, arguments, message_of, line,
  protocol_build_login, protocol_extract_message, extracted,
}
use asciigame.Protocol.Framing.{NoNewline, extract_first_line}

-- No bar, no newline and no carriage return.
abbrev pub is_special : ℕ → Bool
is_special c = c == b'|' || (c == 10 || c == 13)

abbrev pub Plain : Text → Type 0
Plain = All (λ c. is_special c ≡ false)

-- A field: plain, not empty, and short enough for its place in the message.
pub record IsField (f : Text) : Type 0 where
  pub plain : Plain f
  pub filled : 1 ≤ length f
  pub short : length f < max_arg_len

-- A line without its newline.
abbrev pub body : Text → List Text → Text
body name [] = name
body name (f ∷ fs) = name ++ b'|' ∷ body f fs

pub line-body : (name : Text) (fs : List Text) → line name fs ≡ body name fs ++ 10 ∷ []
line-body name [] = refl
line-body name (f ∷ fs) =
    ap (λ t. name ++ b'|' ∷ t) (line-body f fs)
    ∙ sym (append_assoc name (b'|' ∷ body f fs) (10 ∷ []))

Plain-Without : (f : Text) → Plain f → Without b'|' f
Plain-Without [] h = tt
Plain-Without (c ∷ f) h = (ground arith, Plain-Without f h.1)

abbrev Ends : Text → Type 0
Ends = All (λ c. (c == 10 || c == 13) ≡ false)

Ends-append : (s t : Text) → Ends s → Ends t → Ends (s ++ t)
Ends-append [] t h k = k
Ends-append (c ∷ s) t h k = (h.0, Ends-append s t h.1 k)

Plain-Ends : (f : Text) → Plain f → Ends f
Plain-Ends [] h = tt
Plain-Ends (c ∷ f) h = (ground arith, Plain-Ends f h.1)

pub Plain-fields : (fs : List Text) → All IsField fs → All Plain fs
Plain-fields [] v = tt
Plain-fields (f ∷ fs) v = (v.0.plain, Plain-fields fs v.1)

body-Ends : (name : Text) (fs : List Text) → Plain name → All Plain fs → Ends (body name fs)
body-Ends name [] h v = Plain-Ends name h
body-Ends name (f ∷ fs) h v =
    Ends-append name (b'|' ∷ body f fs) (Plain-Ends name h) (refl, body-Ends f fs v.0 v.1)

Ends-NoNewline : (s : Text) → Ends s → NoNewline s
Ends-NoNewline [] h = tt
Ends-NoNewline (c ∷ s) h = (ground arith, Ends-NoNewline s h.1)

pub body-NoNewline :
    (name : Text) (fs : List Text) → Plain name → All Plain fs → NoNewline (body name fs)
body-NoNewline name fs h v = Ends-NoNewline (body name fs) (body-Ends name fs h v)

strip_newlines-id : (s : Text) → Ends s → strip_newlines s ≡ s
unfolding strip_newlines
strip_newlines-id [] h = refl
strip_newlines-id (c ∷ []) h = rw h.0
strip_newlines-id (c ∷ d ∷ s) h = rw (strip_newlines-id (d ∷ s) h.1)

pub drop_empty-fields : (fs : List Text) → All IsField fs → drop_empty fs ≡ fs
drop_empty-fields [] v = refl
drop_empty-fields ([] ∷ fs) v = absurd (omega (arith, v.0.filled))
drop_empty-fields ((c ∷ f) ∷ fs) v = ap (◌∷◌ (c ∷ f)) (drop_empty-fields fs v.1)

split-body :
    (name : Text) (fs : List Text)
    → Plain name
    → All Plain fs
    → split b'|' (body name fs) ≡ name ∷ fs
split-body name [] h v = split-no_delimiter b'|' name (Plain-Without name h)
split-body name (f ∷ fs) h v =
    split-append b'|' name (body f fs) (Plain-Without name h)
    ∙ ap (◌∷◌ name) (split-body f fs v.0 v.1)

pub arguments-fields : (fs : List Text) → All IsField fs → length fs ≤ max_args → arguments fs ≡ fs
arguments-fields fs v h = ap (map (copy_into max_arg_len)) (take_all max_args fs h) ∙ go fs v
  where
    go : (gs : List Text) → All IsField gs → map (copy_into max_arg_len) gs ≡ gs
    go [] w = refl
    go (g ∷ gs) w = cc (take_all 2047 g (omega (arith, w.0.short)), go gs w.1)

-- A text that is no longer than the limit is parsed as the split of its bytes.
parse_short :
    (s : Text)
    → 1 ≤ length s
    → length s < max_msg_len
    → Ends s
    → protocol_parse s ≡ message_of (tokens b'|' s)
unfolding protocol_parse
parse_short [] h k e = absurd (omega arith)
parse_short (c ∷ s) h k e =
    let fits : leb max_msg_len (length (c ∷ s)) ≡ false = ground arith in
    let whole : copy_into max_msg_len (c ∷ s) ≡ c ∷ s = take_all 4095 (c ∷ s) (omega arith) in
    rw fits (
      ap (λ t. message_of (tokens b'|' (strip_newlines t))) whole
      ∙ ap (λ t. message_of (tokens b'|' t)) (strip_newlines-id (c ∷ s) e))

length-body : (name : Text) (fs : List Text) → length name ≤ length (body name fs)
length-body name [] = omega arith
length-body name (f ∷ fs) = omega (arith, length-append name (b'|' ∷ body f fs))

-- Of a message of plain fields the empty ones are lost.
pub parse_with_empty :
    (name : Text) (fs : List Text)
    → IsField name
    → All Plain fs
    → length (body name fs) < max_msg_len
    → protocol_parse (body name fs) ≡ message_of (drop_empty (name ∷ fs))
unfolding tokens
parse_with_empty name fs h v k =
    parse_short (body name fs) (omega (arith, length-body name fs, h.filled)) k
      (body-Ends name fs h.plain v)
    ∙ ap (λ ts. message_of (drop_empty ts)) (split-body name fs h.plain v)

-- A message of plain, non-empty fields that fit in the limits is parsed into exactly its command
-- type and its fields.
pub parse-body :
    (name : Text) (fs : List Text)
    → IsField name
    → All IsField fs
    → length fs ≤ max_args
    → length (body name fs) < max_msg_len
    → protocol_parse (body name fs) ≡ some (record { type = protocol_parse_cmd name; args = fs })
parse-body name fs h v n k =
    parse_with_empty name fs h (Plain-fields fs v) k
    ∙ ap message_of (drop_empty-fields (name ∷ fs) (h, v))
    ∙ ap (λ a. some (record { type = protocol_parse_cmd name; args = a })) (arguments-fields fs v n)

-- Any built line that fits its buffer is its body and the newline.
pub snprintf-line :
    (name : Text) (fs : List Text) (rest : Text)
    → length (body name fs) + 1 < max_msg_len
    → snprintf max_msg_len (line name fs) ++ rest ≡ body name fs ++ 10 ∷ rest
snprintf-line name fs rest h =
    let b = body name fs in
    let fits : length (b ++ 10 ∷ []) ≤ 4095 = omega (arith, length-append b (10 ∷ [])) in
    ap (λ t. take 4095 t ++ rest) (line-body name fs)
    ∙ ap (λ t. t ++ rest) (take_all 4095 (b ++ 10 ∷ []) fits)
    ∙ append_assoc b (10 ∷ []) rest

abbrev login_name : Text
login_name = codes "LOGIN"

login_name-IsField : IsField login_name
login_name-IsField = record {
  plain = (refl, (refl, (refl, (refl, (refl, tt)))));
  filled = omega arith;
  short = omega arith;
}

length-login_body : (u p : Text) → length (body login_name (u ∷ p ∷ [])) ≡ length u + length p + 7
length-login_body u p = omega (arith, length-append u (b'|' ∷ p))

parse_cmd-login : protocol_parse_cmd login_name ≡ cmd_login
unfolding protocol_parse_cmd
parse_cmd-login = refl

-- The login command that the client builds, whatever bytes follow it in the stream, is extracted by
-- the server as one message, which parses to LOGIN with the user's name and password; the following
-- bytes stay in the buffer. The name and password are fields, and the line fits in the buffers.
pub login_roundtrip :
    (username password rest : Text)
    → IsField username
    → IsField password
    → length username + length password < 4000
    → let (buf, r) =
        protocol_extract_message
          (protocol_build_login max_msg_len username password ++ rest)
          max_msg_len in
      (buf ≡ rest)
      × (s : Text) × (r ≡ extracted s)
      × (protocol_parse s ≡ some (record { type = cmd_login; args = username ∷ password ∷ [] }))
unfolding protocol_build_login
login_roundtrip username password rest u p n =
    let fs = username ∷ password ∷ [] in
    let b = body login_name fs in
    let size = length-login_body username password in
    let fields : All IsField fs = (u, (p, tt)) in
    let first = extract_first_line b rest max_msg_len (
      Ends-NoNewline b
        (body-Ends login_name fs login_name-IsField.plain (Plain-fields fs fields))) in
    rw (snprintf-line login_name fs rest (omega (arith, size))) (
      first.0,
      b,
      first.1 (omega (arith, size)),
      parse-body login_name fs login_name-IsField fields (omega arith) (omega (arith, size))
          ∙ ap (λ t. some (record { type = t; args = fs })) parse_cmd-login,
    )
