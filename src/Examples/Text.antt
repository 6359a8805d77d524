-- ===== src/Examples/Text.antt =====
-- Messages and numbers.
use asciigame.Base.{◌≡◌, refl, ◌++◌, [], ◌∷◌, arith, some, leb→le}
use asciigame.Config.{max_msg_len}
use asciigame.Text.{Text, codes}
use asciigame.Protocol.{
  protocol_parse, protocol_extract_message, protocol_build_login, extracted, cmd_login,
}
use asciigame.Protocol.RoundTrip.{IsField, login_roundtrip}

abbrev pub ann : Text
ann = codes "ann"

ann-IsField : IsField ann
ann-IsField = record {
  plain = (refl, (refl, (refl, tt)));
  filled = leb→le 1 3 refl;
  short = omega arith;
}

move-IsField : IsField (codes "MOVE")
move-IsField = record {
  plain = (refl, (refl, (refl, (refl, tt))));
  filled = omega arith;
  short = omega arith;
}

login_roundtrip_example :
    let (buf, r) =
      protocol_extract_message
        (protocol_build_login max_msg_len ann ann ++ codes "MOVE|U")
        max_msg_len in
    (buf ≡ codes "MOVE|U")
    × (s : Text) × (r ≡ extracted s)
    × (protocol_parse s ≡ some (record { type = cmd_login; args = ann ∷ ann ∷ [] }))
login_roundtrip_example =
    login_roundtrip ann ann (codes "MOVE|U") ann-IsField ann-IsField (omega arith)
