-- ===== src/Protocol/Names.antt =====
-- The table of command names.
use asciigame.Base.{◌≡◌, refl}
use asciigame.Protocol.{CommandType, protocol_cmd_name, protocol_parse_cmd, cmd_login}

-- Every command type is read back from its name; so the names are pairwise different.
pub parse_cmd-cmd_name : (t : CommandType) → protocol_parse_cmd (protocol_cmd_name t) ≡ t
unfolding protocol_parse_cmd protocol_cmd_name
parse_cmd-cmd_name cmd_login = refl
parse_cmd-cmd_name _ = refl
