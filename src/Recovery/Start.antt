-- ===== src/Recovery/Start.antt =====
-- `parse_game_start`, `parse_player_join` and the checkpoint: the records with named fields.
use asciigame.Base.{
  ℕ, suc, List, [], ◌∷◌, ◌++◌, Option, none, some, ℤ, pos, negsuc, ◌+ℤ◌, ltb_ℤ, leb, if◌then◌else◌,
  length, replicate, take, map, later,
}
use asciigame.Config.{
  max_inventory, max_username, max_room_name, max_room_players, max_msg_len, initial_hp,
  initial_atk, initial_def, atk_buff_duration,
}
use asciigame.Text.{Text, codes, copy_into, text_eq}
use asciigame.Text.Decimal.{atoi}
use asciigame.Text.Fields.{tokens}
use asciigame.Text.Scan.{
  Directive, byte, int, skip_until, expect, sscanf, strip_prefix, after_first, cut,
}
use asciigame.Player.{player_gaming, is_empty}
use asciigame.Recovery.{RecoveredPlayer, RecoveryState, change_at}

-- Of a chain of `if (strncmp(token, "key=", ...) == 0) ... else ...` the first that applies.
abbrev pub set_first : {A : Type 0} → List (Text × (Text → A → A)) → Text → A → A
set_first [] token a = a
set_first ((key, store) ∷ rest) token a =
    let other = set_first rest token a in
    elim (strip_prefix key token) [ none ↦ other | some value ↦ store value a ]

-- The two locals of `parse_game_start`.
pub record StartFields : Type 0 where
  pub room_name : Text
  pub max_players : ℤ

abbrev pub start_keys : List (Text × (Text → StartFields → StartFields))
start_keys =
    (codes "room_name=", λ v f. record f { room_name = copy_into max_room_name v })
    ∷ (codes "max_players=", λ v f. record f { max_players = atoi v })
    ∷ []

abbrev pub start_fields : List Text → StartFields → StartFields
start_fields [] f = f
start_fields (token ∷ rest) f = start_fields rest (set_first start_keys token f)

unfoldable pub parse_game_start : Text → RecoveryState → RecoveryState
unfolding tokens strip_prefix atoi
parse_game_start action_data state =
    let f =
      start_fields (tokens b',' (copy_into max_msg_len action_data))
        (record { room_name = []; max_players = pos max_room_players }) in
    record state { room_name = f.room_name; max_players = f.max_players }

-- The locals of `parse_player_join`.
pub record JoinFields : Type 0 where
  pub pid : ℤ
  pub username : Text
  pub x : ℤ
  pub y : ℤ
  pub hp : ℤ
  pub max_hp : ℤ
  pub atk : ℤ
  pub def : ℤ
  pub base_atk : ℤ
  pub has_shield : ℤ
  pub atk_buff_remain : ℤ
  pub inventory : List ℤ

abbrev pub no_fields : JoinFields
no_fields = record {
  pid = negsuc 0;
  username = [];
  x = pos 0;
  y = pos 0;
  hp = initial_hp;
  max_hp = initial_hp;
  atk = initial_atk;
  def = initial_def;
  base_atk = initial_atk;
  has_shield = pos 0;
  atk_buff_remain = pos 0;
  inventory = replicate max_inventory (pos 0);
}

abbrev pub join_keys : List (Text × (Text → JoinFields → JoinFields))
join_keys =
    (codes "pid=", λ v f. record f { pid = atoi v })
    ∷ (codes "username=", λ v f. record f { username = copy_into max_username v })
    ∷ (codes "x=", λ v f. record f { x = atoi v })
    ∷ (codes "y=", λ v f. record f { y = atoi v })
    ∷ (codes "hp=", λ v f. record f { hp = atoi v })
    ∷ (codes "max_hp=", λ v f. record f { max_hp = atoi v })
    ∷ (codes "atk=", λ v f. record f { atk = atoi v })
    ∷ (codes "def=", λ v f. record f { def = atoi v })
    ∷ (codes "base_atk=", λ v f. record f { base_atk = atoi v })
    ∷ (codes "shield=", λ v f. record f { has_shield = atoi v })
    ∷ (codes "atk_buff_remain=", λ v f. record f { atk_buff_remain = atoi v })
    ∷ []

abbrev pub first_number : Text → ℤ
first_number v = elim (sscanf (int ∷ []) v) [ [] ↦ pos 0 | z ∷ _ ↦ z ]

-- "inv=%d" and the numbers of the next tokens; a missing one leaves 0.
abbrev pub inventory_of : Text → List Text → List ℤ
inventory_of v rest =
    take max_inventory (first_number v ∷ (map atoi (take 4 rest) ++ replicate 4 (pos 0)))

-- "inv=" ends the loop. None of the other keys begins a token that it begins.
abbrev pub join_fields : List Text → JoinFields → JoinFields
join_fields [] f = f
join_fields (token ∷ rest) f =
    let next = join_fields rest (set_first join_keys token f) in
    elim (strip_prefix (codes "inv=") token) as (λ _. JoinFields) [
      | none ↦ next
      | some v ↦ record f { inventory = inventory_of v rest }
    ]

abbrev pub buff_expiry : ℤ → JoinFields → ℤ
buff_expiry now f =
    if ltb_ℤ (pos 0) f.atk_buff_remain
    then now +ℤ f.atk_buff_remain
    else if ltb_ℤ f.base_atk f.atk
    then now +ℤ atk_buff_duration
    else pos 0

abbrev pub count_positive : List ℤ → ℕ
count_positive [] = 0
count_positive (z ∷ zs) = let rest = count_positive zs in if ltb_ℤ (pos 0) z then suc rest else rest

unfoldable pub joined_player : ℤ → JoinFields → RecoveredPlayer
unfolding ◌+ℤ◌
joined_player now f = record {
  id = f.pid;
  username = f.username;
  x = f.x;
  y = f.y;
  hp = f.hp;
  max_hp = f.max_hp;
  atk = f.atk;
  def = f.def;
  base_atk = f.base_atk;
  has_shield = f.has_shield;
  status = player_gaming;
  inventory = f.inventory;
  inventory_count = count_positive f.inventory;
  atk_buff_expire = buff_expiry now f;
}

unfoldable pub find_name : Text → List RecoveredPlayer → Option ℕ
unfolding text_eq
find_name name [] = none
find_name name (p ∷ ps) =
    let rest = later (find_name name ps) in if text_eq p.username name then some 0 else rest

-- A player of the same name is replaced, else there is one more unless all places are taken.
unfoldable pub seat_joined : RecoveredPlayer → RecoveryState → RecoveryState
unfolding find_name change_at
seat_joined p state = elim (find_name p.username state.players) [
  | some idx ↦ record state { players = change_at idx (λ _. p) state.players }
  | none ↦
      if leb max_room_players (length state.players)
      then state
      else record state { players = state.players ++ (p ∷ []) }
]

unfoldable pub parse_player_join : ℤ → Text → RecoveryState → RecoveryState
unfolding tokens strip_prefix atoi sscanf joined_player seat_joined
parse_player_join now action_data state =
    let f = join_fields (tokens b',' (copy_into max_msg_len action_data)) no_fields in
    if ltb_ℤ f.pid (pos 0) then state else seat_joined (joined_player now f) state

-- The room name of a checkpoint, up to the next comma.
abbrev pub checkpoint_name : Text → Text
checkpoint_name action_data = elim (after_first (codes "room_name=") action_data) [
  | none ↦ []
  | some rest ↦ copy_into max_room_name (cut b',' rest).0
]

abbrev pub radius_format : List Directive
radius_format = expect (codes "poison_radius=") (int ∷ [])

abbrev pub checkpoint_radius : Text → ℤ
checkpoint_radius action_data =
    elim (sscanf (skip_until b',' ∷ byte b',' ∷ radius_format) action_data) [
      | r ∷ _ ↦ r
      | [] ↦ elim (sscanf radius_format action_data) [ [] ↦ negsuc 0 | r ∷ _ ↦ r ]
    ]

unfoldable pub parse_checkpoint : Text → RecoveryState → RecoveryState
unfolding sscanf after_first cut
parse_checkpoint action_data state =
    let name = checkpoint_name action_data in
    let radius = checkpoint_radius action_data in
    record state {
      room_name = if is_empty name then state.room_name else name;
      poison_radius = if ltb_ℤ (pos 0) radius then radius else state.poison_radius;
    }
