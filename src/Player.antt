-- ===== src/Player.antt =====
-- server/player.c and server/player.h: one connected player, and the table of all players.
-- A `Player *` is the index of its slot in the table. The mutexes are left out: each function of
-- this development is one critical section, or several that no other thread comes between.
pub mod Inventory
pub mod Table
pub mod Lookup
pub mod Update
pub mod Pointwise
pub mod Seated
use asciigame.Base.{
  ℕ, zero, suc, ◌+◌, ◌-◌, ◌≡◌, refl, Bool, true, false, not, ◌&&◌, ◌||◌, List, [], ◌∷◌, Option,
  none, some, ℤ, pos, negsuc, ◌+ℤ◌, ltb, leb, ◌==◌, ◌==ℤ◌, if◌then◌else◌, get_elem?, get_or, set,
  replicate, later,
}
use asciigame.Config.{
  max_username, max_inventory, initial_hp, initial_atk, initial_def, max_players,
}
use asciigame.Text.{Text, text_eq, copy_into}

pub data PlayerStatus : Type 0 where
  player_disconnected player_connected player_lobby player_in_room player_ready player_gaming
        player_dead :
      PlayerStatus

pub data ItemType : Type 0 where
  item_none item_health item_attack item_shield : ItemType

-- `type == ITEM_NONE`
abbrev pub is_none : ItemType → Bool
is_none item_none = true
is_none _ = false

-- `status == PLAYER_GAMING`
abbrev pub is_gaming : PlayerStatus → Bool
is_gaming player_gaming = true
is_gaming _ = false

-- `status == PLAYER_READY`
abbrev pub is_ready : PlayerStatus → Bool
is_ready player_ready = true
is_ready _ = false

-- `status == PLAYER_DISCONNECTED`
abbrev pub is_disconnected : PlayerStatus → Bool
is_disconnected player_disconnected = true
is_disconnected _ = false

-- The flags of type int are Boolean, and the receive buffer is its first `recv_len` bytes.
pub record Player : Type 0 where
  pub fd : ℤ
  pub id : ℤ
  pub username : Text
  pub room_id : ℤ
  pub status : PlayerStatus
  pub x : ℤ
  pub y : ℤ
  pub hp : ℤ
  pub max_hp : ℤ
  pub atk : ℤ
  pub def : ℤ
  pub base_atk : ℤ
  pub last_move_time : ℤ
  pub last_attack_time : ℤ
  pub inventory : List ItemType
  pub inventory_count : ℕ
  pub has_shield : Bool
  pub atk_buff_expire : ℤ
  pub atk_buff_warned : Bool
  pub recv_buf : List ℕ

-- `players[MAX_PLAYERS]` and `next_player_id`.
pub record PlayerTable : Type 0 where
  pub slots : List (Option Player)
  pub next_player_id : ℤ

unfoldable pub player_init : PlayerTable
player_init = record { slots = replicate max_players none; next_player_id = pos 1 }

-- The first empty slot of a table.
unfoldable pub free_slot {ℓ} : {A : Type ℓ} → List (Option A) → Option ℕ
free_slot [] = none
free_slot (none ∷ ps) = some 0
free_slot (some p ∷ ps) = later (free_slot ps)

-- What `player_create` puts into the slot; `calloc` clears the rest.
abbrev pub new_player : ℤ → ℤ → Player
new_player fd id = record {
  fd = fd;
  id = id;
  username = [];
  room_id = negsuc 0;
  status = player_connected;
  x = pos 0;
  y = pos 0;
  hp = initial_hp;
  max_hp = initial_hp;
  atk = initial_atk;
  def = initial_def;
  base_atk = initial_atk;
  last_move_time = pos 0;
  last_attack_time = pos 0;
  inventory = replicate max_inventory item_none;
  inventory_count = 0;
  has_shield = false;
  atk_buff_expire = pos 0;
  atk_buff_warned = false;
  recv_buf = [];
}

-- The slot of the new player; `none` is NULL. `calloc` is taken to succeed.
unfoldable pub player_create : PlayerTable → ℤ → PlayerTable × Option ℕ
unfolding free_slot
player_create t fd = elim (free_slot t.slots) [
  | none ↦ (t, none)
  | some slot ↦ (
    record {
      slots = set t.slots slot (some (new_player fd t.next_player_id));
      next_player_id = t.next_player_id +ℤ pos 1;
    },
    some slot,
  )
]

unfoldable pub player_destroy : PlayerTable → ℕ → PlayerTable
player_destroy t slot = record t { slots = set t.slots slot none }

-- The first slot whose entry passes the test.
unfoldable pub find_slot {ℓ} : {A : Type ℓ} → (A → Bool) → List (Option A) → Option ℕ
find_slot test [] = none
find_slot test (none ∷ ps) = later (find_slot test ps)
find_slot test (some p ∷ ps) =
    let rest = later (find_slot test ps) in if test p then some 0 else rest

unfoldable pub player_find_by_fd : List (Option Player) → ℤ → Option ℕ
unfolding find_slot
player_find_by_fd ps fd = find_slot (λ p. p.fd ==ℤ fd) ps

unfoldable pub player_find_by_id : List (Option Player) → ℤ → Option ℕ
unfolding find_slot
player_find_by_id ps id = find_slot (λ p. p.id ==ℤ id) ps

abbrev pub is_empty : Text → Bool
is_empty [] = true
is_empty (c ∷ s) = false

unfoldable pub player_find_by_username : List (Option Player) → Text → Option ℕ
unfolding find_slot
player_find_by_username ps username =
    find_slot (λ p. not (is_empty p.username) && text_eq p.username username) ps

unfoldable pub player_set_username : Player → Text → Player
player_set_username p username = record p { username = copy_into max_username username }

unfoldable pub player_reset_game_state : Player → Player
player_reset_game_state p = record p {
  hp = initial_hp;
  max_hp = initial_hp;
  atk = initial_atk;
  base_atk = initial_atk;
  def = initial_def;
  last_move_time = pos 0;
  last_attack_time = pos 0;
  inventory_count = 0;
  inventory = replicate max_inventory item_none;
  has_shield = false;
  atk_buff_expire = pos 0;
  atk_buff_warned = false;
}

unfoldable pub player_get_online_count : List (Option Player) → ℕ
player_get_online_count [] = 0
player_get_online_count (none ∷ ps) = player_get_online_count ps
player_get_online_count (some p ∷ ps) =
    let rest = player_get_online_count ps in if is_disconnected p.status then rest else suc rest

-- `true` is the return value 0, `false` is -1.
unfoldable pub player_add_item : Player → ItemType → Player × Bool
player_add_item p type =
    if is_none type
    then (p, false)
    else if leb max_inventory p.inventory_count
    then (p, false)
    else (
      record p {
        inventory = set p.inventory p.inventory_count type;
        inventory_count = p.inventory_count + 1;
      },
      true,
    )

-- `for (i = index; i < inventory_count - 1; i++) inventory[i] = inventory[i + 1]`, `rounds` of it.
unfoldable pub shift_down : ℕ → ℕ → List ItemType → List ItemType
shift_down zero i inv = inv
shift_down (suc rounds) i inv = shift_down rounds (suc i) (set inv i (get_or inv (suc i) item_none))

abbrev pub index_of : ℤ → ℕ
index_of (pos n) = n
index_of (negsuc n) = 0

-- The slot taken out is cleared at the end of the items. The decrement runs only where
-- `index < inventory_count`.
unfoldable pub player_use_item : Player → ℤ → Player × ItemType
unfolding shift_down
player_use_item p (negsuc k) = (p, item_none)
player_use_item p (pos index) = if leb p.inventory_count index then (p, item_none) else (
  record p {
    inventory =
        set (shift_down (p.inventory_count - 1 - index) index p.inventory) (p.inventory_count - 1)
          item_none;
    inventory_count = p.inventory_count - 1;
  },
  get_or p.inventory index item_none,
)

-- `*player` for the pointer that is the index `s`.
abbrev pub player_at : List (Option Player) → ℕ → Option Player
player_at [] s = none
player_at (o ∷ ps) zero = o
player_at (o ∷ ps) (suc s) = player_at ps s

-- A write through the pointer that is the index `s`.
unfoldable pub update_player : ℕ → (Player → Player) → List (Option Player) → List (Option Player)
update_player s f [] = []
update_player zero f (none ∷ ps) = none ∷ ps
update_player zero f (some p ∷ ps) = some (f p) ∷ ps
update_player (suc s) f (o ∷ ps) = o ∷ update_player s f ps
