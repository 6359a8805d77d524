-- ===== src/Config.antt =====
-- common/config.h: the constants that the modelled code uses, under their own names.
use asciigame.Base.{ℕ, ℤ, pos}

abbrev pub max_players : ℕ
max_players = 256

abbrev pub max_username : ℕ
max_username = 32

abbrev pub max_inventory : ℕ
max_inventory = 5

abbrev pub max_rooms : ℕ
max_rooms = 32

abbrev pub max_room_players : ℕ
max_room_players = 10

abbrev pub min_room_players : ℕ
min_room_players = 2

abbrev pub max_room_name : ℕ
max_room_name = 32

abbrev pub map_width : ℕ
map_width = 50

abbrev pub map_height : ℕ
map_height = 20

abbrev pub max_map_items : ℕ
max_map_items = 20

abbrev pub tick_interval_ms : ℕ
tick_interval_ms = 50

abbrev pub move_cooldown_ms : ℤ
move_cooldown_ms = pos 200

abbrev pub attack_cooldown_ms : ℤ
attack_cooldown_ms = pos 1000

abbrev pub attack_range : ℕ
attack_range = 3

abbrev pub initial_hp : ℤ
initial_hp = pos 100

abbrev pub initial_atk : ℤ
initial_atk = pos 15

abbrev pub initial_def : ℤ
initial_def = pos 5

abbrev pub poison_start_time : ℤ
poison_start_time = pos 60000

abbrev pub poison_shrink_interval : ℤ
poison_shrink_interval = pos 30000

abbrev pub poison_damage : ℕ
poison_damage = 5

abbrev pub item_spawn_interval : ℤ
item_spawn_interval = pos 10000

abbrev pub game_max_duration : ℤ
game_max_duration = pos 300000

abbrev pub health_restore : ℤ
health_restore = pos 30

abbrev pub atk_buff_amount : ℤ
atk_buff_amount = pos 10

abbrev pub atk_buff_duration : ℤ
atk_buff_duration = pos 10000

abbrev pub max_args : ℕ
max_args = 16

abbrev pub max_arg_len : ℕ
max_arg_len = 2048

abbrev pub max_msg_len : ℕ
max_msg_len = 4096

abbrev pub wal_buffer_size : ℕ
wal_buffer_size = 4096

abbrev pub wal_sync_interval_ms : ℤ
wal_sync_interval_ms = pos 1000

abbrev pub recovery_wait_time : ℤ
recovery_wait_time = pos 30000

abbrev pub max_users : ℕ
max_users = 10240

abbrev pub err_invalid_format : ℤ
err_invalid_format = pos 1001

abbrev pub err_unknown_command : ℤ
err_unknown_command = pos 1002

abbrev pub err_invalid_arg_count : ℤ
err_invalid_arg_count = pos 1003

abbrev pub err_invalid_arg_format : ℤ
err_invalid_arg_format = pos 1004

abbrev pub err_username_exists : ℤ
err_username_exists = pos 2001

abbrev pub err_invalid_credentials : ℤ
err_invalid_credentials = pos 2002

abbrev pub err_user_logged_in : ℤ
err_user_logged_in = pos 2003

abbrev pub err_room_not_found : ℤ
err_room_not_found = pos 3001

abbrev pub err_room_full : ℤ
err_room_full = pos 3002

abbrev pub err_game_in_progress : ℤ
err_game_in_progress = pos 3003

abbrev pub err_not_in_room : ℤ
err_not_in_room = pos 3004

abbrev pub err_move_cooldown : ℤ
err_move_cooldown = pos 4001

abbrev pub err_invalid_move : ℤ
err_invalid_move = pos 4002

abbrev pub err_attack_cooldown : ℤ
err_attack_cooldown = pos 4003

abbrev pub err_invalid_item_index : ℤ
err_invalid_item_index = pos 4004

abbrev pub snapshot_interval_ms : ℤ
snapshot_interval_ms = pos 20000
