-- ===== src/Lib.antt =====
-- ASCIIGame, a multiplayer battle royale in the terminal: the game server, the protocol that it
-- shares with the client, and what the client knows of the game.
--
-- The parts and the files
--   Config       common/config.h: the constants.
--   Text         C strings as lists of bytes, and what the code takes from the C library for them:
--                strcmp, strncpy, snprintf, strtok_r (Text/Fields), %d and atoi (Text/Decimal),
--                sscanf, strtok_r with a rest, strstr (Text/Scan, with texts among the values in
--                Text/Scan/Mixed).
--   GameMap      server/map.c, map.h: the template, `map_is_walkable`, the random positions, the
--                poison zone and the distance.
--   Player       server/player.c, player.h: one player (`Player`), the table of all players
--                (`PlayerTable`), the searches in it, and the inventory.
--   Protocol     common/protocol.c, protocol.h: the commands, `protocol_parse`,
--                `protocol_extract_message` and the builders; Protocol/MapData the one for a map.
--   Wal          server/wal.c, wal.h: `wal_write` and the names of the actions; Wal/Records has
--                `wal_parse_record`, `get_last_sequence`, `wal_create_for_room`, `wal_truncate`.
--   Room         server/room.c, room.h: joining, leaving, broadcasts and counts; Room/Start and
--                Room/Ending the start and the end of a game; Room/Table the table of rooms. Its
--                type `Arena` is the state that the functions of a room work on: the room, the slots
--                of the player table, the messages sent and the number of rand() calls. A `Player *`
--                is the index of a slot.
--   Game         server/game.c: one child per handler. Game/Move is `game_handle_move`, Game/Attack
--                `game_handle_attack`, Game/Pickup `game_check_item_pickup` and `game_spawn_items`,
--                Game/UseItem `game_handle_use_item`, Game/Poison `game_update_poison` and
--                `game_apply_poison_damage`, Game/Buffs `game_update_buffs`, Game/Finish
--                `game_check_end`, Game/Broadcast `game_broadcast_state`, Game/Loop the thread of a
--                game, `game_thread_func`, tick by tick. Definitions stand in the parent, their
--                theorems in its children.
--   Recovery     server/recovery.c: the state rebuilt from a log, and the way back into the game.
--                Recovery/Parse has `parse_move` to `parse_use_item`, Recovery/Start
--                `parse_game_start`, `parse_player_join` and the checkpoint, Recovery/Replay
--                `parse_wal_file`, Recovery/Mapping the table of recovered rooms, Recovery/Saved the
--                .recovery files (`save_recovery_info`; `recovery_check_player` and
--                `recovery_get_player_state` in Recovery/Saved/Reading), Recovery/Rejoin
--                `recovery_create_room_for_game`, Recovery/Rejoin/Restore
--                `recovery_restore_player_to_game`, Recovery/Recover `recovery_recover_room` with
--                the file of `snapshot_load`, Recovery/Listing `recovery_list_recoverable_rooms` and
--                `recovery_check_and_recover`. Recovery/Events has the records that
--                server/game.c writes, and Recovery/Meaning what each of them means, described apart
--                from the functions that replay it (Recovery/Meaning/Agrees compares them).
--   Snapshot     server/snapshot.c: `snapshot_save`, the log that it begins, `snapshot_load`.
--   Storage      server/storage.c, storage.h: the accounts, and SHA-256 (Storage/Sha256).
--   World        the players, the rooms and the accounts together.
--   Handler      server/handler.c: Handler/Lobby has the commands outside a game, Handler/Play the
--                commands of a game, Handler/Process `handler_process` with the `handler_login`
--                of a user whom no recovery file names, Handler/Rejoin the whole `handler_login`.
--   Network      server/network.c: `send_all` and `recv_to_buffer` over the results of the calls of
--                the system.
--   Server       server/main.c: connections, disconnections, received data, `main_loop`.
--   Client       client/game.c, game.h: the state shown, its messages (Client/Messages), the handlers
--                of the messages of the server (Client/Handlers, Client/State for the tick's,
--                Client/Events, Client/MapData), `game_update_from_server` and `recv_thread_func`
--                (Client/Update). Client/Synced and Client/NoItems are about the tick's message from
--                `game_broadcast_state` to the screen, Client/Stream about the pieces it comes in.
--   Base         the shared names: tests, lists over native numbers, integers.
--   Examples     the theorems at concrete inputs.
--
-- How they interact: a handler of Game reads and updates players by their slots, writes records to
-- the log of the room (Wal) and tells the players of the room about it by `room_broadcast`, with
-- messages of Protocol. Game/Logging is about a replay of these records by Recovery. Each function
-- returns the whole new state and the C return value.
--
-- Conventions: int and long are mathematical integers, and flags are Boolean. rand() is any function
-- from the number of the call to its result. The clock is an argument and does not advance during
-- one call. The two loops that look for a random position have the bound of the source, 1000
-- attempts, as fuel, so that no theorem depends on more. The digits of a number have fuel one above
-- it. The loops over the messages of a buffer have fuel above its length, since each message ends
-- with a newline; `send_all` has fuel for one call per byte. The loop of a game has as fuel its number
-- of ticks; 6001 are enough. In a tick each call reads the clock once (`TickTimes`), and what the other
-- threads do to the room while the thread sleeps is any function. What a conversion of sscanf does
-- not assign has an unknown value (`junk`), and a row of a map that is not read is unknown too.
-- A well-formed table of players (`IsTable`) has its full size, and identifiers that are distinct
-- and below the next one. A well-formed inventory (`IsStocked`) has five places and no empty one
-- before the count. A well-formed room (`IsSeated`) counts the places taken, and allows no more
-- players than it has places.
--
-- A `World` has the rooms in their slots; a handler takes the room of the player out into an `Arena`
-- and puts it back. A log file is the list of its lines. An array with a count that is only appended
-- to is the list of its entries. A word of SHA-256 is a number, reduced modulo 2 ^ 32 after each sum.
--
-- Not modelled: threads and locks (a function is one critical section, or several that no other
-- thread comes between), the calls of the system for sockets, epoll and files (what they give is a
-- parameter, and files are their lines), the start of the processes, log output, and the drawing
-- and the keyboard of the client (client/ui.c, client/main.c).
pub mod Base
pub mod Config
pub mod Text
pub mod GameMap
pub mod Player
pub mod Protocol
pub mod Wal
pub mod Room
pub mod Recovery
pub mod Snapshot
pub mod Storage
pub mod World
pub mod Network
pub mod Server
pub mod Handler
pub mod Game
pub mod Client
pub mod Examples
