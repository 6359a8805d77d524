-- ===== src/Game.antt =====
-- server/game.c and server/game.h: the rules of the game, one module for each group of functions.
pub mod Event
pub mod Buffs
pub mod Move
pub mod Attack
pub mod Pickup
pub mod UseItem
pub mod Poison
pub mod Finish
pub mod Logging
pub mod Broadcast
pub mod Loop
