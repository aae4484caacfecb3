-- ===== src/Player.antt =====
-- Players: apps/bot/src/services/player.
pub mod Nick
