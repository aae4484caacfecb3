-- ===== src/HeroDraft.antt =====
-- The hero draft of two teams: apps/bot/src/services/hero-draft.
pub mod Types
pub mod Logic
pub mod Turns
pub mod Moves
pub mod Taken
pub mod Played
pub mod Timeouts
pub mod Finish
pub mod Actions
pub mod Sound
pub mod Lifecycle
pub mod Timer
pub mod Tests
