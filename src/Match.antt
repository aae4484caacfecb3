-- ===== src/Match.antt =====
-- Matches, from the lobby to the report: apps/bot/src/services/match.
pub mod Types
pub mod Report
pub mod Completion
pub mod Correction
pub mod Approval
pub mod Lobby
pub mod Closing
pub mod Commands
pub mod Sound
pub mod Steps
pub mod Ends
pub mod Lifecycle
pub mod Restore
pub mod Flip
pub mod Progress
pub mod Locked
pub mod Tests
