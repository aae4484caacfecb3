-- ===== src/LobbyRoster.antt =====
-- Rosters of pending lobbies: apps/bot/src/services/lobby, from roster.ts, remap.ts and locked-slots.ts.
pub mod Types
pub mod Logic
pub mod Remap
pub mod Accepted
pub mod Seats
pub mod Commands
pub mod Refinement
pub mod Contract
pub mod Search
pub mod Locks
pub mod Tests
