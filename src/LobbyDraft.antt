-- ===== src/LobbyDraft.antt =====
-- The captain draft of a lobby: apps/bot/src/services/lobby-draft.
pub mod Types
pub mod Assign
pub mod Heroes
pub mod Leavers
pub mod Removal
pub mod Handover
pub mod Succession
pub mod Farewell
pub mod Timeouts
pub mod Deadlines
pub mod Resolved
pub mod Owners
pub mod Augment
pub mod Matched
pub mod Leftovers
pub mod Assigned
pub mod Logic
pub mod Tally
pub mod Members
pub mod Partition
pub mod Lifecycle
pub mod Tests
pub mod Phases
