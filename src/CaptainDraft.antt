-- ===== src/CaptainDraft.antt =====
-- The captain draft of a Discord channel: apps/bot/src/services/captain-draft.
pub mod Types
pub mod Snake
pub mod Logic
pub mod Members
pub mod Locate
pub mod Exchange
pub mod Turns
pub mod WellFormed
pub mod Removal
pub mod Moves
pub mod Preserved
pub mod PreservedByMods
pub mod Actions
pub mod Begin
pub mod Sizes
pub mod Consistent
pub mod ConsistentMods
pub mod ConsistentEntrants
pub mod ConsistentHost
pub mod ConsistentSetUp
pub mod Lifecycle
pub mod Authority
pub mod Channel
pub mod Tests
pub mod Commands
