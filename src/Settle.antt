-- ===== src/Settle.antt =====
-- settle/: what can still be taken back, the correction that is owed, and who must sign it.
pub mod Irreversibility
pub mod Exposure
pub mod Cartography
pub mod Obligation
pub mod Broker
pub mod Merging
pub mod Pipeline
pub mod LoadRating
pub mod Settling
mod Tests
