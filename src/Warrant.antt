-- ===== src/Warrant.antt =====
-- warrant/: the append-only ledger of authority and the price of an action.
pub mod Event
pub mod Decay
pub mod Fold
pub mod Store
pub mod Ledger
pub mod Economics
pub mod Sample
mod Tests
